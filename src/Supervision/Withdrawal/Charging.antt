-- ===== src/Supervision/Withdrawal/Charging.antt =====
-- impl/aicash/supervision.py, `agent_withdraw`: what the charge and the funding have checked.
use ai_cash.Prelude.{ℕ, ◌+◌, ◌≤◌, ◌≡◌, sym, ◌∙◌, ap, subst, false, List, arith, ltb}
use ai_cash.Prelude.Int.{pos, ◌≤ℤ◌, ltb_ℤ}
use ai_cash.Prelude.Text.{Text}
use ai_cash.Burn
use ai_cash.Burn.{BurnPolicy, compute_burn}
use ai_cash.Ledger.State.{Run, done, fault}
use ai_cash.Ledger.Table.{Table, IsUnique}
use ai_cash.Supervision.{
  Agent, Line, ok, reject_if, agent_cap_exceeded, insufficient_balance, >>=-eq-ok, reject_if-eq-ok,
  ok-injective,
}
use ai_cash.Supervision.Accounts.{cap_violation}
use ai_cash.Supervision.Bridge.{or_raised, or_faulted}
use ai_cash.Supervision.Custody.{Custody}
use ai_cash.Supervision.Selection.{unspent_custody, select_custody}
use ai_cash.Supervision.Selection.Covering.{
  amount_of, IsDrawn, select_custody-Selected, Selected-IsDrawn,
}
use ai_cash.Supervision.Withdrawal.{charge_withdraw, fund_withdraw}

or_raised-eq-ok : (m : Burn.Checked ℕ) (n : ℕ) → or_raised m ≡ ok n → m ≡ Burn.ok n
or_raised-eq-ok (Burn.ok x) n h = ap Burn.ok (ok-injective h)
or_raised-eq-ok (Burn.raised e) n h = cc

pub or_faulted-eq-ok : {A : Type 0} (m : Run A) (x : A) → or_faulted m ≡ ok x → m ≡ done x
or_faulted-eq-ok (done y) x h = ap done (ok-injective h)
or_faulted-eq-ok (fault e) x h = cc

pub record Charged (policy : BurnPolicy) (id : Text) (agent : Agent) (total now : ℕ)
    (lines : List Line) (burn_mc : ℕ) : Type 0 where
  pub burn_is : compute_burn (pos total) policy ≡ Burn.ok burn_mc
  pub within : cap_violation id agent (total + burn_mc) now lines ≡ false
  pub funded : pos (total + burn_mc) ≤ℤ agent.balance_mc

pub charge_withdraw-Charged :
    (id : Text) (agent : Agent) (policy : BurnPolicy) (total now : ℕ) (lines : List Line)
    (burn_mc : ℕ)
    → charge_withdraw id agent policy total now lines ≡ ok burn_mc
    → Charged policy id agent total now lines burn_mc
unfolding charge_withdraw
charge_withdraw-Charged id agent policy total now lines burn_mc h =
    let (b, k, h1) = >>=-eq-ok (or_raised (compute_burn (pos total) policy)) _ h in
    let capped = cap_violation id agent (total + b) now lines in
    let (_, e, h2) = >>=-eq-ok (reject_if capped agent_cap_exceeded) _ h1 in
    let short = ltb_ℤ agent.balance_mc (pos (total + b)) in
    let (_, f, h3) = >>=-eq-ok (reject_if short insufficient_balance) _ h2 in
    subst (Charged policy id agent total now lines) (ok-injective h3) (record {
      burn_is = or_raised-eq-ok (compute_burn (pos total) policy) b k;
      within = reject_if-eq-ok capped agent_cap_exceeded e;
      funded = ground (arith, reject_if-eq-ok short insufficient_balance f);
    })

pub record Funded (policy : BurnPolicy) (total : ℕ) (t sel : Table Custody) (ledger_burn change : ℕ)
    : Type 0 where
  pub pays : IsDrawn t sel
  pub sums : amount_of sel ≡ total + ledger_burn + change
  pub burn_is : compute_burn (pos (amount_of sel)) policy ≡ Burn.ok ledger_burn
  pub enough : total ≤ amount_of sel

pub fund_withdraw-Funded :
    (policy : BurnPolicy) (total : ℕ) (t sel : Table Custody) (ledger_burn change : ℕ)
    → IsUnique t
    → fund_withdraw policy total t ≡ ok (sel, ledger_burn, change)
    → Funded policy total t sel ledger_burn change
unfolding fund_withdraw
fund_withdraw-Funded policy total t sel ledger_burn change u h =
    let ((rows, sum), e, h1) = >>=-eq-ok (select_custody policy total (unspent_custody t) 0) _ h in
    let s = select_custody-Selected policy total (unspent_custody t) 0 rows sum e in
    let (b, k, h2) = >>=-eq-ok (or_raised (compute_burn (pos sum) policy)) _ h1 in
    let sum_is : sum ≡ amount_of rows = omega (arith, s.sums) in
    let short = ltb sum (total + b) in
    let (_, f, h3) = >>=-eq-ok (reject_if short insufficient_balance) _ h2 in
    subst (λ (x : Table Custody × ℕ × ℕ). Funded policy total t x.0 x.1 x.2) (ok-injective h3)
      (record {
        pays = Selected-IsDrawn t 0 rows sum u s;
        sums = ground (arith, s.sums, reject_if-eq-ok short insufficient_balance f);
        burn_is =
            ap (λ n. compute_burn (pos n) policy) (sym sum_is)
            ∙ or_raised-eq-ok (compute_burn (pos sum) policy) b k;
        enough = ground (arith, s.sums, reject_if-eq-ok short insufficient_balance f);
      })
