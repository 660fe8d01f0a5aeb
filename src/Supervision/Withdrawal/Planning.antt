-- ===== src/Supervision/Withdrawal/Planning.antt =====
-- impl/aicash/supervision.py: what a withdrawal has found and checked before it stages anything.
use ai_cash.Prelude.{
  ◌<◌, ℕ, ◌+◌, ◌≤◌, ◌≡◌, refl, sym, ◌∙◌, ap, subst, false, Option, none, some, List, ◌==◌,
  Bool-cases, inl, inr, is_some, not,
}
use ai_cash.Prelude.Int.{pos, ◌-ℤ◌}
use ai_cash.Prelude.Text.{Text, Bytes, codes}
use ai_cash.Burn
use ai_cash.Burn.Bounds.{compute_burn_mono}
use ai_cash.Burn.{BurnPolicy, compute_burn}
use ai_cash.Codec.Value.{Value, Values, Fields, get}
use ai_cash.Codec.Key.{Hash, ledger_key}
use ai_cash.Ledger.Exchange.{effective_burn_policy}
use ai_cash.Ledger.State.{Config, done}
use ai_cash.Ledger.Table.{Table, lookup, IsUnique}
use ai_cash.Supervision.{
  or_reject-eq-ok, Unicode, Answer, ok, reject_if, or_internal, or_reject, bad_format,
  account_frozen, withdrawal_disabled, >>=-eq-ok, or_internal-eq-ok, reject_if-eq-ok, ok-injective,
}
use ai_cash.Supervision.Accounts.{find_agent, cap_violation}
use ai_cash.Supervision.Bridge.{non_empty_list, or_faulted}
use ai_cash.Supervision.Custody.{Bridge, Custody}
use ai_cash.Supervision.Moves.Transfer.{find_agent-eq-some}
use ai_cash.Supervision.Selection.{
  withdraw_outputs, read_withdraw_outputs, total_out, hashes_of, custody_forms,
}
use ai_cash.Supervision.Selection.Reading.{wanted-pos}
use ai_cash.Supervision.Selection.Covering.{amount_of, IsDrawn}
use ai_cash.Supervision.Withdrawal.{
  Planned, charge_withdraw, fund_withdraw, change_key, plan_withdraw,
}
use ai_cash.Supervision.Withdrawal.Sound.{Covered}
use ai_cash.Supervision.Withdrawal.Charging.{
  or_faulted-eq-ok, charge_withdraw-Charged, fund_withdraw-Funded,
}

same_text : (a b : Text) → some (Value.str a) ≡ some (Value.str b) → b ≡ a
same_text a b h = cc

-- What a withdrawal that stages its exchange has found and checked. `covered` is of the balance,
-- `pays` and `sums` of the custody. The account is charged the burn of what it asked for, the
-- exchange burns that of what the mint pays, which is no less.
pub record Paid (s : Bridge) (caller : Text) (now : ℕ) (p : Planned) : Type 0 where
  pub covered : Covered s.books caller p
  pub active : p.agent.frozen ≡ false
  pub allowed : p.agent.no_bearer_withdrawal ≡ false
  pub within : cap_violation caller p.agent p.details.gross_mc now s.books.lines ≡ false
  pub sel : Table Custody
  pub hashes : p.details.input_hashes ≡ hashes_of sel
  pub pays : IsDrawn s.custody sel
  pub sums : amount_of sel ≡ p.details.total_out_mc + p.details.ledger_burn_mc + p.change_mc
  pub mint_id : Text
  pub forms : custody_forms mint_id sel ≡ some p.inputs
  pub wants : 0 < p.details.total_out_mc
  pub has_change : is_some p.details.change_hash ≡ not (p.change_mc == 0)
  pub policy : BurnPolicy
  pub charged : compute_burn (pos p.details.total_out_mc) policy ≡ Burn.ok p.details.burn_mc
  pub burned : compute_burn (pos (amount_of sel)) policy ≡ Burn.ok p.details.ledger_burn_mc
  pub covers : p.details.burn_mc ≤ p.details.ledger_burn_mc
  pub absorbs : p.details.absorbed_mc ≡ pos p.details.ledger_burn_mc -ℤ pos p.details.burn_mc

module _ ⦃hash : Hash⦄ ⦃unicode : Unicode⦄ where
  -- The plan is of this request: its outputs are those of the body and the change, under the policy
  -- in force and from the mint's own custody.
  pub record Ordered (cfg : Config) (mint_id caller : Text) (body : Fields) (now : ℕ)
      (secret : Bytes) (s : Bridge) (p : Planned) (paid : Paid s caller now p) : Type 0 where
    pub values : Values
    pub wanted : List (ℕ × Text)
    pub listed : non_empty_list (get (codes "outputs") body) ≡ some values
    pub wanted_read : read_withdraw_outputs values ≡ some wanted
    pub total_is : p.details.total_out_mc ≡ total_out wanted
    pub change_is : change_key p.change_mc secret ≡ ok p.details.change_hash
    pub outputs_are : p.outputs ≡ withdraw_outputs wanted p.change_mc p.details.change_hash
    pub in_force : effective_burn_policy cfg now ≡ done paid.policy
    pub of_mint : paid.mint_id ≡ mint_id

  change_key-is_some :
      (change : ℕ) (secret : Bytes) (ch : Option Text)
      → change_key change secret ≡ ok ch
      → is_some ch ≡ not (change == 0)
  change_key-is_some change secret ch h = elim (Bool-cases (change == 0)) [
    | inl z ↦
        let found : ◌≡◌ {A = Answer (Option Text)} (ok none) (ok ch) = rw z at h in
        rw z (ap is_some (sym (ok-injective found)))
    | inr z ↦
        let (k, _, q) =
          >>=-eq-ok (or_internal (ledger_key (Value.bytes secret))) (λ k. ok (some k))
            (rw z at h) in
        let some_k : some k ≡ ch = ok-injective q in rw z (ap is_some (sym some_k))
  ]

  pub plan_withdraw-Ordered :
      (cfg : Config) (mint_id caller : Text) (body : Fields) (now : ℕ) (secret : Bytes) (s : Bridge)
      (p : Planned)
      → IsUnique s.custody
      → plan_withdraw cfg mint_id caller body now secret s ≡ ok p
      → (paid : Paid s caller now p) × Ordered cfg mint_id caller body now secret s p paid
  unfolding plan_withdraw
  plan_withdraw-Ordered cfg mint_id caller body now secret s p u h =
      let (values, e1, h1) =
        >>=-eq-ok (or_reject (non_empty_list (get (codes "outputs") body)) bad_format) _ h in
      let (wanted, e2, h2) = >>=-eq-ok (or_reject (read_withdraw_outputs values) bad_format) _ h1 in
      let search = find_agent (some (Value.str caller)) s.books.agents in
      let ((own, a), e3, h3) = >>=-eq-ok (or_internal search) _ h2 in
      let (_, e4, h4) = >>=-eq-ok (reject_if a.frozen account_frozen) _ h3 in
      let (_, e5, h5) = >>=-eq-ok (reject_if a.no_bearer_withdrawal withdrawal_disabled) _ h4 in
      let (policy, e6, h6) = >>=-eq-ok (or_faulted (effective_burn_policy cfg now)) _ h5 in
      let (b, e7, h7) =
        >>=-eq-ok (charge_withdraw own a policy (total_out wanted) now s.books.lines) _ h6 in
      let ((sel, lb, change), e8, h8) =
        >>=-eq-ok (fund_withdraw policy (total_out wanted) s.custody) _ h7 in
      let (ch, e9, h9) = >>=-eq-ok (change_key change secret) _ h8 in
      let (forms, e10, h10) = >>=-eq-ok (or_internal (custody_forms mint_id sel)) _ h9 in
      let (named, found) =
        find_agent-eq-some (some (Value.str caller)) s.books.agents own a
          (or_internal-eq-ok search e3) in
      let same = same_text caller own named in
      let c = charge_withdraw-Charged own a policy (total_out wanted) now s.books.lines b e7 in
      let f = fund_withdraw-Funded policy (total_out wanted) s.custody sel lb change u e8 in
      let of_request = λ (q : Planned).
        (paid : Paid s caller now q) × Ordered cfg mint_id caller body now secret s q paid in
      let listed = or_reject-eq-ok (non_empty_list (get (codes "outputs") body)) bad_format e1 in
      let read = or_reject-eq-ok (read_withdraw_outputs values) bad_format e2 in
      subst of_request (ok-injective h10) (
        record {
          covered = record {
            found = ap (λ k. lookup k s.books.agents) (sym same) ∙ found;
            gross = refl;
            funded = c.funded;
          };
          active = reject_if-eq-ok a.frozen account_frozen e4;
          allowed = reject_if-eq-ok a.no_bearer_withdrawal withdrawal_disabled e5;
          within =
              subst (λ k. cap_violation k a (total_out wanted + b) now s.books.lines ≡ false) same
                c.within;
          sel = sel;
          hashes = refl;
          pays = f.pays;
          sums = f.sums;
          mint_id = mint_id;
          forms = or_internal-eq-ok (custody_forms mint_id sel) e10;
          wants = wanted-pos (get (codes "outputs") body) values wanted listed read;
          has_change = change_key-is_some change secret ch e9;
          policy = policy;
          charged = c.burn_is;
          burned = f.burn_is;
          covers =
              compute_burn_mono policy (total_out wanted) (amount_of sel) b lb f.enough c.burn_is
                f.burn_is;
          absorbs = refl;
        },
        record {
          values = values;
          wanted = wanted;
          listed = listed;
          wanted_read = read;
          total_is = refl;
          change_is = e9;
          outputs_are = refl;
          in_force = or_faulted-eq-ok (effective_burn_policy cfg now) policy e6;
          of_mint = refl;
        },
      )

  pub plan_withdraw-Paid :
      (cfg : Config) (mint_id caller : Text) (body : Fields) (now : ℕ) (secret : Bytes) (s : Bridge)
      (p : Planned)
      → IsUnique s.custody
      → plan_withdraw cfg mint_id caller body now secret s ≡ ok p
      → Paid s caller now p
  plan_withdraw-Paid cfg mint_id caller body now secret s p u h =
      (plan_withdraw-Ordered cfg mint_id caller body now secret s p u h).0
