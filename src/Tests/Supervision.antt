-- ===== src/Tests/Supervision.antt =====
-- Theorems about custodial accounts and token texts, at concrete inputs.
use ai_cash.Codec.Base64.{symbol, b64u_encode}
use ai_cash.Codec.Decimal.{decimal_from, decimal}
use ai_cash.Supervision.Statement.Checks.{op_statement_never_fails}
use ai_cash.Codec.TokenText.RoundTrip.{parse_token_iff}
use ai_cash.Supervision.Statement.{op_statement}
use ai_cash.Supervision.Moves.Guarantees.{
  agent_transfer-KeepsToCaps, agent_pull-KeepsToCaps, KeepsToCaps,
}
use ai_cash.Supervision.Moves.Bank.{agent_transfer-payment, agent_pull_self, agent_pull-payment}
use ai_cash.Supervision.Moves.Payment.{payment, changed, bank}
use ai_cash.Supervision.Booking.{credits_lifetime, IsSound}
use ai_cash.Codec.TokenText.{
  is_mint_char, all_mint_chars, is_mint_id, parse_token, format_token, TokenParts,
}
use ai_cash.Supervision.Rows.{update_row}
use ai_cash.Ledger.State.{storable_int}
use ai_cash.Ledger.Table.{lookup}
use ai_cash.Supervision.Accounts.{
  give_to, take_from, move_lines, move_agents, sum_lines, debits_lifetime, debits_within,
  cap_violation, leaves_the_operator, find_agent, line,
}
use ai_cash.Supervision.Moves.{
  add_use, pull_guards, auth_guards, find_auth, pull_by, pulled, agent_pull, move, transfer_guards,
  is_self, transfer_between, agent_transfer,
}
use ai_cash.Supervision.{
  pull_out, is_credit, internal, pull_in, ok, is_debit, read_ref, plain_int, positive_int,
  all_plain, plain_text, debit, deposit, credit, Unicode, PullAuth, Books, Agent,
}
use ai_cash.Prelude.{
  ltb, ◌&&◌, leb, ℕ, ◌≤◌, ◌<◌, ◌≡◌, ◌≢◌, ◌↔◌, refl, true, false, none, some, [], ◌∷◌, arith,
}
use ai_cash.Prelude.Int.{pos, ◌+ℤ◌, ◌-ℤ◌}
use ai_cash.Prelude.Text.{Text, IsBytes, codes, text_eq}
use ai_cash.Lock.{as_int}
use ai_cash.Codec.Value.{Value, Fields, get}
use ai_cash.Tests.Sample.{sum_hash, secret_one}

-- The printable ASCII characters.
instance abbrev pub ascii : Unicode
ascii = record { printable = λ c. leb 32 c && ltb c 127 }

abbrev account : ℕ → Text → Agent
account held digest = record {
  operator_id = codes "op";
  name = codes "agent";
  key_sha256 = digest;
  balance_mc = pos held;
  frozen = false;
  no_bearer_withdrawal = true;
  cap_per_hour_mc = some 60;
  cap_per_day_mc = none;
  cap_absolute_mc = none;
  created_at = 1;
}

abbrev grant : Text → PullAuth
grant granting = record {
  granting_agent_id = granting;
  payee_account = codes "a";
  cap_mc_per_day = 50;
  expires_at = 900;
  revoked = false;
  created_at = 2;
}

-- Two accounts; the first had a deposit of a hundred. Both granted pulls to the first.
abbrev pub funded : Books
funded = record {
  operators =
      (codes "op", record { name = codes "o"; key_sha256 = codes "d"; created_at = 0 }) ∷ [];
  agents = (codes "a", account 100 (codes "k1")) ∷ (codes "b", account 100 (codes "k2")) ∷ [];
  lines = line (codes "a") 3 deposit 100 none [] ∷ line (codes "b") 3 deposit 100 none [] ∷ [];
  auths = (codes "own", grant (codes "a")) ∷ (codes "other", grant (codes "b")) ∷ [];
  uses = [];
}

abbrev pub transfer_body : Fields
transfer_body =
    Fields.field (codes "amount_mc") (Value.int (pos 40))
      (Fields.field (codes "to_account") (Value.str (codes "b")) Fields.end)

abbrev after_transfer : Books
after_transfer = record funded {
  agents = (codes "a", account 60 (codes "k1")) ∷ (codes "b", account 140 (codes "k2")) ∷ [];
  lines =
      line (codes "b") 500 credit 40 (some (codes "a")) []
      ∷ line (codes "a") 500 debit 40 (some (codes "b")) []
      ∷ funded.lines;
}

transfer_40 : agent_transfer (codes "a") transfer_body 500 funded ≡ ok (pos 60, after_transfer)
unfolding agent_transfer transfer_between find_agent plain_text all_plain lookup text_eq get
    positive_int plain_int as_int storable_int is_self read_ref transfer_guards leaves_the_operator
    cap_violation debits_within debits_lifetime sum_lines is_debit move move_agents move_lines
    update_row take_from give_to ◌-ℤ◌ ◌+ℤ◌
transfer_40 = refl

agent_transfer-payment_example :
    (amount : ℕ) × (to : Text) × (positive_int (get (codes "amount_mc") transfer_body)
      ≡ some amount)
    × (get (codes "to_account") transfer_body ≡ some (Value.str to))
    × (bank after_transfer (codes "b") ≡ payment (codes "a") to amount (bank funded) (codes "b"))
    × (bank after_transfer (codes "a") ≡ some (pos 60))
agent_transfer-payment_example =
    agent_transfer-payment (codes "a") transfer_body 500 funded (pos 60) after_transfer (codes "b")
      transfer_40

agent_transfer-KeepsToCaps_example :
    (amount : ℕ) × (to : Text) × (sender : Agent) × (target : Agent) × (positive_int
        (get (codes "amount_mc") transfer_body)
      ≡ some amount)
    × (get (codes "to_account") transfer_body ≡ some (Value.str to))
    × (lookup (codes "a") funded.agents ≡ some sender)
    × (lookup to funded.agents ≡ some target)
    × KeepsToCaps (codes "a") sender target amount 500 after_transfer.lines
agent_transfer-KeepsToCaps_example =
    agent_transfer-KeepsToCaps (codes "a") transfer_body 500 funded (pos 60) after_transfer
      transfer_40

abbrev pull_body : Text → Fields
pull_body id =
    Fields.field (codes "amount_mc") (Value.int (pos 30))
      (Fields.field (codes "auth_id") (Value.str id) Fields.end)

abbrev after_pull : Books
after_pull = record funded {
  agents = (codes "a", account 130 (codes "k1")) ∷ (codes "b", account 70 (codes "k2")) ∷ [];
  lines =
      line (codes "a") 500 pull_in 30 (some (codes "b")) []
      ∷ line (codes "b") 500 pull_out 30 (some (codes "a")) []
      ∷ funded.lines;
  uses = record { auth_id = codes "other"; t = 500; amount_mc = 30 } ∷ [];
}

pull_30 : agent_pull (codes "a") (pull_body (codes "other")) 500 funded ≡ ok (pos 130, after_pull)
unfolding agent_pull pull_by find_auth auth_guards pull_guards pulled add_use find_agent plain_text
    all_plain lookup text_eq get positive_int plain_int as_int storable_int read_ref
    leaves_the_operator cap_violation debits_within debits_lifetime sum_lines is_debit move
    move_agents move_lines update_row take_from give_to ◌-ℤ◌ ◌+ℤ◌
pull_30 = refl

agent_pull-payment_example :
    (amount : ℕ) × (auth_id : Text) × (auth : PullAuth) × (positive_int
        (get (codes "amount_mc") (pull_body (codes "other")))
      ≡ some amount)
    × (plain_text (get (codes "auth_id") (pull_body (codes "other"))) ≡ some auth_id)
    × (lookup auth_id funded.auths ≡ some auth)
    × (bank after_pull (codes "b")
        ≡ payment auth.granting_agent_id (codes "a") amount (bank funded) (codes "b"))
    × (some (pos 130) ≡ changed true (λ n. n +ℤ pos amount) (bank funded (codes "a")))
agent_pull-payment_example =
    agent_pull-payment (codes "a") (pull_body (codes "other")) 500 funded (pos 130) after_pull
      (codes "b") pull_30

agent_pull-KeepsToCaps_example :
    (amount : ℕ) × (auth_id : Text) × (auth : PullAuth) × (granter : Agent) × (payee : Agent)
    × (positive_int (get (codes "amount_mc") (pull_body (codes "other"))) ≡ some amount)
    × (plain_text (get (codes "auth_id") (pull_body (codes "other"))) ≡ some auth_id)
    × (lookup auth_id funded.auths ≡ some auth)
    × (auth.payee_account ≡ codes "a")
    × (auth.revoked ≡ false)
    × (500 < auth.expires_at)
    × (pulled auth_id 500 after_pull.uses ≤ auth.cap_mc_per_day)
    × (lookup auth.granting_agent_id funded.agents ≡ some granter)
    × (lookup (codes "a") funded.agents ≡ some payee)
    × KeepsToCaps auth.granting_agent_id granter payee amount 500 after_pull.lines
agent_pull-KeepsToCaps_example =
    agent_pull-KeepsToCaps (codes "a") (pull_body (codes "other")) 500 funded (pos 130) after_pull
      pull_30

abbrev after_own_pull : Books
after_own_pull = record funded {
  lines =
      line (codes "a") 500 pull_in 30 (some (codes "a")) []
      ∷ line (codes "a") 500 pull_out 30 (some (codes "a")) []
      ∷ funded.lines;
  uses = record { auth_id = codes "own"; t = 500; amount_mc = 30 } ∷ [];
}

own_pull_30 :
    agent_pull (codes "a") (pull_body (codes "own")) 500 funded ≡ ok (pos 130, after_own_pull)
unfolding agent_pull pull_by find_auth auth_guards pull_guards pulled add_use find_agent plain_text
    all_plain lookup text_eq get positive_int plain_int as_int storable_int read_ref
    leaves_the_operator cap_violation debits_within debits_lifetime sum_lines is_debit move
    move_agents move_lines update_row take_from give_to ◌-ℤ◌ ◌+ℤ◌
own_pull_30 = refl

own_asked : plain_text (get (codes "auth_id") (pull_body (codes "own"))) ≡ some (codes "own")
unfolding plain_text all_plain get text_eq
own_asked = refl

own_found : lookup (codes "own") funded.auths ≡ some (grant (codes "a"))
unfolding lookup text_eq
own_found = refl

agent_pull_self_example :
    (amount : ℕ) × (positive_int (get (codes "amount_mc") (pull_body (codes "own"))) ≡ some amount)
    × (bank after_own_pull (codes "a") ≡ bank funded (codes "a"))
    × (some (pos 130) ≡ changed true (λ n. n +ℤ pos amount) (bank after_own_pull (codes "a")))
agent_pull_self_example =
    agent_pull_self (codes "a") (codes "own") (grant (codes "a")) (pull_body (codes "own")) 500
      funded (pos 130) after_own_pull (codes "a") own_asked own_found refl own_pull_30

funded-IsSound : IsSound funded
unfolding lookup text_eq debits_lifetime credits_lifetime sum_lines is_debit is_credit
funded-IsSound = record {
  unique = (refl, (refl, tt));
  booked = (refl, (refl, tt));
  solvent = (omega arith, (omega arith, tt));
  owned = (refl, (refl, tt));
}

op_statement_never_fails_example :
    op_statement (codes "op") (some (pos 0)) (some (pos 9)) none funded ≢ internal
op_statement_never_fails_example =
    op_statement_never_fails (codes "op") (some (pos 0)) (some (pos 9)) none funded funded-IsSound

abbrev demo_token : TokenParts
demo_token = record { mint_id = codes "demo-mint"; amount_mc = 1250; secret = secret_one }

abbrev pub demo_text : Text
demo_text = codes "aicash:v3:demo-mint:1250:AQEBAQEBAQEBAQEBAQEBAQEBAQEBAQEBAQEBAQEBAQE"

demo_text-demo_token : format_token (codes "demo-mint") (pos 1250) secret_one ≡ some demo_text
unfolding format_token is_mint_id all_mint_chars is_mint_char decimal decimal_from b64u_encode
    symbol
demo_text-demo_token = refl

parse_token_iff_example : (parse_token demo_text ≡ some demo_token) ↔ (
    IsBytes secret_one × (format_token (codes "demo-mint") (pos 1250) secret_one ≡ some demo_text))
parse_token_iff_example = parse_token_iff demo_text demo_token
