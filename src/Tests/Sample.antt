-- ===== src/Tests/Sample.antt =====
-- A stand-in for the hash, a ledger with one entry, and a call that spends it.
use ai_cash.Prelude.{ℕ, ◌%◌, refl, false, none, some, [], ◌∷◌, arith, replicate, sum}
use ai_cash.Prelude.Int.{pos}
use ai_cash.Prelude.Text.{Text, Bytes, codes}
use ai_cash.Burn.{BurnPolicy}
use ai_cash.Burn.Bounds.{IsValidPolicy}
use ai_cash.Codec.Base64.{b64u_encode}
use ai_cash.Codec.Key.{Hash}
use ai_cash.Codec.Value.{Value}
use ai_cash.Lock.{InputForm, plain}
use ai_cash.Ledger.Outputs.{OutputArg, no_lock, spec}
use ai_cash.Ledger.Invariant.{IsValidDb, IsValidConfig}
use ai_cash.Ledger.Rows.{unspent_sum}
use ai_cash.Ledger.State.{Db, Config}
use ai_cash.Ledger.Table.{lookup}

abbrev zeros : Bytes
zeros = replicate 31 0

-- The sum of the bytes, in 32 bytes.
instance abbrev pub sum_hash : Hash
sum_hash = record {
  sha256 = λ b. (sum b % 256) ∷ zeros;
  sha256-IsBytes = λ b. omega arith;
  length-sha256 = λ b. refl;
}

abbrev pub secret_one : Bytes
secret_one = replicate 32 1

abbrev pub secret_two : Bytes
secret_two = replicate 32 2

abbrev pub key_of : Bytes → Text
key_of b = b64u_encode (sum_hash.sha256 b)

abbrev pub policy : BurnPolicy
policy = record { rate_ppm = pos 1000; cap_mc = pos 1000; exempt_below_mc = pos 10 }

abbrev pub lower_policy : BurnPolicy
lower_policy = record { rate_ppm = pos 500; cap_mc = pos 1000; exempt_below_mc = pos 10 }

pub policy-IsValidPolicy : IsValidPolicy policy
policy-IsValidPolicy = omega arith

pub lower-IsValidPolicy : IsValidPolicy lower_policy
lower-IsValidPolicy = omega arith

abbrev pub config : Config
config = record {
  burn_policy = policy;
  burn_policy_next = none;
  recovery_window_ms = 1000;
  max_lock_expiry_ms = some 100_000;
}

pub config-IsValidConfig : IsValidConfig config
config-IsValidConfig = record { policy = policy-IsValidPolicy; announced = tt }

abbrev pub one_entry : Db
one_entry = record {
  entries =
      (
        key_of secret_one,
        record {
          amount_mc = 10_000;
          spent = false;
          lock = none;
          created_at = 5;
          spent_at = none;
          claim_witness = none;
        },
      )
      ∷ [];
  cumulative_issued_mc = 10_000;
  cumulative_burned_mc = 0;
  idempotency = [];
}

pub one_entry-IsValidDb : IsValidDb one_entry
unfolding unspent_sum lookup
one_entry-IsValidDb = record {
  unique = (refl, tt);
  rows = (record { positive = omega arith; lock_valid = tt; spent_stamped = refl }, tt);
  balance = refl;
  issued_fits = omega arith;
}

-- The token of the entry, spent with no lock.
abbrev pub spend_one : InputForm
spend_one = record {
  kind = plain;
  token = some (record {
    mint_id = codes "demo-mint";
    amount_mc = Value.int (pos 10_000);
    secret = Value.bytes secret_one;
  });
  hash = none;
  witness = none;
}

-- An output for the holder of the second secret.
abbrev pub pay : ℕ → OutputArg
pay amount = spec (record {
  amount_mc = Value.int (pos amount);
  secret_hash = Value.null;
  secret = Value.bytes secret_two;
  lock = no_lock;
})

abbrev pub request_id : Text
request_id = codes "req-1"

abbrev pub digest_one : Text
digest_one = codes "digest-1"
