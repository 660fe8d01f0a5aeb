-- ===== src/Tests/Lock.antt =====
-- Runs of the lock table, and the theorems about it.
use ai_cash.Prelude.{◌≡◌, ◌↔◌, ◌<◌, refl, none, some}
use ai_cash.Prelude.Int.{pos}
use ai_cash.Prelude.Text.{Text, codes}
use ai_cash.Codec.Base64.{b64u_encode}
use ai_cash.Codec.Value.{Value, Fields}
use ai_cash.Lock.{
  b64u_decode_digest, Lock, InputForm, claim, refund, accepted, evaluate, validate_lock,
}
use ai_cash.Lock.Paths.{
  Allowed, IsValidLock, evaluate_iff, claim_before_refund, validate_lock-IsValidLock,
}
use ai_cash.Tests.Sample.{sum_hash, secret_one, secret_two, key_of, spend_one}

abbrev escrow_lock : Lock
escrow_lock = record {
  preimage_hash = key_of secret_one;
  expiry = pos 100;
  refund_hash = key_of secret_two;
}

abbrev claim_form : InputForm
claim_form = record {
  kind = claim;
  token = spend_one.token;
  hash = none;
  witness = some secret_one;
}

abbrev refund_form : InputForm
refund_form = record {
  kind = refund;
  token = none;
  hash = some (key_of secret_one);
  witness = some secret_two;
}

claim_accepted : evaluate (some escrow_lock) claim_form 99 ≡ accepted
unfolding evaluate b64u_encode b64u_decode_digest
claim_accepted = refl

refund_accepted : evaluate (some escrow_lock) refund_form 100 ≡ accepted
unfolding evaluate b64u_encode b64u_decode_digest
refund_accepted = refl

evaluate_iff_example :
    (evaluate (some escrow_lock) claim_form 99 ≡ accepted)
    ↔ Allowed (some escrow_lock) claim_form 99
evaluate_iff_example = evaluate_iff (some escrow_lock) claim_form 99

claim_before_refund_example : 99 < 100
claim_before_refund_example =
    claim_before_refund escrow_lock claim_form refund_form 99 100 refl refl claim_accepted
      refund_accepted

abbrev digest_text : Text
digest_text = codes "AAAAAAAAAAAAAAAAAAAAAAAAAAAAAAAAAAAAAAAAAAA"

abbrev lock_document : Value
lock_document = Value.dict (
    Fields.field (codes "expiry") (Value.int (pos 7)) (
      Fields.field (codes "preimage_hash") (Value.str digest_text)
        (Fields.field (codes "refund_hash") (Value.str digest_text) Fields.end)))

abbrev lock_read : Lock
lock_read = record { preimage_hash = digest_text; expiry = pos 7; refund_hash = digest_text }

lock_reads : validate_lock lock_document ≡ some lock_read
unfolding validate_lock
lock_reads = refl

validate_lock-IsValidLock_example : IsValidLock lock_read
validate_lock-IsValidLock_example = validate_lock-IsValidLock lock_document lock_read lock_reads
