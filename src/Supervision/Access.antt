-- ===== src/Supervision/Access.antt =====
-- impl/aicash/supervision.py: who a caller is, and which routes that opens. SHA-256 is the interface.
use ai_cash.Prelude.{
  ℕ, ◌+◌, ◌-◌, ◌/◌, ◌%◌, Bool, true, false, ◌&&◌, not, Option, none, some, [], ◌∷◌, ◌++◌, ltb, ◌==◌,
  if◌then◌else◌,
}
use ai_cash.Prelude.Text.{Text, Bytes, text_eq, codes}
use ai_cash.Codec.Key.{Hash}
use ai_cash.Ledger.Table.{Table}
use ai_cash.Supervision.{
  Operator, Agent, Books, Answer, ok, rejected, unauthorized, forbidden, bad_format, ◌>>=◌,
}

pub data Principal : Type 0 where
  operator agent : Text → Principal

-- `hexdigest`
abbrev pub hex_digit : ℕ → ℕ
hex_digit n = if ltb n 10 then b'0' + n else b'a' + (n - 10)

unfoldable pub hex : Bytes → Text
hex [] = []
hex (b ∷ bs) = hex_digit (b / 16) ∷ hex_digit (b % 16) ∷ hex bs

unfoldable pub operator_by_digest : Text → Table Operator → Option Text
operator_by_digest d [] = none
operator_by_digest d ((k, o) ∷ t) =
    if text_eq d o.key_sha256 then some k else operator_by_digest d t

unfoldable pub agent_by_digest : Text → Table Agent → Option Text
agent_by_digest d [] = none
agent_by_digest d ((k, a) ∷ t) = if text_eq d a.key_sha256 then some k else agent_by_digest d t

-- What follows `prefix` in a text that starts with it.
unfoldable pub after_prefix : Text → Text → Option Text
after_prefix [] s = some s
after_prefix (p ∷ ps) [] = none
after_prefix (p ∷ ps) (c ∷ s) = if p == c then after_prefix ps s else none

-- `encode("utf-8")` of code points that are no surrogates: a header is decoded byte by byte, and the
-- mint's own keys are base64url.
abbrev pub utf8_of : ℕ → Bytes
utf8_of c =
    if ltb c 0x80
    then c ∷ []
    else if ltb c 0x800
    then (0xC0 + c / 64) ∷ (0x80 + c % 64) ∷ []
    else if ltb c 0x10000
    then (0xE0 + c / 4096) ∷ (0x80 + c / 64 % 64) ∷ (0x80 + c % 64) ∷ []
    else (0xF0 + c / 262144) ∷ (0x80 + c / 4096 % 64) ∷ (0x80 + c / 64 % 64) ∷ (0x80 + c % 64) ∷ []

unfoldable pub utf8 : Text → Bytes
utf8 [] = []
utf8 (c ∷ s) = utf8_of c ++ utf8 s

module _ ⦃hash : Hash⦄ where
  -- `_key_digest`
  unfoldable pub key_digest : Text → Text
  key_digest key = hex (hash.sha256 (utf8 key))

  unfoldable pub principal_of : Text → Books → Option Principal
  principal_of digest b = elim (operator_by_digest digest b.operators) [
    | some id ↦ some (operator id)
    | none ↦ elim (agent_by_digest digest b.agents) [ some id ↦ some (agent id) | none ↦ none ]
  ]

  -- `_principal`; a header that is absent is `none`.
  unfoldable pub principal : Option Text → Books → Option Principal
  principal none b = none
  principal (some header) b = elim (after_prefix (codes "Bearer ") header) [
    | none ↦ none
    | some key ↦ principal_of (key_digest key) b
  ]

-- The registration credential: a secret, or one of the two named states.
pub data Credential : Type 0 where
  registration_open registration_disabled : Credential
  secret : Text → Credential

abbrev pub or_empty : Option Text → Text
or_empty none = []
or_empty (some s) = s

-- `compare_digest` of the two in UTF-8, which is one to one on texts without surrogates.
unfoldable pub registration_authorized : Credential → Option Text → Bool
registration_authorized registration_open presented = true
registration_authorized registration_disabled presented = false
registration_authorized (secret s) presented = text_eq s (or_empty presented)

-- The role that `_ROUTES` asks for.
pub data Role : Type 0 where
  register operator_role agent_role either : Role

-- `X-Registration-Token`, or else `X-Admin-Token`
abbrev pub presented_token : Option Text → Option Text → Option Text
presented_token none admin = admin
presented_token (some token) admin = some token

unfoldable pub admit :
    Role → Credential → Option Text → Option Principal → Answer (Option Principal)
admit register credential presented p =
    if registration_authorized credential presented then ok p else unauthorized
admit role credential presented none = unauthorized
admit operator_role credential presented (some (agent id)) = forbidden
admit agent_role credential presented (some (operator id)) = forbidden
admit role credential presented (some p) = ok (some p)

module _ ⦃hash : Hash⦄ where
  -- `dispatch` up to the route: who the caller is, then whether the body of a POST is a JSON object.
  unfoldable pub dispatch_guard :
      Role
      → Bool
      → Bool
      → Credential
      → Option Text
      → Option Text
      → Option Text
      → Books
      → Answer (Option Principal)
  dispatch_guard role is_post body_is_dict credential auth registration admin b =
      admit role credential (presented_token registration admin) (principal auth b) >>= λ p.
      if is_post && not body_is_dict then rejected bad_format else ok p
