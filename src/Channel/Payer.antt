-- ===== src/Channel/Payer.antt =====
-- impl/aicash/channels.py, `ChannelPayer.draw`: the payer's message for an increment.
use ai_cash.Prelude.{
  ℕ, ◌+◌, ◌-◌, ◌&&◌, Option, none, some, List, [], ◌∷◌, get_elem?, leb, ltb, if◌then◌else◌,
}
use ai_cash.Prelude.Int.{pos}
use ai_cash.Prelude.Text.{Text, Bytes, codes}
use ai_cash.Codec.Base64.{b64u_encode}
use ai_cash.Codec.Value.{Value, Fields}

-- A tranche as the payer keeps it: its place among the increments, and its chain.
pub record PayerTranche : Type 0 where
  pub start : ℕ
  pub count : ℕ
  pub chain : List Bytes

-- `_locate`, and the link at the local index; `none` is an error.
unfoldable pub link_at : List PayerTranche → ℕ → Option Bytes
link_at [] k = none
link_at (t ∷ ts) k =
    let rest = link_at ts k in
    if leb t.start k && ltb k (t.start + t.count) then get_elem? t.chain (k - t.start) else rest

abbrev pub draw_document : Text → ℕ → Bytes → Fields
draw_document channel_id k x = Fields.field (codes "channel_id") (Value.str channel_id) (
    Fields.field (codes "k") (Value.int (pos k))
      (Fields.field (codes "x_k") (Value.str (b64u_encode x)) Fields.end))

abbrev pub message : Text → ℕ → Option Bytes → Option Fields
message channel_id k none = none
message channel_id k (some x) = some (draw_document channel_id k x)

-- `draw` of an opened channel of `increments`, for a plain int.
unfoldable pub draw : Text → ℕ → List PayerTranche → ℕ → Option Fields
draw channel_id increments tranches k =
    if leb 1 k && leb k increments then message channel_id k (link_at tranches k) else none
