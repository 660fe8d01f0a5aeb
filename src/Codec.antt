-- ===== src/Codec.antt =====
-- impl/aicash/tokencodec.py: the pure encoding layer.
pub mod Value
pub mod Base64
pub mod Key
pub mod Decimal
pub mod TokenText
