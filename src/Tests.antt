-- ===== src/Tests.antt =====
-- Concrete runs, and each theorem that has hypotheses at an input that meets them.
mod Sample
mod Burn
mod Lock
mod Exchange
mod History
mod Payments
mod Supervision
mod Bridge
mod Withdrawal
mod Recovery
mod Midway
