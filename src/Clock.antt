-- ===== src/Clock.antt =====
-- impl/aicash/clock.py, `FakeClock`: a clock that is set and advanced; a reading leaves it as it is.
use ai_cash.Prelude.Int.{ℤ, ◌+ℤ◌}

pub record FakeClock : Type 0 where
  pub now : ℤ

unfoldable pub read : FakeClock → ℤ × FakeClock
read clock = (clock.now, clock)

unfoldable pub advance : FakeClock → ℤ → ℤ × FakeClock
advance clock delta_ms = (clock.now +ℤ delta_ms, record { now = clock.now +ℤ delta_ms })

unfoldable pub set : FakeClock → ℤ → ℤ × FakeClock
set clock now_ms = (now_ms, record { now = now_ms })
