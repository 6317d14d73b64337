-- ===== src/Prelude/Clock.antt =====
-- The clocks. `time.monotonic()` and `time.time()` are read as numbers of nanoseconds, the
-- resolution that Python documents for both, and every operation takes the reading as an argument.
use Prim.Native.Nat.{ℕ}

-- One second in ticks of a clock.
abbrev pub second : ℕ
second = 1000000000
