-- ===== src/Agent/Clock.antt =====
-- The instants and durations that internal/agent computes with. A `time.Time` is the number of
-- nanoseconds since Go's zero time, so `IsZero` is a test for 0; a `time.Duration` is a number of
-- nanoseconds. Intervals stay below 2^33 seconds, where Go's int64 product does not wrap.
use radar_node.Base.{ℕ, ◌+◌, ◌*◌, Bool, ◌==◌, ltb}

abbrev pub nanoseconds : ℕ
nanoseconds = 1_000_000_000

-- `time.Duration(s) * time.Second`.
abbrev pub seconds : ℕ → ℕ
seconds s = s * nanoseconds

-- 1970-01-01T00:00:00Z.
abbrev pub unix_epoch : ℕ
unix_epoch = 62_135_596_800 * nanoseconds

-- `time.UnixMilli(ms)`.
abbrev pub unix_milli : ℕ → ℕ
unix_milli ms = unix_epoch + ms * 1_000_000

abbrev pub is_zero : ℕ → Bool
is_zero t = t == 0

-- `t.Before(u)`.
abbrev pub before : ℕ → ℕ → Bool
before t u = ltb t u
