-- ===== src/Go/Time.antt =====
-- Go's `time.Time`: the nanoseconds since the zero time, 1 January of year 1 UTC. Locations and
-- monotonic readings are left out, and so are instants before the zero time, where `add` stops.
use mcp_ironclaw.Prelude.{
  ℕ, ◌+◌, ◌-◌, ◌*◌, ◌%◌, ◌^◌, ◌≤◌, ◌<◌, ◌≡◌, Bool, arith, ltb, ◌==◌, if◌then◌else◌,
}
use mcp_ironclaw.Go.Int64.{modulus, is_negative}

-- 1 January 1970 UTC
abbrev pub epoch : ℕ
epoch = 62_135_596_800 * 1_000_000_000

abbrev pub zero_time : ℕ
zero_time = 0

abbrev pub is_zero : ℕ → Bool
is_zero t = t == zero_time

-- t.UnixNano(): the low 64 bits of the distance from 1970.
abbrev pub unix_nano : ℕ → ℕ
unix_nano t = (t + 4 * modulus - epoch) % modulus

-- t.Add(d), for a duration d as an int64
abbrev pub add : ℕ → ℕ → ℕ
add t d = if is_negative d then t + d - modulus else t + d

-- time.Unix(0, n)
abbrev pub unix : ℕ → ℕ
unix n = add epoch n

-- t.After(u)
abbrev pub after : ℕ → ℕ → Bool
after t u = ltb u t

-- A time that an int64 of nanoseconds reaches, so that `UnixNano` is defined.
abbrev pub InRange : ℕ → Type 0
InRange t = (epoch ≤ t + 2 ^ 63) × (t < epoch + 2 ^ 63)

pub unix-unix_nano : (t : ℕ) → InRange t → unix (unix_nano t) ≡ t
unix-unix_nano t h = ground arith
