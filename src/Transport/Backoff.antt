-- ===== src/Transport/Backoff.antt =====
-- The backoff of internal/transport/https.go, and what it relies on of float64.
use native.Mathlib.Nat.{one-le-pow, mul-le-mul_left}
use mcp_ironclaw.Prelude.{◌*◌, ℕ, ◌≤◌, ◌<◌, ◌/◌, ◌^◌, ◌≡◌, subst, arith}
use mcp_ironclaw.Go.Int64.{sign_bit}
use mcp_ironclaw.Transport.{min_shift, Delays, delays_of, capped_delay, Floats, backoff}

-- The integers that a float64 holds without rounding.
abbrev pub exact : ℕ
exact = 2 ^ 53

-- The order of the floats, which no float has with one that is not a number: sums and products are
-- monotonic, since rounding is; those with a half, zero and one that are named here are exact; and a
-- conversion to an integer truncates.
pub record IsFloat (f : Floats) : Type 1 where
  pub AtMost : f.Float → f.Float → Type 0
  pub trans : (a b c : f.Float) → AtMost a b → AtMost b c → AtMost a c
  pub plus_mono : (a b : f.Float) → AtMost a b → AtMost (f.plus f.half a) (f.plus f.half b)
  pub times_mono :
      (a b c : f.Float)
      → AtMost (f.of_int 0) a
      → AtMost a (f.of_int exact)
      → AtMost (f.of_int 0) b
      → AtMost b c
      → AtMost c (f.of_int 1)
      → AtMost (f.times a b) (f.times a c)
  pub times_positive :
      (a b : f.Float)
      → AtMost (f.of_int 0) a
      → AtMost a (f.of_int exact)
      → AtMost (f.of_int 0) b
      → AtMost b (f.of_int 1)
      → AtMost (f.of_int 0) (f.times a b)
  pub of_int_mono : (m n : ℕ) → m ≤ n → n ≤ exact → AtMost (f.of_int m) (f.of_int n)
  pub to_int_mono :
      (a b : f.Float)
      → AtMost (f.of_int 0) a
      → AtMost a b
      → AtMost b (f.of_int exact)
      → f.to_int a ≤ f.to_int b
  pub half_positive : AtMost (f.of_int 0) f.half
  pub half_at_most_one : AtMost f.half (f.of_int 1)
  pub plus_zero : f.plus f.half (f.of_int 0) ≡ f.half
  pub plus_half : f.plus f.half f.half ≡ f.of_int 1
  pub times_one :
      (a : f.Float) → AtMost (f.of_int 0) a → AtMost a (f.of_int exact) → f.times a (f.of_int 1) ≡ a
  pub to_int_of : (n : ℕ) → n ≤ exact → f.to_int (f.of_int n) ≡ n
  pub to_int_half : (n : ℕ) → n ≤ exact → f.to_int (f.times (f.of_int n) f.half) ≡ n / 2

capped_delay-bounds :
    (c : Delays) (attempt : ℕ)
    → (delays_of c).max_backoff ≤ exact
    → (0 < capped_delay (delays_of c) attempt)
      × (capped_delay (delays_of c) attempt ≤ (delays_of c).max_backoff)
unfolding capped_delay delays_of
capped_delay-bounds c attempt h = ground arith

base_backoff-positive : (c : Delays) → (0 < (delays_of c).base_backoff)
unfolding delays_of
base_backoff-positive c = ground arith

-- Unless the shift overflows, the capped delay is the shifted one or the longest, whichever is less.
capped_delay-exact :
    (c : Delays) (attempt : ℕ)
    → 0 < c.base_backoff
    → c.max_backoff ≤ exact
    → let shifted = c.base_backoff * 2 ^ min_shift attempt in
      shifted < sign_bit
      → (shifted ≤ c.max_backoff → capped_delay c attempt ≡ shifted)
        × (c.max_backoff < shifted → capped_delay c attempt ≡ c.max_backoff)
unfolding capped_delay
capped_delay-exact c attempt positive h fits =
    let one = one-le-pow (min_shift attempt) 2 (omega arith) in
    let no_less = mul-le-mul_left c.base_backoff one in
    (λ g. ground (arith, no_less), λ g. ground (arith, no_less))

module _ (f : Floats) (laws : IsFloat f) where
  -- The factor of a jitter is between a half and one.
  factor-bounds :
      (jitter : f.Float)
      → laws.AtMost (f.of_int 0) jitter
      → laws.AtMost jitter (f.of_int 1)
      → laws.AtMost f.half (f.plus f.half (f.times f.half jitter))
        × laws.AtMost (f.plus f.half (f.times f.half jitter)) (f.of_int 1)
  factor-bounds jitter low high =
      let scaled = f.times f.half jitter in
      let half_exact =
        laws.trans f.half (f.of_int 1) (f.of_int exact) laws.half_at_most_one
          (laws.of_int_mono 1 exact (omega arith) (omega arith)) in
      let one = laws.of_int_mono 1 1 (omega arith) (omega arith) in
      let bottom =
        laws.plus_mono (f.of_int 0) scaled
          (laws.times_positive f.half jitter laws.half_positive half_exact low high) in
      let top = laws.plus_mono scaled f.half (
        subst (laws.AtMost scaled) (laws.times_one f.half laws.half_positive half_exact) (
          laws.times_mono f.half jitter (f.of_int 1) laws.half_positive half_exact low high one)) in
      (
        subst (λ a. laws.AtMost a (f.plus f.half scaled)) laws.plus_zero bottom,
        subst (laws.AtMost (f.plus f.half scaled)) laws.plus_half top,
      )

  -- A delay that a float holds exactly comes out of the jitter as its half or more, and as no more
  -- than it was.
  jittered-bounds :
      (jitter : f.Float) (delay : ℕ)
      → laws.AtMost (f.of_int 0) jitter
      → laws.AtMost jitter (f.of_int 1)
      → delay ≤ exact
      → let d = f.to_int (f.times (f.of_int delay) (f.plus f.half (f.times f.half jitter))) in
        (delay / 2 ≤ d) × (d ≤ delay)
  jittered-bounds jitter delay low high h =
      let (bottom, top) = factor-bounds jitter low high in
      let factor = f.plus f.half (f.times f.half jitter) in
      let x = f.of_int delay in
      let zero_x = laws.of_int_mono 0 delay (omega arith) h in
      let below = laws.of_int_mono delay exact h (omega arith) in
      let one = laws.of_int_mono 1 1 (omega arith) (omega arith) in
      let positive = laws.trans (f.of_int 0) f.half factor laws.half_positive bottom in
      let halved = laws.times_mono x f.half factor zero_x below laws.half_positive bottom top in
      let whole =
        subst (laws.AtMost (f.times x factor)) (laws.times_one x zero_x below)
          (laws.times_mono x factor (f.of_int 1) zero_x below positive top one) in
      let zero_half =
        laws.times_positive x f.half zero_x below laws.half_positive laws.half_at_most_one in
      let zero_factor =
        laws.trans (f.of_int 0) (f.times x f.half) (f.times x factor) zero_half halved in
      let at_least =
        laws.to_int_mono (f.times x f.half) (f.times x factor) zero_half halved
          (laws.trans (f.times x factor) x (f.of_int exact) whole below) in
      let at_most = laws.to_int_mono (f.times x factor) x zero_factor whole below in
      (
        omega (arith, laws.to_int_half delay h, at_least),
        omega (arith, laws.to_int_of delay h, at_most),
      )

  -- With floats that follow the laws above, for every configuration whose longest backoff is at
  -- most 2^53 nanoseconds, every attempt and every jitter from 0 to 1, the backoff of the
  -- transport that `NewHTTPS` makes is between the half of the capped delay, rounded down, and
  -- the capped delay, which is positive and no longer than the longest backoff, although the
  -- shift may overflow; unless it does, the capped delay is the shifted base or the longest
  -- backoff, whichever is less. So the backoff is never longer than that, and it is positive
  -- unless the capped delay is a single nanosecond.
  pub backoff_bounds :
      (c : Delays) (attempt : ℕ) (jitter : f.Float)
      → (delays_of c).max_backoff ≤ exact
      → laws.AtMost (f.of_int 0) jitter
      → laws.AtMost jitter (f.of_int 1)
      → let delays = delays_of c in
        let shifted = delays.base_backoff * 2 ^ min_shift attempt in
        let capped = capped_delay delays attempt in
        let delay = backoff f delays jitter attempt in
        (0 < capped)
        × (capped ≤ delays.max_backoff)
        × (shifted < sign_bit
            → (shifted ≤ delays.max_backoff → capped ≡ shifted)
              × (delays.max_backoff < shifted → capped ≡ delays.max_backoff))
        × (capped / 2 ≤ delay)
        × (delay ≤ capped)
        × (2 ≤ capped → 0 < delay)
  unfolding backoff
  backoff_bounds c attempt jitter h low high =
      let (positive, capped) = capped_delay-bounds c attempt h in
      let (at_least, at_most) =
        jittered-bounds jitter (capped_delay (delays_of c) attempt) low high (omega arith) in
      let shift = capped_delay-exact (delays_of c) attempt (base_backoff-positive c) h in
      (positive, capped, shift, at_least, at_most, λ two. omega arith)
