-- ===== src/Bus/Delivery.antt =====
-- What internal/bus/bus.go makes of a value that a consumer has taken: `deliver`.
use mcp_ironclaw.Prelude.{
  ℕ, zero, suc, ◌+◌, ◌-◌, ◌≤◌, ◌<◌, ◌%◌, ◌≡◌, refl, inl, inr, List, [], ◌∷◌, ◌++◌, arith,
  Option-cases,
}
use mcp_ironclaw.Go.Int64.{add64, modulus}
use mcp_ironclaw.Bus.{
  count_retry, Stats, Bus, Consumer, deliver, deliver_from, bury, count_delivered, count_retried,
  count_abandoned,
}

-- What a delivery leaves as it was.
pub record IsKept {T : Type 0} (b b' : Bus T) : Type 0 where
  pub config : b'.config ≡ b.config
  pub partitions : b'.partitions ≡ b.partitions
  pub claimed : b'.claimed ≡ b.claimed
  pub inflight : b'.inflight ≡ b.inflight
  pub closed : b'.closed ≡ b.closed
  pub shutdown : b'.shutdown ≡ b.shutdown
  pub published : b'.stats.published ≡ b.stats.published

-- How a delivery can end.
pub data Outcome {T : Type 0} (v : T) (b b' : Bus T) : Type 0 where
  delivered :
      b'.stats.delivered ≡ add64 b.stats.delivered 1
      → b'.stats.dead ≡ b.stats.dead
      → b'.stats.abandoned ≡ b.stats.abandoned
      → b'.dead_letter ≡ b.dead_letter
      → Outcome v b b'
  dead :
      b'.stats.delivered ≡ b.stats.delivered
      → b'.stats.dead ≡ add64 b.stats.dead 1
      → b'.stats.abandoned ≡ b.stats.abandoned
      → b'.dead_letter ≡ b.dead_letter ++ v ∷ []
      → Outcome v b b'
  abandoned :
      b'.stats.delivered ≡ b.stats.delivered
      → b'.stats.dead ≡ b.stats.dead
      → b'.stats.abandoned ≡ add64 b.stats.abandoned 1
      → b'.dead_letter ≡ b.dead_letter
      → Outcome v b b'

IsKept-stats :
    {T : Type 0} (b : Bus T) (s : Stats) (d : List T)
    → s.published ≡ b.stats.published
    → IsKept b (record b { stats = s; dead_letter = d })
IsKept-stats b s d h = record {
  config = refl;
  partitions = refl;
  claimed = refl;
  inflight = refl;
  closed = refl;
  shutdown = refl;
  published = h;
}

-- The count of a retry is no part of what is kept, or of the outcome.
IsKept-retried : {T : Type 0} (b b' : Bus T) → IsKept (count_retried b) b' → IsKept b b'
IsKept-retried b b' k = record {
  config = k.config;
  partitions = k.partitions;
  claimed = k.claimed;
  inflight = k.inflight;
  closed = k.closed;
  shutdown = k.shutdown;
  published = k.published;
}

Outcome-retried :
    {T : Type 0} (v : T) (b b' : Bus T) → Outcome v (count_retried b) b' → Outcome v b b'
Outcome-retried v b b' (Outcome.delivered p q r s) = Outcome.delivered p q r s
Outcome-retried v b b' (Outcome.dead p q r s) = Outcome.dead p q r s
Outcome-retried v b b' (Outcome.abandoned p q r s) = Outcome.abandoned p q r s

module _ {T W : Type 0} (c : Consumer T W) where
  -- So many calls of the handler with a value, one after the other.
  pub data Calls (v : T) : ℕ → W → W → Type 0 where
    no_call : {x : W} → Calls v 0 x x
    call : {n : ℕ} {x x' : W} → Calls v n (c.handler v x).0 x' → Calls v (n + 1) x x'

  -- A delivery of so many attempts.
  pub record IsDelivery (v : T) (attempts : ℕ) (b b' : Bus T) (x x' : W) : Type 0 where
    pub calls : Calls v attempts x x'
    pub kept : IsKept b b'
    pub outcome : Outcome v b b'
    pub retries : b'.stats.retried ≡ (b.stats.retried + (attempts - 1)) % modulus

  one_attempt :
      (v : T) (b b' : Bus T) (x : W)
      → IsKept b b'
      → Outcome v b b'
      → b.stats.retried < modulus
      → b'.stats.retried ≡ b.stats.retried
      → (n : ℕ) → (k : ℕ) × (k ≤ suc n) × (1 ≤ k) × IsDelivery v k b b' x (c.handler v x).0
  one_attempt v b b' x p o h r n = (
    1,
    omega arith,
    omega arith,
    record { calls = Calls.call Calls.no_call; kept = p; outcome = o; retries = omega (arith, r) },
  )

  another_attempt :
      (v : T) (b b' : Bus T) (x x'' : W) (n k : ℕ)
      → k ≤ suc n
      → 1 ≤ k
      → IsDelivery v k (count_retried b) b' (c.handler v x).0 x''
      → (k : ℕ) × (k ≤ suc (suc n)) × (1 ≤ k) × IsDelivery v k b b' x x''
  another_attempt v b b' x x'' n k h g d = (
    k + 1,
    omega arith,
    omega arith,
    record {
      calls = Calls.call d.calls;
      kept = IsKept-retried b b' d.kept;
      outcome = Outcome-retried v b b' d.outcome;
      retries = omega (arith, d.retries);
    },
  )

  -- A delivery of at least one and at most so many attempts.
  abbrev EndsWithin : ℕ → T → Bus T → W → Bus T × W → Type 0
  EndsWithin n v b x r = (k : ℕ) × (k ≤ n) × (1 ≤ k) × IsDelivery v k b r.0 x r.1

  -- One round of the loop, given how it ends when the handler fails and the context is not done.
  round_lem :
      (n : ℕ) (v : T) (b : Bus T) (x : W)
      → b.stats.retried < modulus
      → EndsWithin (suc n) v b x (deliver_from c n v (count_retry n b) (c.handler v x).0)
      → EndsWithin (suc n) v b x (deliver_from c (suc n) v b x)
  unfolding deliver_from
  round_lem n v b x h next = elim (Option-cases (c.handler v x).1) [
    | inl e ↦
        rw (e, deliver_from)
          (one_attempt v b (count_delivered b) x
            (IsKept-stats b (count_delivered b).stats b.dead_letter refl)
            (Outcome.delivered refl refl refl refl) h refl n)
    | inr (y, e) ↦ elim (Option-cases (c.context (c.handler v x).0)) [
      | inr (z, f) ↦
          rw (e, deliver_from, f)
            (one_attempt v b (count_abandoned b) x
              (IsKept-stats b (count_abandoned b).stats b.dead_letter refl)
              (Outcome.abandoned refl refl refl refl) h refl n)
      | inl f ↦ rw (e, deliver_from, f) next
    ]
  ]

  deliver_from_lem :
      (n : ℕ) (v : T) (b : Bus T) (x : W)
      → b.stats.retried < modulus
      → EndsWithin (suc n) v b x (deliver_from c (suc n) v b x)
  unfolding deliver_from
  deliver_from_lem zero v b x h = round_lem 0 v b x h (
      one_attempt v b (bury v b) x (IsKept-stats b (bury v b).stats (bury v b).dead_letter refl)
        (Outcome.dead refl refl refl refl) h refl 0)
  deliver_from_lem (suc n) v b x h =
      let x' = (c.handler v x).0 in
      let b1 = count_retried b in
      let (k, p, q, d) = deliver_from_lem n v b1 x' (omega arith) in
      round_lem (suc n) v b x h (
        another_attempt v b (deliver_from c (suc n) v b1 x').0 x (deliver_from c (suc n) v b1 x').1
          n k p q d)

  deliver_at :
      (n : ℕ) (v : T) (b : Bus T) (x : W)
      → 1 ≤ n
      → b.stats.retried < modulus
      → EndsWithin n v b x (deliver_from c n v b x)
  deliver_at zero v b x some_attempt h = absurd (omega arith)
  deliver_at (suc n) v b x some_attempt h = deliver_from_lem n v b x h

  -- A value that a consumer has taken is delivered, dead or abandoned, exactly one of the three, and
  -- is a dead letter just when it counts as dead; the handler is called at least once and at most
  -- `MaxAttempts` times, and every call after the first counts as a retry.
  pub deliver_lem :
      (v : T) (b : Bus T) (x : W)
      → 1 ≤ b.config.max_attempts
      → b.stats.retried < modulus
      → let (b', x') = deliver c v b x in
        (k : ℕ) × (k ≤ b.config.max_attempts) × (1 ≤ k) × IsDelivery v k b b' x x'
  unfolding deliver
  deliver_lem v b x some_attempt h = deliver_at b.config.max_attempts v b x some_attempt h
