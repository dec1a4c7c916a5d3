-- ===== src/Metrics/Balance.antt =====
-- What becomes of a sample that is given to the recorder of internal/metrics/async.go.
use mcp_ironclaw.Prelude.{
  ◌∙◌, subst, ℕ, ◌+◌, ◌≤◌, ◌<◌, ◌≡◌, refl, ap, true, false, [], ◌∷◌, arith, length, length-append,
}
use mcp_ironclaw.Go.Int64.{modulus}
use mcp_ironclaw.Metrics.{Sample, Async, new_async, enter, offer, mark_closed, close_done}
use mcp_ironclaw.Metrics.Steps.{
  Step, entering, offering, draining, closing, signalling, stopping, Reachable, made, next,
}

-- Every sample was recorded, waits, or was counted as dropped; the buffer is within its capacity.
pub record IsAccounted (n : ℕ) (a : Async) : Type 0 where
  pub balance : n ≡ length a.inner + (length a.samples + (length a.entered + a.dropped))
  pub within : length a.samples ≤ a.capacity

Step-IsAccounted :
    (n k : ℕ) (a b : Async) → n + k < modulus → Step k a b → IsAccounted n a → IsAccounted (n + k) b
unfolding enter offer
Step-IsAccounted n _ a _ m (entering v _) h = record {
  balance = ground (arith, h.balance);
  within = ground (arith, h.within);
}
Step-IsAccounted n _ a _ m (offering v xs ys _ e) h =
    let parts = (ap length e ∙ length-append xs (v ∷ ys)) in
    let left = length-append xs ys in
    let more = length-append a.samples (v ∷ []) in
    record {
      balance = ground (arith, h.balance, parts, left, more);
      within = ground (arith, h.within, more);
    }
Step-IsAccounted n _ a _ m (draining v vs _ e s) h = record {
  balance = omega (arith, h.balance, ap length e, length-append a.inner (v ∷ []));
  within = omega (arith, h.within, ap length e);
}
Step-IsAccounted n _ a _ m (closing _ c) h = record {
  balance = omega (arith, h.balance);
  within = h.within;
}
Step-IsAccounted n _ a _ m (signalling _ c) h = record {
  balance = omega (arith, h.balance);
  within = h.within;
}
Step-IsAccounted n _ a _ m (stopping _ d e) h = record {
  balance = omega (arith, h.balance);
  within = h.within;
}

-- In every order of the steps, each sample that was given to the recorder was recorded, waits in the
-- buffer or in a call that has not ended, or was counted as dropped; and the buffer is never longer
-- than its capacity. The count of the dropped samples must not have wrapped around.
pub Reachable-IsAccounted : (n : ℕ) (a : Async) → n < modulus → Reachable n a → IsAccounted n a
unfolding new_async
Reachable-IsAccounted _ _ m (made buffer) = record { balance = refl; within = omega arith }
Reachable-IsAccounted _ _ m (next n k a b r s) =
    Step-IsAccounted n k a b m s (Reachable-IsAccounted n a (omega arith) r)

later : (n : ℕ) (a b : Async) → Reachable n a → Step 0 a b → Reachable n b
later n a b r s = subst (λ m. Reachable m b) (omega arith) (next n 0 a b r s)

-- A call that has found the recorder open, when `Close` has not begun, may lose its sample: there is an
-- order of the steps in which `Close` ends, and the sample then stays in the buffer, neither recorded nor
-- counted as dropped.
pub sample_lost :
    (n : ℕ) (a : Async) (v : Sample)
    → Reachable n a
    → a.closed ≡ false
    → a.samples ≡ []
    → a.entered ≡ v ∷ []
    → 0 < a.capacity
    → (b : Async) × Reachable n b
      × (b.stopped ≡ true)
      × (b.entered ≡ [])
      × (b.samples ≡ v ∷ [])
      × (b.inner ≡ a.inner)
      × (b.dropped ≡ a.dropped)
unfolding offer
sample_lost n a v r c s e p =
    let closed = mark_closed a in
    let signalled = close_done closed in
    let stopped = record signalled { stopped = true } in
    let r1 = later n a closed r (closing a c) in
    let r2 = later n closed signalled r1 (signalling closed refl) in
    let r3 = later n signalled stopped r2 (stopping signalled refl s) in
    let b = offer v (record stopped { entered = [] }) in
    (
      b,
      later n stopped b r3 (offering v [] [] stopped e),
      ground (arith, s, p),
      ground (arith, s, p),
      ground (arith, s, p),
      ground (arith, s, p),
      ground (arith, s, p),
    )
