-- ===== src/Metrics/Steps.antt =====
-- The steps of internal/metrics/async.go in every order that the callers, `Close` and the goroutine
-- `drain` may take.
use mcp_ironclaw.Prelude.{ℕ, ◌+◌, ◌≡◌, true, false, List, [], ◌∷◌, ◌++◌}
use mcp_ironclaw.Metrics.{
  Sample, Async, new_async, enter, offer, record_sample, mark_closed, close_done,
}

-- A step that takes in so many samples from callers.
pub data Step : ℕ → Async → Async → Type 0 where
  entering : (v : Sample) (a : Async) → Step 1 a (enter v a)
  offering :
      (v : Sample) (xs ys : List Sample) (a : Async)
      → a.entered ≡ xs ++ v ∷ ys
      → Step 0 a (offer v (record a { entered = xs ++ ys }))
  draining :
      (v : Sample) (vs : List Sample) (a : Async)
      → a.samples ≡ v ∷ vs
      → a.stopped ≡ false
      → Step 0 a (record_sample v vs a)
  closing : (a : Async) → a.closed ≡ false → Step 0 a (mark_closed a)
  signalling : (a : Async) → a.closed ≡ true → Step 0 a (close_done a)
  -- The goroutine returns when it has seen the signal and the buffer is empty.
  stopping : (a : Async) → a.done ≡ true → a.samples ≡ [] → Step 0 a (record a { stopped = true })

-- The states in which so many samples were given to a new recorder.
pub data Reachable : ℕ → Async → Type 0 where
  made : (buffer : ℕ) → Reachable 0 (new_async [] buffer)
  next : (n k : ℕ) (a b : Async) → Reachable n a → Step k a b → Reachable (n + k) b
