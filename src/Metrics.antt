-- ===== src/Metrics.antt =====
-- internal/metrics/async.go: a recorder with a buffer, which a goroutine empties into another recorder.
-- That one is the list of the samples that it was given. A call of `Increment` has two steps, the test
-- of `closed` and the select, between which other calls and `Close` may run.
pub mod Steps
pub mod Balance
mod Examples
use mcp_ironclaw.Prelude.{ℕ, Bool, true, false, List, [], ◌∷◌, ◌++◌, ltb, length, if◌then◌else◌}
use mcp_ironclaw.Go.Int64.{add64, is_positive}
use mcp_ironclaw.Go.Text.{Text}

abbrev pub default_buffer : ℕ
default_buffer = 4096

-- sample
pub record Sample : Type 0 where
  pub name : Text
  pub delta : ℕ  -- int64

pub record Async : Type 0 where
  pub inner : List Sample
  pub samples : List Sample  -- the buffer of the channel
  pub capacity : ℕ
  pub entered : List Sample  -- the calls that have found the recorder open
  pub closed : Bool
  pub done : Bool
  pub stopped : Bool  -- the goroutine has returned
  pub dropped : ℕ  -- int64

-- NewAsync
unfoldable pub new_async : List Sample → ℕ → Async
new_async inner buffer = record {
  inner = inner;
  samples = [];
  capacity = if is_positive buffer then buffer else default_buffer;
  entered = [];
  closed = false;
  done = false;
  stopped = false;
  dropped = 0;
}

abbrev pub drop_sample : Async → Async
drop_sample a = record a { dropped = add64 a.dropped 1 }

-- `Increment` up to its select.
unfoldable pub enter : Sample → Async → Async
enter v a = if a.closed then drop_sample a else record a { entered = v ∷ a.entered }

-- The select of `Increment`, for a call that is no longer among those that have entered.
unfoldable pub offer : Sample → Async → Async
offer v a =
    if ltb (length a.samples) a.capacity
    then record a { samples = a.samples ++ v ∷ [] }
    else drop_sample a

-- What `drain` does with a sample that it has received.
abbrev pub record_sample : Sample → List Sample → Async → Async
record_sample v vs a = record a { samples = vs; inner = a.inner ++ v ∷ [] }

-- The two halves of `Close`, before it waits for the goroutine.
abbrev pub mark_closed : Async → Async
mark_closed a = record a { closed = true }

abbrev pub close_done : Async → Async
close_done a = record a { done = true }
