-- ===== src/Aggregate/Aggregator/Examples.antt =====
-- The aggregator at work on concrete events, with a sketch that keeps every value.
use mcp_ironclaw.Prelude.{
  ap, ℕ, ◌+◌, ◌*◌, ◌≡◌, refl, Bool, true, false, List, [], ◌∷◌, arith, if◌then◌else◌, ltb, All,
  select,
}
use mcp_ironclaw.Go.Time.{epoch}
use mcp_ironclaw.Go.Text.{codes, text_eq, text_lt, is_empty}
use mcp_ironclaw.Go.Map.{find, put, remove, string_eq, IsUnique}
use mcp_ironclaw.Domain.Errors.{ok}
use mcp_ironclaw.Domain.Event.{Event, Batch, validate, kind_valid}
use mcp_ironclaw.Domain.Event.Validity.{IsValid}
use mcp_ironclaw.Domain.Key.{AggregateWindow, append, identity}
use mcp_ironclaw.Go.Strconv.{format_int}
use mcp_ironclaw.Aggregate.WindowKey.{WindowKey, window_key_eq, same_key, before}
use mcp_ironclaw.Aggregate.Aggregator.{
  QuantileSketch, Config, Aggregator, window_id, ingest_batch, collect, collect_all, ingest_all,
  ingest_locked, validate_all, key_of, store, observe, open_window, at_ceiling, close_all,
  close_one, close_state, close_with, selected, retained, emitted, move,
}
use mcp_ironclaw.Aggregate.Aggregator.Invariant.{Inv, HasRoom}
use mcp_ironclaw.Aggregate.Aggregator.Preservation.{ingest_batch-Inv}
use mcp_ironclaw.Aggregate.Aggregator.Conservation.{
  collect-conserves, held_events, held_errors, held_bytes,
}
use mcp_ironclaw.Go.Sort.{sort_by}

abbrev pub largest : List ℕ → ℕ
largest [] = 0
largest (x ∷ xs) = if ltb (largest xs) x then x else largest xs

abbrev pub exact : QuantileSketch
exact = record {
  Float = ℕ;
  q95 = 95;
  q99 = 99;
  Sketch = List ℕ;
  new_sketch = ok [];
  add = λ x s. x ∷ s;
  quantile = λ _ s. (s, ok (largest s));
  max = largest;
}

abbrev pub every : WindowKey → Bool
every k = true

abbrev pub config : Config
config = record { window_size = 10_000_000_000; max_open_windows = 0 }

abbrev pub empty : Aggregator (List ℕ)
empty = record { config = config; windows = []; pending = []; sequence = 7; shed = 0 }

abbrev pub event : ℕ → ℕ → Event
event process at = record {
  device_id = codes "d";
  user_id = codes "u";
  process_id = process;
  pod_id = codes "p";
  kind = 1;
  observed_at = epoch + at;
  latency_nanos = 5;
  bytes = 100;
  failed = false;
}

abbrev pub batch : Batch
batch = record {
  device_id = codes "d";
  created_at = epoch;
  events = event 1 3 ∷ event 1 4 ∷ event 2 5 ∷ [];
}

event-IsValid : (process at : ℕ) → IsValid (event process at)
event-IsValid process at = record {
  has_device = λ e. cc;
  has_user = λ e. cc;
  known_kind = omega arith;
  latency = omega arith;
  size = omega arith;
  observed = λ e. omega arith;
}

pub batch-IsValid : All IsValid batch.events
batch-IsValid = (event-IsValid 1 3, (event-IsValid 1 4, (event-IsValid 2 5, tt)))

empty-Inv : Inv empty
unfolding IsUnique
empty-Inv = record { windows_unique = tt; pending_unique = tt; ids = tt; named = tt }

-- Two windows are open: process 1 with two events, process 2 with one.
pub loaded : Aggregator (List ℕ)
unfolding ingest_batch validate_all validate kind_valid is_empty ingest_all ingest_locked key_of
    window_id store observe open_window at_ceiling find put same_key text_eq
loaded = (ingest_batch exact batch empty).0

pub loaded-Inv : Inv loaded
unfolding loaded
loaded-Inv = ingest_batch-Inv exact batch empty empty-Inv

pub loaded-HasRoom : HasRoom loaded
unfolding loaded
loaded-HasRoom = omega arith

collect-conserves_example :
    let b = (collect exact every loaded).0 in
    (held_events exact b ≡ held_events exact loaded)
    × (held_errors exact b ≡ held_errors exact loaded)
    × (held_bytes exact b ≡ held_bytes exact loaded)
collect-conserves_example = collect-conserves exact every loaded loaded-Inv loaded-HasRoom

-- What `CollectAll` returns for the two windows.
abbrev pub window : ℕ → ℕ → ℕ → AggregateWindow
window process sequence count = record {
  key = record {
    user_id = codes "u";
    device_id = codes "d";
    process_id = process;
    pod_id = codes "p";
  };
  window_id = 0;
  sequence = sequence;
  window_start = epoch;
  window_end = epoch + 10_000_000_000;
  count = count;
  error_count = 0;
  bytes = 100 * count;
  p95_nanos = 5;
  p99_nanos = 5;
  max_nanos = 5;
}

abbrev pub two_windows : List AggregateWindow
two_windows = window 1 8 2 ∷ window 2 9 1 ∷ []

-- The aggregator after that collection.
pub drained : Aggregator (List ℕ)
unfolding loaded collect close_all close_one close_state close_with selected retained emitted move
    before sort_by select text_lt identity append format_int remove
drained = (collect exact every loaded).0

collect-two_windows : (collect exact every loaded).1 ≡ ok two_windows
unfolding drained
collect-two_windows = refl

pub collect_all-two_windows : collect_all exact loaded ≡ (drained, ok two_windows)
unfolding drained collect_all
collect_all-two_windows = ap (λ r. (drained, r)) collect-two_windows
