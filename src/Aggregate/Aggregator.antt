-- ===== src/Aggregate/Aggregator.antt =====
-- internal/aggregate/aggregator.go. A method returns the new aggregator and its result; the mutex is
-- left out, since every method holds it from its first read of the state to its last write.
pub mod Cases
pub mod Invariant
pub mod Preservation
pub mod Measure
pub mod Conservation
pub mod Intake
pub mod TwoPhase
pub mod Ceiling
pub mod Windows
pub mod Examples
use mcp_ironclaw.Prelude.{
  ℕ, ◌+◌, Bool, true, ◌&&◌, Option, none, some, List, [], ◌∷◌, ◌++◌, map, leb, if◌then◌else◌,
  length, select,
}
use mcp_ironclaw.Go.Int64.{add64, mul64, div64, is_positive, slt}
use mcp_ironclaw.Go.Time
use mcp_ironclaw.Go.Text.{Text, text_lt}
use mcp_ironclaw.Go.Map.{Map, find, put, remove, string_eq}
use mcp_ironclaw.Go.Map.Entries.{keys, values}
use mcp_ironclaw.Go.Sort.{sort_by}
use mcp_ironclaw.Domain.Errors.{Error, Result, ok, err, too_many_keys, panic, is_too_many_keys}
use mcp_ironclaw.Domain.Event.{Event, Batch, validate, correlation_key}
use mcp_ironclaw.Domain.Key.{AggregateWindow, identity}
use mcp_ironclaw.Aggregate.WindowKey.{WindowKey, window_key_eq, before}

-- The interface `QuantileSketch`, with the factory of the configuration and the two quantiles that
-- the aggregator asks for. A query may change what the sketch has cached.
pub record QuantileSketch : Type 1 where
  pub Float : Type 0
  pub q95 : Float
  pub q99 : Float
  pub Sketch : Type 0
  pub new_sketch : Result Sketch
  pub add : ℕ → Sketch → Sketch
  pub quantile : Float → Sketch → Sketch × Result ℕ
  pub max : Sketch → ℕ

pub record Config : Type 0 where
  pub window_size : ℕ  -- time.Duration
  pub max_open_windows : ℕ  -- int

pub record WindowState (S : Type 0) : Type 0 where
  pub count : ℕ
  pub error_count : ℕ
  pub bytes : ℕ
  pub sketch : S

pub record Aggregator (S : Type 0) : Type 0 where
  pub config : Config
  pub windows : Map WindowKey (WindowState S)  -- the field `open`
  pub pending : Map Text AggregateWindow
  pub sequence : ℕ
  pub shed : ℕ

-- a.WindowID(at)
pub window_id : Config → ℕ → ℕ
window_id c at = div64 (Time.unix_nano at) c.window_size

pub key_of : Config → Event → WindowKey
key_of c e = record { correlation = correlation_key e; window_id = window_id c e.observed_at }

abbrev pub held_windows : {S : Type 0} → Aggregator S → ℕ
held_windows a = length a.windows + length a.pending

-- The first loop of `IngestBatch`.
pub validate_all : List Event → Option Error
validate_all [] = none
validate_all (e ∷ es) = elim (validate e) [ some x ↦ some x | none ↦ validate_all es ]

module _ (q : QuantileSketch) where
  open q use {Sketch, q95, q99, new_sketch, quantile}

  -- The four updates that `ingestLocked` makes to a window's state.
  pub observe : Event → WindowState Sketch → WindowState Sketch
  observe e s = record {
    count = add64 s.count 1;
    error_count = if e.failed then add64 s.error_count 1 else s.error_count;
    bytes = add64 s.bytes e.bytes;
    sketch = q.add e.latency_nanos s.sketch;
  }

  pub store : WindowKey → Event → Aggregator Sketch → WindowState Sketch → Aggregator Sketch
  store k e a s = record a { windows = put k (observe e s) a.windows }

  pub open_window : WindowKey → Event → Aggregator Sketch → Aggregator Sketch × Option Error
  open_window k e a = elim new_sketch [
    | err x ↦ (a, some x)
    | ok s ↦ (store k e a (record { count = 0; error_count = 0; bytes = 0; sketch = s }), none)
  ]

  pub at_ceiling : Aggregator Sketch → Bool
  at_ceiling a =
      is_positive a.config.max_open_windows && leb a.config.max_open_windows (held_windows a)

  pub ingest_locked : Event → Aggregator Sketch → Aggregator Sketch × Option Error
  ingest_locked e a =
      let k = key_of a.config e in
      elim (find k a.windows) [
        | some s ↦ (store k e a s, none)
        | none ↦
            if at_ceiling a
            then (record a { shed = add64 a.shed 1 }, some too_many_keys)
            else open_window k e a
      ]

  unfoldable pub ingest : Event → Aggregator Sketch → Aggregator Sketch × Option Error
  ingest e a = elim (validate e) [ some x ↦ (a, some x) | none ↦ ingest_locked e a ]

  -- The second loop of `IngestBatch`: an event that is shed does not end it, any other error does.
  pub ingest_all : List Event → Aggregator Sketch → Aggregator Sketch × Option Error
  ingest_all [] a = (a, none)
  ingest_all (e ∷ es) a =
      let (a', failure) = ingest_locked e a in
      elim failure [
        | none ↦ ingest_all es a'
        | some x ↦ let rest = ingest_all es a' in if is_too_many_keys x then rest else (a', some x)
      ]

  pub ingest_batch : Batch → Aggregator Sketch → Aggregator Sketch × Option Error
  ingest_batch b a = elim (validate_all b.events) [
    | some x ↦ (a, some x)
    | none ↦ ingest_all b.events a
  ]

  -- The window that `collect` makes of a state, under the sequence number after the current one.
  pub emitted : WindowKey → Aggregator Sketch → WindowState Sketch → ℕ → ℕ → ℕ → AggregateWindow
  emitted k a s p95 p99 largest = record {
    key = k.correlation;
    window_id = k.window_id;
    sequence = add64 a.sequence 1;
    window_start = start;
    window_end = Time.add start a.config.window_size;
    count = s.count;
    error_count = s.error_count;
    bytes = s.bytes;
    p95_nanos = p95;
    p99_nanos = p99;
    max_nanos = largest;
  }
    where
      start : ℕ
      start = Time.unix (mul64 k.window_id a.config.window_size)

  -- The end of a round: the window moves from `open` to `pending`.
  pub move : WindowKey → Aggregator Sketch → AggregateWindow → Aggregator Sketch
  move k a w = record a {
    sequence = w.sequence;
    windows = remove k a.windows;
    pending = put (identity w) w a.pending;
  }

  -- A query that fails leaves what it has cached in the open window.
  pub cached : WindowKey → Aggregator Sketch → WindowState Sketch → Sketch → Aggregator Sketch
  cached k a s sketch = record a { windows = put k (record s { sketch = sketch }) a.windows }

  pub close_with :
      WindowKey
      → Aggregator Sketch
      → WindowState Sketch
      → ℕ
      → ℕ
      → Sketch
      → Aggregator Sketch × Result AggregateWindow
  close_with k a s p95 p99 sketch =
      let w = emitted k a s p95 p99 (q.max sketch) in (move k a w, ok w)

  -- One round of the last loop of `collect`, for a key that is open.
  pub close_state :
      WindowKey
      → Aggregator Sketch
      → WindowState Sketch
      → Aggregator Sketch × Result AggregateWindow
  close_state k a s =
      let (s1, r95) = quantile q95 s.sketch in
      elim r95 [
        | err x ↦ (cached k a s s1, err x)
        | ok p95 ↦
            let (s2, r99) = quantile q99 s1 in
            elim r99 [ err x ↦ (cached k a s s2, err x) | ok p99 ↦ close_with k a s p95 p99 s2 ]
      ]

  pub close_one : WindowKey → Aggregator Sketch → Aggregator Sketch × Result AggregateWindow
  close_one k a = elim (find k a.windows) [ none ↦ (a, err panic) | some s ↦ close_state k a s ]

  pub close_all :
      List WindowKey
      → List AggregateWindow
      → Aggregator Sketch
      → Aggregator Sketch × Result (List AggregateWindow)
  close_all [] out a = (a, ok out)
  close_all (k ∷ ks) out a =
      let (a', r) = close_one k a in
      elim r [ err x ↦ (a', err x) | ok w ↦ close_all ks (out ++ w ∷ []) a' ]

  pub selected : (WindowKey → Bool) → Aggregator Sketch → List WindowKey
  selected include a = sort_by before (select include (keys a.windows))

  pub retained : Aggregator Sketch → List AggregateWindow
  retained a = sort_by (λ v w. text_lt (identity v) (identity w)) (values a.pending)

  pub collect :
      (WindowKey → Bool) → Aggregator Sketch → Aggregator Sketch × Result (List AggregateWindow)
  collect include a = close_all (selected include a) (retained a) a

  abbrev pub closed_before : ℕ → WindowKey → Bool
  closed_before boundary k = slt k.window_id boundary

  unfoldable pub collect_windows_before :
      ℕ → Aggregator Sketch → Aggregator Sketch × Result (List AggregateWindow)
  collect_windows_before watermark a = collect (closed_before (window_id a.config watermark)) a

  unfoldable pub collect_all : Aggregator Sketch → Aggregator Sketch × Result (List AggregateWindow)
  collect_all a = collect (λ _. true) a

-- The loop of `Commit`.
pub forget : List AggregateWindow → Map Text AggregateWindow → Map Text AggregateWindow
forget [] m = m
forget (w ∷ ws) m = forget ws (remove (identity w) m)

pub commit : {S : Type 0} → List AggregateWindow → Aggregator S → Aggregator S
commit ws a = record a { pending = forget ws a.pending }

module _ (q : QuantileSketch) where
  pub committed :
      Aggregator q.Sketch × Result (List AggregateWindow)
      → Aggregator q.Sketch × Result (List AggregateWindow)
  committed (a, err x) = (a, err x)
  committed (a, ok ws) = (commit ws a, ok ws)

  unfoldable pub close_windows_before :
      ℕ → Aggregator q.Sketch → Aggregator q.Sketch × Result (List AggregateWindow)
  close_windows_before watermark a = committed (collect_windows_before q watermark a)

  unfoldable pub flush : Aggregator q.Sketch → Aggregator q.Sketch × Result (List AggregateWindow)
  flush a = committed (collect_all q a)
