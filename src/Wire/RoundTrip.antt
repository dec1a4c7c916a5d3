-- ===== src/Wire/RoundTrip.antt =====
-- What comes back from the codecs of internal/wire/codec.go.
use mcp_ironclaw.Prelude.{
  ap, ◌^◌, inr, ◌+◌, ◌⊎◌, inl, ℕ, ◌<◌, ◌≡◌, refl, List, [], ◌∷◌, map, arith, All, ◌⊎◌, inl, inr,
}
use mcp_ironclaw.Go.Time
use mcp_ironclaw.Domain.Errors.{ok}
use mcp_ironclaw.Domain.Event.{Event, Batch}
use mcp_ironclaw.Domain.Key.{AggregateWindow}
use mcp_ironclaw.Wire.{created_at_of, Encoding, Text, batch_message, window_message, event_message}
use mcp_ironclaw.Wire.Json.{
  JsonLibrary, json_event, json_batch, json_window, event_of_json, batch_of_json, window_of_json,
  encode_batch_json, decode_batch_json, encode_window_json, decode_window_json,
}
use mcp_ironclaw.Wire.Codec.{
  ProtobufLibrary, decode_batch, batch_of, event_of, decode_events, window_of, decode_window,
  encode_batch, encode_window,
}

-- What a message can carry: a kind in one byte, and a time that has nanoseconds in an int64.
abbrev pub IsCarried : Event → Type 0
IsCarried e = (e.kind < 256) × Time.InRange e.observed_at

-- The times of creation that come back: the zero time, and those after 1970.
abbrev pub IsCreated : ℕ → Type 0
IsCreated t = (t ≡ Time.zero_time) ⊎ ((Time.epoch < t) × (t < Time.epoch + 2 ^ 63))

pub created_at_of-unix_nano : (t : ℕ) → IsCreated t → created_at_of (Time.unix_nano t) ≡ t
created_at_of-unix_nano t (inl h) = ground arith
created_at_of-unix_nano t (inr h) = ground arith

event_of-event_message : (e : Event) → IsCarried e → event_of (event_message e) ≡ e
unfolding event_of
event_of-event_message e h = ground (arith, Time.unix-unix_nano e.observed_at h.1)

decode_events-map :
    (es : List Event) → All IsCarried es → decode_events (map event_message es) ≡ ok es
unfolding decode_events
decode_events-map [] h = refl
decode_events-map (e ∷ es) h =
    ground (arith, decode_events-map es h.1, event_of-event_message e h.0)

abbrev pub IsCarriedBatch : Batch → Type 0
IsCarriedBatch b = IsCreated b.created_at × All IsCarried b.events

abbrev pub IsCarriedWindow : AggregateWindow → Type 0
IsCarriedWindow w = Time.InRange w.window_start × Time.InRange w.window_end

batch_of-batch_message : (b : Batch) → IsCarriedBatch b → batch_of (batch_message b) b.events ≡ b
unfolding batch_message
batch_of-batch_message b h = ground (arith, created_at_of-unix_nano b.created_at h.0)

window_of-window_message :
    (w : AggregateWindow) → IsCarriedWindow w → window_of (window_message w) ≡ w
unfolding window_of window_message
window_of-window_message w h =
    ground (arith, Time.unix-unix_nano w.window_start h.0, Time.unix-unix_nano w.window_end h.1)

event_of_json-json_event : (e : Event) → IsCarried e → event_of_json (json_event e) ≡ e
unfolding event_of_json
event_of_json-json_event e h = ground (arith, Time.unix-unix_nano e.observed_at h.1)

map-event_of_json :
    (es : List Event) → All IsCarried es → map event_of_json (map json_event es) ≡ es
map-event_of_json [] h = refl
map-event_of_json (e ∷ es) h =
    ground (arith, map-event_of_json es h.1, event_of_json-json_event e h.0)

batch_of_json-json_batch :
    (b : Batch) → IsCarriedBatch b → batch_of_json (json_batch b) b.events ≡ b
unfolding json_batch
batch_of_json-json_batch b h = ground (arith, created_at_of-unix_nano b.created_at h.0)

window_of_json-json_window :
    (w : AggregateWindow) → IsCarriedWindow w → window_of_json (json_window w) ≡ w
unfolding window_of_json json_window
window_of_json-json_window w h =
    ground (arith, Time.unix-unix_nano w.window_start h.0, Time.unix-unix_nano w.window_end h.1)

-- The texts of a message satisfy a predicate.
abbrev pub EventTexts : (Text → Type 0) → Event → Type 0
EventTexts P e = P e.device_id × P e.user_id × P e.pod_id

abbrev pub BatchTexts : (Text → Type 0) → Batch → Type 0
BatchTexts P b = P b.device_id × All (EventTexts P) b.events

abbrev pub WindowTexts : (Text → Type 0) → AggregateWindow → Type 0
WindowTexts P w = P w.device_id × P w.user_id × P w.pod_id

-- What the documentation of the libraries says: they give back the messages that they have taken, as
-- long as the texts are such as they carry unchanged, which is UTF-8.
abbrev pub IsFaithful : {V M : Type 0} → (V → Type 0) → (V → M) → Encoding M → Type 0
IsFaithful {V} {M} IsText message l =
    (v : V) (raw : List ℕ)
    → IsText v
    → l.marshal (message v) ≡ ok raw
    → l.unmarshal raw ≡ ok (message v)

module _ (P : Text → Type 0) (l : ProtobufLibrary) where
  pub protobuf_batch :
      (b : Batch) (raw : List ℕ)
      → IsFaithful (BatchTexts P) batch_message l.batches
      → IsCarriedBatch b
      → BatchTexts P b
      → encode_batch l b ≡ ok raw
      → decode_batch l raw ≡ ok b
  unfolding decode_batch batch_message
  protobuf_batch b raw faithful h t e =
      rw (faithful b raw t e, decode_batch, decode_events-map b.events h.1)
        (ap ok (batch_of-batch_message b h))

  pub protobuf_window :
      (w : AggregateWindow) (raw : List ℕ)
      → IsFaithful (WindowTexts P) window_message l.windows
      → IsCarriedWindow w
      → WindowTexts P w
      → encode_window l w ≡ ok raw
      → decode_window l raw ≡ ok w
  unfolding decode_window window_message
  protobuf_window w raw faithful h t e =
      rw (faithful w raw t e, decode_window) (ap ok (window_of-window_message w h))

module _ (P : Text → Type 0) (l : JsonLibrary) where
  pub json_batch_back :
      (b : Batch) (raw : List ℕ)
      → IsFaithful (BatchTexts P) json_batch l.batches
      → IsCarriedBatch b
      → BatchTexts P b
      → encode_batch_json l b ≡ ok raw
      → decode_batch_json l raw ≡ ok b
  unfolding decode_batch_json json_batch
  json_batch_back b raw faithful h t e =
      rw (faithful b raw t e, decode_batch_json, map-event_of_json b.events h.1)
        (ap ok (batch_of_json-json_batch b h))

  pub json_window_back :
      (w : AggregateWindow) (raw : List ℕ)
      → IsFaithful (WindowTexts P) json_window l.windows
      → IsCarriedWindow w
      → WindowTexts P w
      → encode_window_json l w ≡ ok raw
      → decode_window_json l raw ≡ ok w
  unfolding decode_window_json json_window
  json_window_back w raw faithful h t e =
      rw (faithful w raw t e, decode_window_json) (ap ok (window_of_json-json_window w h))
