-- ===== src/Wire/Codec.antt =====
-- The protobuf codec and the choice of a codec, of internal/wire/codec.go.
use mcp_ironclaw.Prelude.{ℕ, List, [], ◌∷◌, if◌then◌else◌, ◌||◌, ltb}
use mcp_ironclaw.Go.Time
use mcp_ironclaw.Go.Text.{Text, codes, text_eq, is_empty}
use mcp_ironclaw.Domain.Errors.{Result, ok, err, kind_out_of_range, unknown_format}
use mcp_ironclaw.Domain.Event.{Event, Batch}
use mcp_ironclaw.Domain.Key.{AggregateWindow}
use mcp_ironclaw.Wire.Json.{
  JsonLibrary, encode_batch_json, decode_batch_json, encode_window_json, decode_window_json,
}
use mcp_ironclaw.Wire.{
  created_at_of, EventMessage, BatchMessage, WindowMessage, Encoding, batch_message, window_message,
}

abbrev pub format_json : Text
format_json = codes "json"

abbrev pub format_protobuf : Text
format_protobuf = codes "protobuf"

-- math.MaxUint8
abbrev pub max_kind : ℕ
max_kind = 255

unfoldable pub event_of : EventMessage → Event
event_of m = record {
  device_id = m.device_id;
  user_id = m.user_id;
  process_id = m.process_id;
  pod_id = m.pod_id;
  kind = m.kind;
  observed_at = Time.unix m.observed_at_unix_nanos;
  latency_nanos = m.latency_nanos;
  bytes = m.bytes;
  failed = m.failed;
}

-- The loop of `Protobuf.DecodeBatch`.
unfoldable pub decode_events : List EventMessage → Result (List Event)
decode_events [] = ok []
decode_events (m ∷ ms) =
    let rest = decode_events ms in
    if ltb max_kind m.kind
    then err kind_out_of_range
    else elim rest [ err e ↦ err e | ok es ↦ ok (event_of m ∷ es) ]

abbrev pub batch_of : BatchMessage → List Event → Batch
batch_of m events = record {
  device_id = m.device_id;
  created_at = created_at_of m.created_at_unix_nanos;
  events = events;
}

unfoldable pub window_of : WindowMessage → AggregateWindow
window_of m = record {
  key = record {
    user_id = m.user_id;
    device_id = m.device_id;
    process_id = m.process_id;
    pod_id = m.pod_id;
  };
  window_id = m.window_id;
  sequence = m.sequence;
  window_start = Time.unix m.window_start_unix_nanos;
  window_end = Time.unix m.window_end_unix_nanos;
  count = m.count;
  error_count = m.error_count;
  bytes = m.bytes;
  p95_nanos = m.p95_nanos;
  p99_nanos = m.p99_nanos;
  max_nanos = m.max_nanos;
}

-- The library of protocol buffers, for the two kinds of messages.
pub record ProtobufLibrary : Type 0 where
  pub batches : Encoding BatchMessage
  pub windows : Encoding WindowMessage

module _ (l : ProtobufLibrary) where
  abbrev pub encode_batch : Batch → Result (List ℕ)
  encode_batch b = l.batches.marshal (batch_message b)

  unfoldable pub decode_batch : List ℕ → Result Batch
  decode_batch raw = elim (l.batches.unmarshal raw) [
    | err e ↦ err e
    | ok m ↦ elim (decode_events m.events) [ err e ↦ err e | ok es ↦ ok (batch_of m es) ]
  ]

  abbrev pub encode_window : AggregateWindow → Result (List ℕ)
  encode_window w = l.windows.marshal (window_message w)

  unfoldable pub decode_window : List ℕ → Result AggregateWindow
  decode_window raw = elim (l.windows.unmarshal raw) [ err e ↦ err e | ok m ↦ ok (window_of m) ]

-- The interface `Codec`.
pub record Codec : Type 0 where
  pub name : Text
  pub encode_batch : Batch → Result (List ℕ)
  pub decode_batch : List ℕ → Result Batch
  pub encode_window : AggregateWindow → Result (List ℕ)
  pub decode_window : List ℕ → Result AggregateWindow

abbrev pub protobuf : ProtobufLibrary → Codec
protobuf l = record {
  name = format_protobuf;
  encode_batch = encode_batch l;
  decode_batch = decode_batch l;
  encode_window = encode_window l;
  decode_window = decode_window l;
}

abbrev pub json : JsonLibrary → Codec
json l = record {
  name = format_json;
  encode_batch = encode_batch_json l;
  decode_batch = decode_batch_json l;
  encode_window = encode_window_json l;
  decode_window = decode_window_json l;
}

-- For
unfoldable pub codec_for : JsonLibrary → ProtobufLibrary → Text → Result Codec
codec_for j p format =
    if text_eq format format_json || is_empty format
    then ok (json j)
    else if text_eq format format_protobuf
    then ok (protobuf p)
    else err unknown_format
