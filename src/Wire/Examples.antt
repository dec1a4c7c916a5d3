-- ===== src/Wire/Examples.antt =====
-- The theorems on the codecs with a library that knows one batch and one window.
use mcp_ironclaw.Prelude.{
  ◌+◌, ◌≡◌, refl, true, false, List, [], ◌∷◌, ◌&&◌, arith, Bool, ◌==◌, if◌then◌else◌,
}
use mcp_ironclaw.Go.Time
use mcp_ironclaw.Go.Text.{is_empty, Text, codes, text_eq, text_eq_iff}
use mcp_ironclaw.Domain.Errors.{ok, err, foreign}
use mcp_ironclaw.Domain.Event.{Event, Batch}
use mcp_ironclaw.Wire.{
  EventMessage, BatchMessage, WindowMessage, Encoding, batch_message, window_message,
}
use mcp_ironclaw.Wire.Json.{JsonLibrary}
use mcp_ironclaw.Wire.Codec.{ProtobufLibrary, protobuf, codec_for, format_protobuf}
use mcp_ironclaw.Wire.RoundTrip.{IsFaithful, BatchTexts}
use mcp_ironclaw.Wire.Formats.{codec_for-batch}
use mcp_ironclaw.Domain.Key.{AggregateWindow}

abbrev event : Event
event = record {
  device_id = codes "d";
  user_id = codes "u";
  process_id = 7;
  pod_id = codes "p";
  kind = 2;
  observed_at = Time.epoch + 5;
  latency_nanos = 3;
  bytes = 9;
  failed = true;
}

abbrev batch : Batch
batch = record { device_id = codes "d"; created_at = Time.epoch + 6; events = event ∷ [] }

abbrev window : AggregateWindow
window = record {
  key = record { user_id = codes "u"; device_id = codes "d"; process_id = 7; pod_id = codes "p" };
  window_id = 1;
  sequence = 2;
  window_start = Time.epoch + 10;
  window_end = Time.epoch + 20;
  count = 3;
  error_count = 1;
  bytes = 27;
  p95_nanos = 4;
  p99_nanos = 5;
  max_nanos = 6;
}

same_bool : Bool → Bool → Bool
same_bool true true = true
same_bool false false = true
same_bool _ _ = false

same_event : EventMessage → EventMessage → Bool
same_event m n =
    text_eq m.device_id n.device_id
    && text_eq m.user_id n.user_id
    && m.process_id == n.process_id
    && text_eq m.pod_id n.pod_id
    && m.kind == n.kind
    && m.observed_at_unix_nanos == n.observed_at_unix_nanos
    && m.latency_nanos == n.latency_nanos
    && m.bytes == n.bytes
    && same_bool m.failed n.failed

same_event→eq : (m n : EventMessage) → same_event m n ≡ true → m ≡ n
unfolding same_event same_bool
same_event→eq m n h = ground (
  arith,
  text_eq_iff m.device_id n.device_id,
  text_eq_iff m.user_id n.user_id,
  text_eq_iff m.pod_id n.pod_id,
)

same_events : List EventMessage → List EventMessage → Bool
same_events [] [] = true
same_events (m ∷ ms) (n ∷ ns) = same_event m n && same_events ms ns
same_events _ _ = false

same_events→eq : (ms ns : List EventMessage) → same_events ms ns ≡ true → ms ≡ ns
unfolding same_events
same_events→eq [] [] h = refl
same_events→eq [] (n ∷ ns) h = cc
same_events→eq (m ∷ ms) [] h = cc
same_events→eq (m ∷ ms) (n ∷ ns) h = ground (arith, same_event→eq m n, same_events→eq ms ns)

same_batch : BatchMessage → BatchMessage → Bool
same_batch m n =
    text_eq m.device_id n.device_id
    && m.created_at_unix_nanos == n.created_at_unix_nanos
    && same_events m.events n.events

same_batch→eq : (m n : BatchMessage) → same_batch m n ≡ true → m ≡ n
unfolding same_batch
same_batch→eq m n h =
    ground (arith, text_eq_iff m.device_id n.device_id, same_events→eq m.events n.events)

same_window : WindowMessage → WindowMessage → Bool
same_window m n =
    text_eq m.user_id n.user_id
    && text_eq m.device_id n.device_id
    && m.process_id == n.process_id
    && text_eq m.pod_id n.pod_id
    && m.window_id == n.window_id
    && m.sequence == n.sequence
    && m.window_start_unix_nanos == n.window_start_unix_nanos
    && m.window_end_unix_nanos == n.window_end_unix_nanos
    && m.count == n.count
    && m.error_count == n.error_count
    && m.bytes == n.bytes
    && m.p95_nanos == n.p95_nanos
    && m.p99_nanos == n.p99_nanos
    && m.max_nanos == n.max_nanos

same_window→eq : (m n : WindowMessage) → same_window m n ≡ true → m ≡ n
unfolding same_window
same_window→eq m n h = ground (
  arith,
  text_eq_iff m.user_id n.user_id,
  text_eq_iff m.device_id n.device_id,
  text_eq_iff m.pod_id n.pod_id,
)

-- A library that knows one message.
abbrev knows : {M : Type 0} → (M → M → Bool) → M → Encoding M
knows same m = record {
  marshal = λ n. if same n m then ok [] else err (foreign 0);
  unmarshal = λ raw. ok m;
}

abbrev json_library : JsonLibrary
json_library = record {
  batches = record { marshal = λ m. err (foreign 0); unmarshal = λ raw. err (foreign 0) };
  windows = record { marshal = λ m. err (foreign 0); unmarshal = λ raw. err (foreign 0) };
}

abbrev library : ProtobufLibrary
library = record {
  batches = knows same_batch (batch_message batch);
  windows = knows same_window (window_message window);
}

abbrev AnyText : Text → Type 0
AnyText s = Unit

batches-IsFaithful : IsFaithful (BatchTexts AnyText) batch_message library.batches
batches-IsFaithful b raw t e = ground (arith, same_batch→eq (batch_message b) (batch_message batch))

codec_for-batch_example : (protobuf library).decode_batch [] ≡ ok batch
unfolding codec_for batch_message same_batch same_events same_event same_bool text_eq is_empty
codec_for-batch_example =
    codec_for-batch AnyText json_library library format_protobuf (protobuf library) batch []
      (λ b raw t e. cc) batches-IsFaithful refl (omega arith) (tt, ((tt, tt, tt), tt)) refl
