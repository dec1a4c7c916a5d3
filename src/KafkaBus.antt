-- ===== src/KafkaBus.antt =====
-- internal/kafkabus: batches, windows and commands over Kafka (bus.go, codec.go). The client library is
-- a parameter: what it does with a record, with a commit, and what it fetches. A context is the
-- error that it has when it is asked.
pub mod Consumer
pub mod Delivery
pub mod Polling
pub mod RoundTrip
mod Examples
use mcp_ironclaw.Prelude.{
  false, true, ℕ, Bool, not, ◌&&◌, Option, none, some, List, [], ◌∷◌, if◌then◌else◌, ltb,
}
use mcp_ironclaw.Go.Time
use mcp_ironclaw.Go.Int64.{is_positive, slt}
use mcp_ironclaw.Go.Text.{Text, codes, is_empty}
use mcp_ironclaw.Domain.Errors.{
  Error, Result, ok, err, ◌>>◌, reject_if, no_brokers, no_topic, no_group, no_dead_topic,
}
use mcp_ironclaw.Domain.Event.{Batch}
use mcp_ironclaw.Domain.Key.{AggregateWindow, shard_tag}
use mcp_ironclaw.Domain.Command.{Command, validate_command, command_shard_tag}
use mcp_ironclaw.Services.Metrics.{Recorder, record_sample}
use mcp_ironclaw.Wire.{Encoding}
use mcp_ironclaw.Wire.Codec.{Codec}

abbrev pub metric_published : Text
metric_published = codes "kafka_published"

abbrev pub metric_consumed : Text
metric_consumed = codes "kafka_consumed"

abbrev pub metric_retried : Text
metric_retried = codes "kafka_retried"

abbrev pub metric_dead_letter : Text
metric_dead_letter = codes "kafka_dead_letter"

-- The fields of a configuration that the code decides by.
pub record Config : Type 0 where
  pub brokers : List Text
  pub topic : Text
  pub group : Text
  pub dead_letter_topic : Text
  pub max_attempts : ℕ  -- int

abbrev is_none : List Text → Bool
is_none [] = true
is_none (b ∷ bs) = false

unfoldable pub validate_producer : Config → Option Error
validate_producer c =
    reject_if (is_none c.brokers) no_brokers >> reject_if (is_empty c.topic) no_topic

unfoldable pub validate_consumer : Config → Option Error
unfolding validate_producer
validate_consumer c = validate_producer c >> reject_if (is_empty c.group) no_group

-- kgo.Record
pub record KafkaRecord : Type 0 where
  pub topic : Text
  pub key : Text
  pub value : List ℕ
  pub headers : List (Text × Text)

-- `ProduceSync` of a client, and its first error.
abbrev pub Produce : Type 0 → Type 0
Produce W = KafkaRecord → W → W × Option Error

-- A producer with the world of its client.
pub record Producer (W : Type 0) : Type 0 where
  pub client : W
  pub topic : Text
  pub metrics : Recorder

-- commandPayload
pub record CommandPayload : Type 0 where
  pub kind : ℕ  -- uint8
  pub user_id : Text
  pub device_id : Text
  pub actor : Text
  pub issued_at : ℕ  -- int64

unfoldable pub command_payload : Command → CommandPayload
command_payload c = record {
  kind = c.kind;
  user_id = c.user_id;
  device_id = c.device_id;
  actor = c.actor;
  issued_at = Time.unix_nano c.issued_at;
}

unfoldable pub command_of : CommandPayload → Command
command_of p = record {
  kind = p.kind;
  user_id = p.user_id;
  device_id = p.device_id;
  actor = p.actor;
  issued_at = Time.unix p.issued_at;
}

abbrev pub encode_command : Encoding CommandPayload → Command → Result (List ℕ)
encode_command l c = l.marshal (command_payload c)

unfoldable pub decode_command : Encoding CommandPayload → List ℕ → Result Command
decode_command l raw = elim (l.unmarshal raw) [ err e ↦ err e | ok p ↦ ok (command_of p) ]

-- The record that `send` makes, with the headers of the trace.
abbrev pub record_of : Text → List (Text × Text) → Text → List ℕ → KafkaRecord
record_of topic headers key payload = record {
  topic = topic;
  key = key;
  value = payload;
  headers = headers;
}

module _ {W : Type 0} (produce : Produce W) (headers : List (Text × Text)) where
  -- Producer.send
  unfoldable pub send : Text → List ℕ → Producer W → Producer W × Option Error
  send partition_key payload p =
      let (client, result) = produce (record_of p.topic headers partition_key payload) p.client in
      let produced = record p { client = client } in
      elim result [
        | some e ↦ (produced, some e)
        | none ↦ (record produced { metrics = record_sample metric_published 1 p.metrics }, none)
      ]

  -- A payload that was encoded, or the error of its encoding.
  abbrev pub send_encoded : Text → Result (List ℕ) → Producer W → Producer W × Option Error
  send_encoded key (err e) p = (p, some e)
  send_encoded key (ok payload) p = send key payload p

  abbrev pub publish : Codec → Text → Batch → Producer W → Producer W × Option Error
  publish codec partition_key b p = send_encoded partition_key (codec.encode_batch b) p

  abbrev pub publish_window : Codec → AggregateWindow → Producer W → Producer W × Option Error
  publish_window codec w p = send_encoded (shard_tag w.key) (codec.encode_window w) p

  unfoldable pub publish_command :
      Encoding CommandPayload → Command → Producer W → Producer W × Option Error
  publish_command l c p = elim (validate_command c) [
    | some e ↦ (p, some e)
    | none ↦ send_encoded (command_shard_tag c) (encode_command l c) p
  ]
