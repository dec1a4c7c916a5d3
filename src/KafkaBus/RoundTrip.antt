-- ===== src/KafkaBus/RoundTrip.antt =====
-- What the consumer of internal/kafkabus hands to its handler is what the producer was given.
use mcp_ironclaw.Prelude.{subst, Option-cases, ℕ, ◌≡◌, refl, inl, inr, Option, none, List, arith}
use mcp_ironclaw.Go.Time
use mcp_ironclaw.Go.Text.{Text}
use mcp_ironclaw.Domain.Errors.{err, Result, Error, ok}
use mcp_ironclaw.Domain.Key.{AggregateWindow, shard_tag}
use mcp_ironclaw.Domain.Command.{Command, validate_command, command_shard_tag}
use mcp_ironclaw.Wire.{Encoding, batch_message, window_message}
use mcp_ironclaw.Wire.Json.{JsonLibrary, json_batch, json_window}
use mcp_ironclaw.Wire.Codec.{ProtobufLibrary, Codec, codec_for}
use mcp_ironclaw.Wire.Formats.{codec_for-batch, codec_for-window}
use mcp_ironclaw.Wire.RoundTrip.{
  IsCarriedBatch, BatchTexts, IsCarriedWindow, WindowTexts, IsFaithful,
}
use mcp_ironclaw.KafkaBus.{
  publish, publish_window, Batch, KafkaRecord, Produce, Producer, CommandPayload, command_payload,
  command_of, decode_command, encode_command, record_of, send, send_encoded, publish_command,
}
use mcp_ironclaw.KafkaBus.Consumer.{batch_handle, window_handle, command_handle}

command_of-command_payload :
    (c : Command) → Time.InRange c.issued_at → command_of (command_payload c) ≡ c
unfolding command_of command_payload
command_of-command_payload c h = ground (arith, Time.unix-unix_nano c.issued_at h)

-- What `command_payload` makes of the texts that the library carries unchanged.
abbrev pub CommandTexts : (Text → Type 0) → Command → Type 0
CommandTexts P c = P c.user_id × P c.device_id × P c.actor

module _ {W : Type 0} (produce : Produce W) (headers : List (Text × Text)) where
  -- The client has taken a record of the producer's topic, which has this key.
  abbrev pub IsProduced : Text → KafkaRecord → Producer W → Producer W → Type 0
  IsProduced key r p p' =
      (r.topic ≡ p.topic)
      × (r.key ≡ key)
      × ((produce r p.client).1 ≡ none)
      × (p'.client ≡ (produce r p.client).0)

  send_lem :
      (key : Text) (payload : List ℕ) (p : Producer W)
      → (send produce headers key payload p).1 ≡ none
      → IsProduced key
          (record_of p.topic headers key payload)
          p
          (send produce headers key payload p).0
  unfolding send
  send_lem key payload p h =
      elim (Option-cases (produce (record_of p.topic headers key payload) p.client).1) [
        | inl e ↦ (refl, refl, e, ground arith)
        | inr (x, e) ↦ absurd (ground arith)
      ]

  send_encoded_lem :
      (key : Text) (payload : Result (List ℕ)) (p : Producer W)
      → (send_encoded produce headers key payload p).1 ≡ none
      → (raw : List ℕ) × (payload ≡ ok raw)
        × IsProduced key
            (record_of p.topic headers key raw)
            p
            (send_encoded produce headers key payload p).0
  send_encoded_lem key (err e) p h = absurd (ground arith)
  send_encoded_lem key (ok raw) p h = (raw, refl, send_lem key raw p h)

  -- When the publication of a command succeeds, the command is valid and the client has taken a record
  -- under the command's shard; a consumer that is delivered this record calls its handler with the
  -- command as it was published. The library must give back what it has taken, the texts must be such as
  -- it carries unchanged, and the time of issue must have nanoseconds in an int64.
  pub publish_command-command_handle :
      {S : Type 0} (P : Text → Type 0) (l : Encoding CommandPayload) (c : Command) (p : Producer W)
      (handler : Command → S → S × Option Error) (w : S)
      → IsFaithful (CommandTexts P) command_payload l
      → CommandTexts P c
      → Time.InRange c.issued_at
      → (publish_command produce headers l c p).1 ≡ none
      → (validate_command c ≡ none)
        × ((r : KafkaRecord) × IsProduced
              (command_shard_tag c)
              r
              p
              (publish_command produce headers l c p).0
            × (command_handle l handler r w ≡ handler c w))
  unfolding publish_command command_handle decode_command
  publish_command-command_handle P l c p handler w faithful t time h =
      elim (Option-cases (validate_command c)) [
        | inl v ↦
            let same_send : publish_command produce headers l c p
                ≡ send_encoded produce headers (command_shard_tag c) (encode_command l c) p =
              ground arith in
            let (raw, encoded, produced) =
              send_encoded_lem (command_shard_tag c) (encode_command l c) p
                (subst (λ x. x.1 ≡ none) same_send h) in
            let back = faithful c raw t encoded in
            let same = command_of-command_payload c time in
            rw same_send (
              v,
              (
                record_of p.topic headers (command_shard_tag c) raw,
                produced,
                ground (arith, back, same),
              ),
            )
        | inr (e, v) ↦ absurd (ground arith)
      ]

  -- So it is with a window, under the codec of any known format.
  pub publish_window-window_handle :
      {S : Type 0} (P : Text → Type 0) (j : JsonLibrary) (l : ProtobufLibrary) (format : Text)
      (c : Codec) (v : AggregateWindow) (p : Producer W)
      (handler : AggregateWindow → S → S × Option Error) (w : S)
      → IsFaithful (WindowTexts P) json_window j.windows
      → IsFaithful (WindowTexts P) window_message l.windows
      → codec_for j l format ≡ ok c
      → IsCarriedWindow v
      → WindowTexts P v
      → (publish_window produce headers c v p).1 ≡ none
      → (r : KafkaRecord) × IsProduced
          (shard_tag v.key)
          r
          p
          (publish_window produce headers c v p).0
        × (window_handle c handler r w ≡ handler v w)
  unfolding window_handle
  publish_window-window_handle P j l format c v p handler w fj fl known time t h =
      let (raw, encoded, produced) = send_encoded_lem (shard_tag v.key) (c.encode_window v) p h in
      let back = codec_for-window P j l format c v raw fj fl known time t encoded in
      (record_of p.topic headers (shard_tag v.key) raw, produced, ground (arith, back))

  pub publish-batch_handle :
      {S : Type 0} (P : Text → Type 0) (j : JsonLibrary) (l : ProtobufLibrary) (format : Text)
      (c : Codec) (key : Text) (b : Batch) (p : Producer W) (handler : Batch → S → S × Option Error)
      (w : S)
      → IsFaithful (BatchTexts P) json_batch j.batches
      → IsFaithful (BatchTexts P) batch_message l.batches
      → codec_for j l format ≡ ok c
      → IsCarriedBatch b
      → BatchTexts P b
      → (publish produce headers c key b p).1 ≡ none
      → (r : KafkaRecord) × IsProduced key r p (publish produce headers c key b p).0
        × (batch_handle c handler r w ≡ handler b w)
  unfolding batch_handle
  publish-batch_handle P j l format c key b p handler w fj fl known time t h =
      let (raw, encoded, produced) = send_encoded_lem key (c.encode_batch b) p h in
      let back = codec_for-batch P j l format c b raw fj fl known time t encoded in
      (record_of p.topic headers key raw, produced, ground (arith, back))
