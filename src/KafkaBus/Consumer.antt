-- ===== src/KafkaBus/Consumer.antt =====
-- The consumer of internal/kafkabus/bus.go.
use mcp_ironclaw.Prelude.{
  ℕ, zero, suc, ◌+◌, ◌&&◌, Option, none, some, List, [], ◌∷◌, ltb, if◌then◌else◌,
}
use mcp_ironclaw.Go.Int64.{is_positive, slt}
use mcp_ironclaw.Go.Text.{Text, codes, is_empty}
use mcp_ironclaw.Domain.Errors.{Error, Result, ok, err, ◌>>◌, reject_if, no_dead_topic}
use mcp_ironclaw.Domain.Event.{Batch}
use mcp_ironclaw.Domain.Key.{AggregateWindow}
use mcp_ironclaw.Domain.Command.{Command}
use mcp_ironclaw.Services.Metrics.{Recorder, record_sample}
use mcp_ironclaw.Wire.{Encoding}
use mcp_ironclaw.Wire.Codec.{Codec}
use mcp_ironclaw.KafkaBus.{
  Config, KafkaRecord, Produce, CommandPayload, decode_command, validate_consumer, metric_consumed,
  metric_retried, metric_dead_letter,
}

abbrev pub dead_letter_reason_header : Text
dead_letter_reason_header = codes "ironclaw-dlq-reason"

abbrev pub dead_letter_origin_header : Text
dead_letter_origin_header = codes "ironclaw-dlq-origin"

-- The attempts that `NewConsumer` settles for.
abbrev pub attempts_of : Config → ℕ
attempts_of c = if is_positive c.max_attempts then c.max_attempts else 1

-- The checks of `NewConsumer`.
unfoldable pub check_consumer : Config → Option Error
check_consumer c =
    validate_consumer c
    >> reject_if (slt 1 (attempts_of c) && is_empty c.dead_letter_topic) no_dead_topic

-- A consumer with the worlds of its handler and of its two clients.
pub record Consumer (S D K : Type 0) : Type 0 where
  pub world : S
  pub dead_client : D
  pub offsets : K
  pub metrics : Recorder

abbrev pub Handle : Type 0 → Type 0
Handle S = KafkaRecord → S → S × Option Error

-- deadLetterHeaders, with the text of the error
unfoldable pub dead_letter_headers :
    (Error → Text) → KafkaRecord → Option Error → List (Text × Text)
dead_letter_headers message r none = (dead_letter_origin_header, r.topic) ∷ []
dead_letter_headers message r (some cause) =
    (dead_letter_origin_header, r.topic) ∷ (dead_letter_reason_header, message cause) ∷ []

abbrev pub dead_record : (Error → Text) → Text → KafkaRecord → Option Error → KafkaRecord
dead_record message topic r cause = record {
  topic = topic;
  key = r.key;
  value = r.value;
  headers = dead_letter_headers message r cause;
}

-- What the consumer is made with: its dead-letter topic and client if there is one, the attempts, and
-- what is told of an error.
pub record Setup (S D : Type 0) : Type 0 where
  pub dead_letter : Option (Produce D)
  pub dead_letter_topic : Text
  pub max_attempts : ℕ
  pub on_error : ℕ → Error → S → S
  pub message : Error → Text

-- NewConsumer: the checks, and what is made of a configuration with a client for the dead letters.
unfoldable pub new_consumer :
    {S D : Type 0} → Produce D → (ℕ → Error → S → S) → (Error → Text) → Config → Result (Setup S D)
new_consumer produce on_error message c = elim (check_consumer c) [
  | some e ↦ err e
  | none ↦ ok (record {
    dead_letter = if is_empty c.dead_letter_topic then none else some produce;
    dead_letter_topic = c.dead_letter_topic;
    max_attempts = attempts_of c;
    on_error = on_error;
    message = message;
  })
]

module _ {S D K : Type 0} (c : Setup S D) where
  abbrev pub record_metric : Text → Consumer S D K → Consumer S D K
  record_metric name s = record s { metrics = record_sample name 1 s.metrics }

  abbrev pub produce_dead :
      Produce D → KafkaRecord → Option Error → Consumer S D K → Consumer S D K × Option Error
  produce_dead produce r cause s =
      let (client, result) =
        produce (dead_record c.message c.dead_letter_topic r cause) s.dead_client in
      let produced = record s { dead_client = client } in
      elim result [
        | some e ↦ (produced, some e)
        | none ↦ (record_metric metric_dead_letter produced, none)
      ]

  unfoldable pub send_to_dead_letter :
      KafkaRecord → Option Error → Consumer S D K → Consumer S D K × Option Error
  send_to_dead_letter r cause s = elim (c.dead_letter) [
    | none ↦ (s, some no_dead_topic)
    | some produce ↦ produce_dead produce r cause s
  ]

  -- After an attempt that failed: onError is told, and the metric of another attempt is counted.
  abbrev pub tried : ℕ → Error → Consumer S D K → Consumer S D K
  tried attempt e s = record s {
    world = c.on_error attempt e s.world;
    metrics =
        if ltb attempt c.max_attempts then record_sample metric_retried 1 s.metrics else s.metrics;
  }

  -- The loop of `deliver`, with the attempts that are left, the number of the next one and the last
  -- error; whether the context is done is read off the world after an attempt that fails.
  unfoldable pub attempt_from :
      Handle S
      → (S → Option Error)
      → KafkaRecord
      → ℕ
      → ℕ
      → Option Error
      → Consumer S D K
      → Consumer S D K × Option Error
  attempt_from handle ctx r zero attempt last s = send_to_dead_letter r last s
  attempt_from handle ctx r (suc left) attempt last s =
      let (world, result) = handle r s.world in
      let handled = record s { world = world } in
      elim result [
        | none ↦ (record_metric metric_consumed handled, none)
        | some e ↦ elim (ctx world) [
          | some x ↦ (handled, some x)
          | none ↦ attempt_from handle ctx r left (attempt + 1) (some e) (tried attempt e handled)
        ]
      ]

  unfoldable pub deliver :
      Handle S → (S → Option Error) → KafkaRecord → Consumer S D K → Consumer S D K × Option Error
  deliver handle ctx r s = attempt_from handle ctx r c.max_attempts 1 none s

  -- The loop of `EachRecord`: the records that were handled, and the failure that ends it.
  unfoldable pub deliver_each :
      Handle S
      → (S → Option Error)
      → List KafkaRecord
      → Consumer S D K
      → Consumer S D K × List KafkaRecord × Option Error
  deliver_each handle ctx [] s = (s, [], none)
  deliver_each handle ctx (r ∷ rs) s =
      let (s', result) = deliver handle ctx r s in
      elim result [
        | some e ↦ (s', [], some e)
        | none ↦
            let (s'', handled, failure) = deliver_each handle ctx rs s' in
            (s'', r ∷ handled, failure)
      ]

-- What `PollFetches` returns.
pub data Fetches : Type 0 where
  client_closed : Fetches
  fetch_errors : Error → Fetches
  fetched : List KafkaRecord → Fetches

-- The error of a context if it has one, or else another.
abbrev pub first_error : Option Error → Error → Error
first_error none e = e
first_error (some x) e = x

-- `CommitRecords`
abbrev pub Commit : Type 0 → Type 0
Commit K = List KafkaRecord → K → K × Option Error

-- How a round of `poll` ends: it returns, or the loop goes on.
pub data PollEnd : Type 0 where
  returned : Option Error → PollEnd
  polling : PollEnd

abbrev pub end_of : Option Error → PollEnd
end_of none = polling
end_of (some e) = returned (some e)

module _ {S D K : Type 0} (c : Setup S D) (commit : Commit K) (handle : Handle S) where
  -- `poll` after the records of a round, with the error that its context has by then.
  unfoldable pub commit_handled :
      Option Error → List KafkaRecord → Option Error → Consumer S D K → Consumer S D K × PollEnd
  commit_handled ctx [] failure s = (s, end_of failure)
  commit_handled ctx (r ∷ rs) failure s =
      let (offsets, result) = commit (r ∷ rs) s.offsets in
      let committed = record s { offsets = offsets } in
      elim result [
        | some e ↦ (committed, returned (some (first_error ctx e)))
        | none ↦ (committed, end_of failure)
      ]

  -- A round of `poll`, with the errors of its context at its start and after the fetch, and those
  -- that deliveries find.
  unfoldable pub poll_round :
      Option Error
      → Option Error
      → (S → Option Error)
      → Fetches
      → Consumer S D K
      → Consumer S D K × PollEnd
  poll_round (some x) after ctx fetches s = (s, returned (some x))
  poll_round none after ctx client_closed s = (s, returned none)
  poll_round none after ctx (fetch_errors e) s = (s, returned (some (first_error after e)))
  poll_round none after ctx (fetched rs) s =
      let (s', handled, failure) = deliver_each c handle ctx rs s in
      commit_handled after handled failure s'

-- The handlers that `Consume`, `ConsumeWindows` and `ConsumeCommands` poll with.
module _ {S : Type 0} where
  unfoldable pub batch_handle : Codec → (Batch → S → S × Option Error) → Handle S
  batch_handle codec handler r s = elim (codec.decode_batch r.value) [
    | err e ↦ (s, some e)
    | ok b ↦ handler b s
  ]

  unfoldable pub window_handle : Codec → (AggregateWindow → S → S × Option Error) → Handle S
  window_handle codec handler r s = elim (codec.decode_window r.value) [
    | err e ↦ (s, some e)
    | ok w ↦ handler w s
  ]

  unfoldable pub command_handle :
      Encoding CommandPayload → (Command → S → S × Option Error) → Handle S
  command_handle l handler r s = elim (decode_command l r.value) [
    | err e ↦ (s, some e)
    | ok cmd ↦ handler cmd s
  ]
