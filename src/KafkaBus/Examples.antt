-- ===== src/KafkaBus/Examples.antt =====
-- The theorems on the Kafka bus: a handler that fails once, a dead-letter topic, and a client that keeps
-- the records that it is given.
use mcp_ironclaw.Prelude.{
  ◌⊎◌, ℕ, ◌+◌, ◌==◌, ◌≡◌, refl, true, Option, none, some, List, [], ◌∷◌, arith, Bool, ◌&&◌,
  if◌then◌else◌,
}
use mcp_ironclaw.Go.Time
use mcp_ironclaw.Go.Map.{find}
use mcp_ironclaw.Go.Text.{Text, is_empty, codes, text_eq, text_eq_iff}
use mcp_ironclaw.Domain.Errors.{Error, ok, err, foreign}
use mcp_ironclaw.Domain.Command.{
  command_kind_names, command_valid, Command, validate_command, command_shard_tag,
}
use mcp_ironclaw.Wire.{Encoding}
use mcp_ironclaw.Wire.RoundTrip.{IsFaithful}
use mcp_ironclaw.KafkaBus.{
  send, KafkaRecord, Produce, Producer, CommandPayload, command_payload, publish_command,
}
use mcp_ironclaw.KafkaBus.Consumer.{
  returned, polling, attempt_from, Consumer, Handle, Setup, Commit, deliver, fetched, poll_round,
  command_handle,
}
use mcp_ironclaw.KafkaBus.Delivery.{IsSettled, deliver-IsSettled}
use mcp_ironclaw.KafkaBus.Polling.{committed, IsDelivered, poll_round_lem}
use mcp_ironclaw.KafkaBus.RoundTrip.{CommandTexts, IsProduced, publish_command-command_handle}

-- A client that keeps what it is given.
abbrev keep : Produce (List KafkaRecord)
keep r rs = (r ∷ rs, none)

abbrev setup : Setup ℕ (List KafkaRecord)
setup = record {
  dead_letter = some keep;
  dead_letter_topic = codes "dead";
  max_attempts = 2;
  on_error = λ attempt e n. n;
  message = λ e. codes "failed";
}

abbrev start : Consumer ℕ (List KafkaRecord) (List KafkaRecord)
start = record { world = 0; dead_client = []; offsets = []; metrics = some [] }

abbrev r : KafkaRecord
r = record { topic = codes "t"; key = codes "k"; value = 7 ∷ []; headers = [] }

-- The first call fails, the others do not.
abbrev handle : Handle ℕ
handle r n = (n + 1, if n == 0 then some (foreign 1) else none)

abbrev no_cancel : ℕ → Option Error
no_cancel n = none

abbrev commit_all : Commit (List KafkaRecord)
commit_all rs k = (rs, none)

deliver-IsSettled_example :
    IsSettled setup handle no_cancel r start (deliver setup handle no_cancel r start).0
unfolding deliver attempt_from
deliver-IsSettled_example = deliver-IsSettled setup handle no_cancel r start refl

poll_round_lem_example :
    let (s', end) =
      poll_round setup commit_all handle none none no_cancel (fetched (r ∷ r ∷ [])) start in
    (m : Consumer ℕ (List KafkaRecord) (List KafkaRecord)) × (handled : List KafkaRecord)
    × (failure : Option Error) × IsDelivered setup handle no_cancel
        (r ∷ r ∷ [])
        start
        m
        handled
        failure
    × (s'.offsets ≡ (committed setup commit_all handle handled start.offsets).0)
    × (((end ≡ polling)
          × (handled ≡ r ∷ r ∷ [])
          × ((committed setup commit_all handle handled start.offsets).1 ≡ none))
        ⊎ ((e : Error) × (end ≡ returned (some e))))
poll_round_lem_example = poll_round_lem setup commit_all handle none no_cancel (r ∷ r ∷ []) start

abbrev command : Command
command = record {
  kind = 1;
  user_id = codes "u";
  device_id = codes "d";
  actor = codes "a";
  issued_at = Time.epoch + 5;
}

same_payload : CommandPayload → CommandPayload → Bool
same_payload m n =
    m.kind == n.kind
    && text_eq m.user_id n.user_id
    && text_eq m.device_id n.device_id
    && text_eq m.actor n.actor
    && m.issued_at == n.issued_at

same_payload→eq : (m n : CommandPayload) → same_payload m n ≡ true → m ≡ n
unfolding same_payload
same_payload→eq m n h = ground (
  arith,
  text_eq_iff m.user_id n.user_id,
  text_eq_iff m.device_id n.device_id,
  text_eq_iff m.actor n.actor,
)

-- Every text.
abbrev AnyText : Text → Type 0
AnyText s = Unit

-- A library that knows the payload of the one command.
abbrev commands : Encoding CommandPayload
commands = record {
  marshal = λ n. if same_payload n (command_payload command) then ok (1 ∷ []) else err (foreign 0);
  unmarshal = λ raw. ok (command_payload command);
}

commands-IsFaithful : IsFaithful (CommandTexts AnyText) command_payload commands
commands-IsFaithful c raw t e =
    ground (arith, same_payload→eq (command_payload c) (command_payload command))

abbrev producer : Producer (List KafkaRecord)
producer = record { client = []; topic = codes "t"; metrics = none }

abbrev take_command : Command → ℕ → ℕ × Option Error
take_command c n = (n + c.kind, none)

publish_command-command_handle_example :
    (validate_command command ≡ none)
    × ((r : KafkaRecord) × IsProduced keep []
          (command_shard_tag command)
          r
          producer
          (publish_command keep [] commands command producer).0
        × (command_handle commands take_command r 4 ≡ take_command command 4))
unfolding publish_command validate_command command_valid command_kind_names find send
    command_payload same_payload text_eq is_empty
publish_command-command_handle_example =
    publish_command-command_handle keep [] AnyText commands command producer take_command 4
      commands-IsFaithful (tt, tt, tt) (omega arith) refl
