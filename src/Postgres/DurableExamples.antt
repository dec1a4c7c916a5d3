-- ===== src/Postgres/DurableExamples.antt =====
-- The way from the bus to the archive at concrete records: a database that loses a reply, and a record
-- that cannot be decoded.
use mcp_ironclaw.Prelude.{
  ℕ, arith, ◌/◌, ◌*◌, ◌+◌, inr, ◌≡◌, refl, true, Option, none, some, List, [], ◌∷◌, ◌++◌, All,
}
use mcp_ironclaw.Go.Text.{codes}
use mcp_ironclaw.Domain.Errors.{Error, Result, ok, err, foreign}
use mcp_ironclaw.Services.Handlers.{Handler}
use mcp_ironclaw.Wire.Codec.{Codec, ProtobufLibrary, protobuf}
use mcp_ironclaw.KafkaBus.{KafkaRecord, Produce}
use mcp_ironclaw.KafkaBus.Consumer.{Commit, Consumer, Setup, fetched, poll_round}
use mcp_ironclaw.KafkaBus.Polling.{committed}
use mcp_ironclaw.Postgres.{Database, Store}
use mcp_ironclaw.Postgres.Statements.{insert_window}
use mcp_ironclaw.Wire.{WindowMessage, window_message}
use mcp_ironclaw.Go.Time.{epoch}
use mcp_ironclaw.Postgres.Archive.{IsSafe, TakenBy, archive, StoresIn, row_of}
use mcp_ironclaw.Postgres.Durable.{committed-IsSafe}
use mcp_ironclaw.Postgres.Examples.{World, database, statement, reply-ok, first}

-- The codec of protocol buffers, with a library in which every value but the empty one is a window of
-- ten nanoseconds.
abbrev read_window : List ℕ → Result WindowMessage
read_window [] = err (foreign 2)
read_window (b ∷ bs) = ok (window_message (record first { window_end = epoch + 10 }))

abbrev library : ProtobufLibrary
library = record {
  batches = record { marshal = λ m. err (foreign 3); unmarshal = λ raw. err (foreign 3) };
  windows = record { marshal = λ m. ok (1 ∷ []); unmarshal = read_window };
}

abbrev codec : Codec
codec = protobuf library

-- A database that keeps whole microseconds.
abbrev microseconds : ℕ → ℕ
microseconds t = t / 1000 * 1000

abbrev keeping : Database World
keeping = record database {
  insert = λ w x. statement (insert_window (row_of microseconds w) x.0) x.1;
}

keeping-StoresIn : StoresIn keeping (λ x. x.0) microseconds
keeping-StoresIn = record {
  inserted =
      λ w x n e. ground (arith, reply-ok (insert_window (row_of microseconds w) x.0).1 n x.1);
  insert_failed = λ w x e f. inr refl;
}

abbrev letters : Produce (List KafkaRecord)
letters r rs = (r ∷ rs, none)

abbrev archiver : Setup (Handler (Store World)) (List KafkaRecord)
archiver = record {
  dead_letter = some letters;
  dead_letter_topic = codes "dead";
  max_attempts = 2;
  on_error = λ attempt e v. v;
  message = λ e. codes "failed";
}

abbrev running : Handler (Store World) → Option Error
running v = none

abbrev consumer : Consumer (Handler (Store World)) (List KafkaRecord) (List KafkaRecord)
consumer = record {
  world = record { world = record { world = ([], true ∷ []); metrics = none }; metrics = none };
  dead_client = [];
  offsets = [];
  metrics = none;
}

abbrev commit_records : Commit (List KafkaRecord)
commit_records rs k = (k ++ rs, none)

abbrev carrying : List ℕ → KafkaRecord
carrying raw = record { topic = codes "windows"; key = codes "u"; value = raw; headers = [] }

abbrev records : List KafkaRecord
records = carrying (7 ∷ []) ∷ carrying [] ∷ carrying (8 ∷ []) ∷ []

committed-IsSafe_example :
    let s' =
      (poll_round archiver commit_records
        (archive keeping codec)
        none
        none
        running
        (fetched records)
        consumer).0 in
    (handled : List KafkaRecord) × (rest : List KafkaRecord) × (records ≡ handled ++ rest)
    × (s'.offsets ≡ (committed archiver commit_records (archive keeping codec) handled []).0)
    × ((dead : List KafkaRecord) × (x : List KafkaRecord) × TakenBy archiver [] dead x
        × All (IsSafe (λ x. x.0) microseconds codec dead s'.world) handled)
committed-IsSafe_example =
    committed-IsSafe keeping (λ x. x.0) microseconds keeping-StoresIn codec archiver (λ n e v. refl)
      running commit_records none records consumer
