-- ===== src/Transport/Examples.antt =====
-- The theorems on the transport at concrete batches, spools and answers.
use native.Mathlib.Nat.{mul-le-mul_left}
use mcp_ironclaw.Prelude.{
  inr, ℕ, ◌+◌, ◌*◌, ◌/◌, ◌≤◌, ◌<◌, ◌≡◌, refl, ◌⊎◌, true, false, none, some, List, [], ◌∷◌, arith,
}
use mcp_ironclaw.Go.Int64.{sign_bit}
use mcp_ironclaw.Domain.Errors.{is_unacceptable, Error, Result, ok, foreign, unacceptable}
use mcp_ironclaw.Domain.Event.{Batch}
use mcp_ironclaw.Services.Ingestion.{Publisher, Service}
use mcp_ironclaw.HttpIngest.{State, peer_is_authorised_edge}
use mcp_ironclaw.HttpIngest.Examples.{server, batch, batch-IsValidBatch, decode, clock, request}
use mcp_ironclaw.Spool.Examples.{disk, one_entry, one_entry-IsIndexed}
use mcp_ironclaw.Go.Map.{get_or, find, string_eq}
use mcp_ironclaw.Go.Text.{is_empty, text_eq}
use mcp_ironclaw.Spool.{Spool, enqueue, enqueue_in, make_room, store_entry, next_name}
use mcp_ironclaw.Spool.Files.{publish_file, write_file_synced}
use mcp_ironclaw.Spool.Index.{IsIndexed}
use mcp_ironclaw.Spool.Enqueue.{recount}
use mcp_ironclaw.Transport.{
  send_payload, post, error_of, permanently_refused, undelivered, spool_payload, Client, Response,
  Https, Round, Delays, delays_of, Floats, capped_delay, backoff, send, drain_round, drain,
}
use mcp_ironclaw.Transport.Sending.{IsAcknowledged, IsSpooled, send_lem}
use mcp_ironclaw.Spool.{is_unsafe}
use mcp_ironclaw.Spool.Names.{entry_name, pad_int, pad_uint, fixed}
use mcp_ironclaw.Transport.Emptying.{IsEmptied, IsWorking, drain-empties}
use mcp_ironclaw.Transport.Draining.{IsSettled, IsRound, IsRest, drain_round_lem, drain-IsRest}
use mcp_ironclaw.Transport.Backoff.{IsFloat, backoff_bounds}
use mcp_ironclaw.Transport.Edge.{IsOwn, arrived, edge_client, send_to_edge}

-- An edge that answers every payload with the same status.
abbrev answering : ℕ → Client Unit
answering status payload x = (x, Response.answered status)

-- One entry of five bytes, in a budget of a hundred.
abbrev roomy : Spool
roomy = record one_entry { max_bytes = 100 }

roomy-IsIndexed : IsIndexed 12 roomy
roomy-IsIndexed = recount 12 one_entry roomy refl refl refl one_entry-IsIndexed

abbrev transport : Https Unit Unit
transport = record {
  network = tt;
  queue = some roomy;
  disk = tt;
  metrics = some [];
  last_dropped = 0;
}

abbrev encode : Batch → Result (List ℕ)
encode b = ok (7 ∷ 8 ∷ [])

drain_round_lem_example :
    IsRound (answering 200) disk roomy transport (drain_round (answering 200) disk 0 transport).0
drain_round_lem_example =
    drain_round_lem (answering 200) disk 12 0 roomy transport refl roomy-IsIndexed

abbrev two_rounds : List Round
two_rounds =
    record { canceled = false; timer = true } ∷ record { canceled = false; timer = false } ∷ []

drain-IsRest_example :
    IsRest (answering 503) disk 12 roomy (drain (answering 503) disk two_rounds 0 transport)
drain-IsRest_example =
    drain-IsRest (answering 503) disk two_rounds 12 0 roomy transport refl roomy-IsIndexed

abbrev no_delays : Delays
no_delays = record { base_backoff = 0; max_backoff = 0; drain_every = 0 }

-- Numbers in halves, with a product that is rounded down.
abbrev halves : Floats
halves = record {
  Float = ℕ;
  half = 1;
  of_int = λ n. n * 2;
  to_int = λ x. x / 2;
  plus = λ x y. x + y;
  times = λ x y. x * y / 2;
}

abbrev halves-IsFloat : IsFloat halves
halves-IsFloat = record {
  AtMost = λ x y. x ≤ y;
  trans = λ a b c h g. omega arith;
  plus_mono = λ a b h. omega arith;
  times_mono = λ a b c h g k l m. omega (arith, mul-le-mul_left a l);
  times_positive = λ a b h g k l. omega arith;
  of_int_mono = λ m n h g. omega arith;
  to_int_mono = λ a b h g k. omega arith;
  half_positive = omega arith;
  half_at_most_one = omega arith;
  plus_zero = refl;
  plus_half = refl;
  times_one = λ a h g. omega arith;
  to_int_of = λ n h. omega arith;
  to_int_half = λ n h. omega arith;
}

-- After a hundred failures the shift is that of the seventeenth; the jitter is a half.
backoff_bounds_example :
    (0 < capped_delay (delays_of no_delays) 100)
    × (capped_delay (delays_of no_delays) 100 ≤ 30_000_000_000)
    × (16_384_000_000_000 < sign_bit
        → (16_384_000_000_000 ≤ 30_000_000_000
            → capped_delay (delays_of no_delays) 100 ≡ 16_384_000_000_000)
          × (30_000_000_000 < 16_384_000_000_000
              → capped_delay (delays_of no_delays) 100 ≡ 30_000_000_000))
    × (capped_delay (delays_of no_delays) 100 / 2 ≤ backoff halves (delays_of no_delays) 1 100)
    × (backoff halves (delays_of no_delays) 1 100 ≤ capped_delay (delays_of no_delays) 100)
    × (2 ≤ capped_delay (delays_of no_delays) 100 → 0 < backoff halves (delays_of no_delays) 1 100)
unfolding delays_of
backoff_bounds_example =
    backoff_bounds halves halves-IsFloat no_delays 100 1 (omega arith) (omega arith) (omega arith)

sent : (send (answering 503) disk encode batch transport).1 ≡ none
unfolding send send_payload post error_of permanently_refused undelivered is_unacceptable
    spool_payload enqueue enqueue_in make_room store_entry next_name publish_file write_file_synced
sent = refl

-- The edge is overloaded: the payload goes to the spool.
send_lem_example :
    (payload : List ℕ) × (encode batch ≡ ok payload)
    × (IsAcknowledged (answering 503 payload tt).1
        ⊎ IsSpooled
            (answering 503)
            disk
            payload
            (send (answering 503) disk encode batch transport).0)
send_lem_example = send_lem (answering 503) disk encode batch transport sent

-- A bus that cannot be reached.
abbrev publish : Publisher ℕ
publish key b n = (n + 1, some (foreign 1))

abbrev agent : Https (State (Service ℕ)) Unit
agent = record {
  network = record { world = record { world = 0; metrics = none }; metrics = none };
  queue = some one_entry;
  disk = tt;
  metrics = some [];
  last_dropped = 0;
}

own : IsOwn server decode (request (7 ∷ 8 ∷ [])) batch
unfolding peer_is_authorised_edge get_or find text_eq
own = record { peer = refl; device = refl; carried = refl }

send_to_edge_example :
    let (h', sent) =
      send (edge_client publish server decode clock request) disk encode batch agent in
    (◌≡◌ {A = ℕ} h'.network.world.world 1)
    × (h'.queue ≡ agent.queue)
    × (((publish batch.device_id (arrived server clock batch) 0).1 ≡ none) × (sent ≡ none)
        ⊎ (((e : Error) × (some (foreign 1) ≡ some e)) × (sent ≡ some unacceptable)))
send_to_edge_example =
    send_to_edge publish server decode clock disk request encode batch (7 ∷ 8 ∷ []) agent refl own
      batch-IsValidBatch (omega arith)

disk-IsWorking : IsWorking disk
disk-IsWorking = record {
  removes = λ name x. refl;
  regular = λ name x. refl;
  readable = λ name x. ([], refl);
}

refuses : (payload : List ℕ) (x : Unit) → IsSettled (answering 404 payload x).1
unfolding permanently_refused
refuses payload x = inr (404, refl, refl)

-- The edge is back, and refuses the payload for good.
drain-empties_example : IsEmptied (drain (answering 404) disk two_rounds 3 transport)
unfolding is_unsafe entry_name pad_int pad_uint fixed is_empty text_eq
drain-empties_example =
    drain-empties (answering 404) disk disk-IsWorking refuses two_rounds 12 3 roomy transport refl
      roomy-IsIndexed (refl, tt) (refl, (refl, tt)) (omega arith)
