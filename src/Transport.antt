-- ===== src/Transport.antt =====
-- internal/transport/https.go: the agent's way to the edge, with a spool for what it cannot deliver.
-- The HTTP client is a parameter, a function on a world that answers a payload with a status or fails;
-- so are the encoder and the disk of the spool. The waits of `Drain` and the states of its context
-- are a list of rounds.
pub mod Sending
pub mod Draining
pub mod Backoff
pub mod Emptying
pub mod Edge
mod Examples
use mcp_ironclaw.Prelude.{
  [], not, ◌^◌, ◌-◌, ◌∷◌, ℕ, ◌+◌, Bool, true, false, ◌&&◌, ◌||◌, Option, none, some, List, ltb, leb,
  ◌==◌, if◌then◌else◌,
}
use mcp_ironclaw.Go.Int64.{slt, mul64, sub64, is_positive}
use mcp_ironclaw.Go.Text.{Text, codes}
use mcp_ironclaw.Domain.Errors.{
  Error, Result, ok, err, unacceptable, rejected, foreign, is_unacceptable,
}
use mcp_ironclaw.Domain.Event.{Batch}
use mcp_ironclaw.Services.Metrics.{Recorder, record_sample}
use mcp_ironclaw.Spool.{peek, Spool, enqueue, release_entry}
use mcp_ironclaw.Spool.Files.{Disk}

abbrev pub metric_sent : Text
metric_sent = codes "agent_batches_sent"

abbrev pub metric_spooled : Text
metric_spooled = codes "agent_batches_spooled"

abbrev pub metric_drained : Text
metric_drained = codes "agent_batches_drained"

abbrev pub metric_spool_dropped : Text
metric_spool_dropped = codes "agent_spool_dropped"

abbrev pub metric_refused : Text
metric_refused = codes "agent_batches_refused"

abbrev pub metric_release_failed : Text
metric_release_failed = codes "agent_spool_release_failed"

-- What `client.Do` returns: the status of a response, or an error.
pub data Response : Type 0 where
  answered : ℕ → Response
  failed : ℕ → Response

abbrev pub Client : Type 0 → Type 0
Client W = List ℕ → W → W × Response

unfoldable pub permanently_refused : ℕ → Bool
permanently_refused status =
    if ltb status 400 || leb 500 status
    then false
    else if status == 408 || status == 429
    then false
    else true

-- The `switch` of `post`.
unfoldable pub error_of : Response → Option Error
error_of (failed n) = some (foreign n)
error_of (answered status) =
    if leb 200 status && ltb status 300
    then none
    else if permanently_refused status
    then some unacceptable
    else some rejected

unfoldable pub post : {W : Type 0} → Client W → List ℕ → W → W × Option Error
post client payload x = let (x', response) = client payload x in (x', error_of response)

-- The transport, with the worlds of its client and of the disk.
pub record Https (W D : Type 0) : Type 0 where
  pub network : W
  pub queue : Option Spool
  pub disk : D
  pub metrics : Recorder
  pub last_dropped : ℕ  -- int64

abbrev pub record_metric : {W D : Type 0} → Text → ℕ → Https W D → Https W D
record_metric name delta h = record h { metrics = record_sample name delta h.metrics }

-- recordSpoolDrops
unfoldable pub record_spool_drops : {W D : Type 0} → Spool → Https W D → Https W D
record_spool_drops q h =
    let delta = sub64 q.dropped h.last_dropped in
    let seen = record h { last_dropped = q.dropped } in
    if is_positive delta then record_metric metric_spool_dropped delta seen else seen

-- How `Drain` goes on after a round: at once, after a wait for the interval of the drain, or after a
-- wait for the backoff of so many failures.
pub data Next : Type 0 where
  stop : Next
  waiting : Next
  backing_off : ℕ → Next
  going_on : Next

-- What a round of `Drain` meets: whether its context is done when it starts, and whether a wait in it
-- ends by its timer.
pub record Round : Type 0 where
  pub canceled : Bool
  pub timer : Bool

-- What `Drain` does after a round: it goes on with so many failures, or it returns.
unfoldable pub follow : {A : Type 0} → Bool → Next → (ℕ → A) → A → A
follow timer Next.stop go_on ended = ended
follow timer Next.going_on go_on ended = go_on 0
follow timer Next.waiting go_on ended = if timer then go_on 0 else ended
follow timer (Next.backing_off n) go_on ended = if timer then go_on n else ended

module _ {W D : Type 0} (client : Client W) (d : Disk D) where
  -- The end of `Send` for a payload that the edge has not taken and may still take.
  unfoldable pub spool_payload : List ℕ → Spool → Https W D → Https W D × Option Error
  spool_payload payload q h =
      let (state, result) = enqueue d payload (q, h.disk) in
      (
        record_spool_drops state.0
            (record (record_metric metric_spooled 1 h) { queue = some state.0; disk = state.1 }),
        result,
      )

  unfoldable pub undelivered : List ℕ → Error → Https W D → Https W D × Option Error
  undelivered payload e h =
      if is_unacceptable e
      then (record_metric metric_refused 1 h, some e)
      else elim (h.queue) [ none ↦ (h, some e) | some q ↦ spool_payload payload q h ]

  unfoldable pub send_payload : List ℕ → Https W D → Https W D × Option Error
  send_payload payload h =
      let (network, failure) = post client payload h.network in
      let posted = record h { network = network } in
      elim failure [
        | none ↦ (record_metric metric_sent 1 posted, none)
        | some e ↦ undelivered payload e posted
      ]

  -- Send, with the encoder.
  unfoldable pub send : (Batch → Result (List ℕ)) → Batch → Https W D → Https W D × Option Error
  send encode b h = elim (encode b) [ err e ↦ (h, some e) | ok payload ↦ send_payload payload h ]

  -- release
  unfoldable pub release : Text → Spool → Https W D → Https W D
  release name q h =
      let (state, failure) = release_entry d name (q, h.disk) in
      let released = record h { queue = some state.0; disk = state.1 } in
      elim failure [ none ↦ released | some e ↦ record_metric metric_release_failed 1 released ]

  -- `Drain` from the response to the oldest payload on.
  unfoldable pub drain_response : Text → Spool → ℕ → Option Error → Https W D → Https W D × Next
  drain_response name q failures none h =
      (record_metric metric_drained 1 (release name q h), Next.going_on)
  drain_response name q failures (some e) h =
      if is_unacceptable e
      then (record_metric metric_refused 1 (release name q h), Next.going_on)
      else (h, Next.backing_off (failures + 1))

  unfoldable pub drain_round : ℕ → Https W D → Https W D × Next
  drain_round failures h = elim (h.queue) [
    | none ↦ (h, Next.stop)
    | some q ↦
        let (state, result) = peek d (q, h.disk) in
        let looked = record h { queue = some state.0; disk = state.1 } in
        elim result [
          | err e ↦ (looked, Next.waiting)
          | ok (payload, name) ↦
              let (network, failure) = post client payload h.network in
              drain_response name state.0 failures failure (record looked { network = network })
        ]
  ]

  unfoldable pub drain : List Round → ℕ → Https W D → Https W D
  drain [] failures h = h
  drain (r ∷ rs) failures h =
      let (h', next) = drain_round failures h in
      elim (r.canceled) [ true ↦ h | false ↦ follow r.timer next (λ n. drain rs n h') h' ]

-- The delays of a transport, in nanoseconds.
pub record Delays : Type 0 where
  pub base_backoff : ℕ  -- time.Duration, an int64
  pub max_backoff : ℕ
  pub drain_every : ℕ

-- The defaults of `NewHTTPS`.
unfoldable pub delays_of : Delays → Delays
delays_of c = record {
  base_backoff = if is_positive c.base_backoff then c.base_backoff else 250_000_000;
  max_backoff = if is_positive c.max_backoff then c.max_backoff else 30_000_000_000;
  drain_every = if is_positive c.drain_every then c.drain_every else 2_000_000_000;
}

abbrev pub min_shift : ℕ → ℕ
min_shift attempt = if ltb attempt 17 then attempt - 1 else 16

-- The delay of `backoff` before the jitter, for an attempt from 1 on.
unfoldable pub capped_delay : Delays → ℕ → ℕ
capped_delay c attempt =
    let delay = mul64 c.base_backoff (2 ^ min_shift attempt) in
    if slt c.max_backoff delay || not (is_positive delay) then c.max_backoff else delay

-- float64 and its conversions from and to an int64, as the arithmetic of the language has them.
pub record Floats : Type 1 where
  pub Float : Type 0
  pub half : Float  -- 0.5
  pub of_int : ℕ → Float
  pub to_int : Float → ℕ
  pub plus : Float → Float → Float
  pub times : Float → Float → Float

-- time.Duration(float64(delay) * (0.5 + 0.5*jitter)), for the jitter that is drawn.
unfoldable pub backoff : (f : Floats) → Delays → f.Float → ℕ → ℕ
backoff f c jitter attempt =
    f.to_int (f.times (f.of_int (capped_delay c attempt)) (f.plus f.half (f.times f.half jitter)))
