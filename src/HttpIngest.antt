-- ===== src/HttpIngest.antt =====
-- internal/httpingest/server.go: the edge that takes batches over HTTP. Of a request there are its
-- peer, its headers and its body; of a response there is the status. The library that decodes a
-- body of limited size is a parameter, and so are the readings of the clock, in their order.
pub mod Requests
pub mod Payloads
pub mod Behind
pub mod Examples
use mcp_ironclaw.Prelude.{
  ℕ, suc, ◌*◌, Bool, true, false, not, ◌&&◌, Option, none, some, List, [], ◌∷◌, if◌then◌else◌,
}
use mcp_ironclaw.Go.Time
use mcp_ironclaw.Go.Int64.{is_positive}
use mcp_ironclaw.Go.Text.{Text, codes, is_empty, text_eq}
use mcp_ironclaw.Go.Map.{Map, get_or, put, string_eq}
use mcp_ironclaw.Domain.Errors.{Error, Result, ok, err, is_device_mismatch}
use mcp_ironclaw.Domain.Event.{Event, Batch, kind_valid, kind_syscall, validate_batch}
use mcp_ironclaw.Wire.Edge.{EdgeEvent, EdgeBatch}
use mcp_ironclaw.Services.Metrics.{Recorder, record_sample}

abbrev pub default_identity_header : Text
default_identity_header = codes "X-Device-Id"

abbrev pub default_max_body_bytes : ℕ
default_max_body_bytes = 8 * 1_048_576

abbrev pub metric_requests_accepted : Text
metric_requests_accepted = codes "http_ingest_accepted"

abbrev pub metric_requests_rejected : Text
metric_requests_rejected = codes "http_ingest_rejected"

abbrev pub metric_requests_unauthentic : Text
metric_requests_unauthentic = codes "http_ingest_unauthenticated"

abbrev pub status_accepted : ℕ
status_accepted = 202

abbrev pub status_bad_request : ℕ
status_bad_request = 400

abbrev pub status_unauthorized : ℕ
status_unauthorized = 401

abbrev pub status_forbidden : ℕ
status_forbidden = 403

-- LocalPodID, from the variable of the environment and the name of the host.
abbrev pub local_pod_id : Text → Result Text → Text
local_pod_id pod (ok host) = if not (is_empty pod) then pod else host
local_pod_id pod (err e) = if not (is_empty pod) then pod else codes "unknown-pod"

pub record Config : Type 0 where
  pub identity_header : Text
  pub max_body_bytes : ℕ  -- int64
  pub allowed_client_cns : List Text
  pub pod_id : Text

pub record Server : Type 0 where
  pub identity_header : Text
  pub max_body_bytes : ℕ
  pub allowed_clients : Map Text Bool
  pub pod_id : Text

-- The loop of `New` over the allowed names.
unfoldable pub allow_all : List Text → Map Text Bool → Map Text Bool
allow_all [] allowed = allowed
allow_all (n ∷ ns) allowed = allow_all ns (if not (is_empty n) then put n true allowed else allowed)

-- New, for a configuration that has an acceptor, on a host with this pod.
unfoldable pub new_server : Text → Config → Server
new_server local c = record {
  identity_header =
      if is_empty c.identity_header then default_identity_header else c.identity_header;
  max_body_bytes =
      if is_positive c.max_body_bytes then c.max_body_bytes else default_max_body_bytes;
  allowed_clients = allow_all c.allowed_client_cns [];
  pod_id = if is_empty c.pod_id then local else c.pod_id;
}

-- A request: the common names of the peer's certificates if it came over TLS, and `Header.Get`.
pub record Request : Type 0 where
  pub peer : Option (List Text)
  pub header : Text → Text
  pub body : List ℕ

abbrev pub first_name_allowed : Server → List Text → Bool
first_name_allowed s [] = false
first_name_allowed s (name ∷ names) = get_or name s.allowed_clients false

unfoldable pub peer_is_authorised_edge : Server → Request → Bool
peer_is_authorised_edge s r = elim (s.allowed_clients) [
  | [] ↦ true
  | c ∷ cs ↦ elim (r.peer) [ none ↦ false | some names ↦ first_name_allowed s names ]
]

-- One round of the loop of `toBatch`, with the reading of the clock in it.
unfoldable pub edge_event_of : Server → Text → ℕ → EdgeEvent → Event
edge_event_of s device now e = record {
  device_id = device;
  user_id = e.user_id;
  process_id = e.process_id;
  pod_id = s.pod_id;
  kind = if kind_valid e.kind then e.kind else kind_syscall;
  observed_at =
      if is_positive e.observed_at_unix_nanos then Time.unix e.observed_at_unix_nanos else now;
  latency_nanos = e.latency_nanos;
  bytes = e.bytes;
  failed = e.failed;
}

-- The loop from the reading `i` of the clock on.
unfoldable pub edge_events_of : Server → Text → (ℕ → ℕ) → ℕ → List EdgeEvent → List Event
edge_events_of s device clock i [] = []
edge_events_of s device clock i (e ∷ es) =
    edge_event_of s device (clock i) e ∷ edge_events_of s device clock (suc i) es

abbrev pub assembled : Server → Text → (ℕ → ℕ) → EdgeBatch → Batch
assembled s device clock p = record {
  device_id = device;
  created_at = clock 0;
  events = edge_events_of s device clock 1 p.events;
}

unfoldable pub to_batch : Server → Text → (ℕ → ℕ) → EdgeBatch → Result Batch
to_batch s device clock p = elim (validate_batch (assembled s device clock p)) [
  | none ↦ ok (assembled s device clock p)
  | some e ↦ err e
]

-- What a handler changes: the component behind the interface, and the metrics.
pub record State (W : Type 0) : Type 0 where
  pub world : W
  pub metrics : Recorder

-- A sample of one, and the status of the response.
abbrev pub respond : {W : Type 0} → Text → ℕ → State W → State W × ℕ
respond name status st = (record st { metrics = record_sample name 1 st.metrics }, status)

-- The status for an error of the acceptor.
abbrev pub status_of : Error → ℕ
status_of e = if is_device_mismatch e then status_forbidden else status_bad_request

-- The interface `BatchAcceptor`.
abbrev pub BatchAcceptor : Type 0 → Type 0
BatchAcceptor W = Text → Batch → W → W × Option Error

module _ {W : Type 0} (s : Server) (decode : ℕ → List ℕ → Result EdgeBatch) (clock : ℕ → ℕ)
    (accept : BatchAcceptor W) where
  abbrev pub accept_batch : Text → Batch → State W → State W × ℕ
  accept_batch device b st =
      let (world, result) = accept device b st.world in
      elim result [
        | some e ↦ respond metric_requests_rejected (status_of e) (record st { world = world })
        | none ↦ respond metric_requests_accepted status_accepted (record st { world = world })
      ]

  -- `ingest` from the decoded payload on.
  unfoldable pub ingest_payload : Text → EdgeBatch → State W → State W × ℕ
  ingest_payload device p st =
      if not (is_empty p.device_id) && not (text_eq p.device_id device)
      then respond metric_requests_rejected status_forbidden st
      else elim (to_batch s device clock p) [
        | err e ↦ respond metric_requests_rejected status_bad_request st
        | ok b ↦ accept_batch device b st
      ]

  unfoldable pub ingest : Request → State W → State W × ℕ
  ingest r st =
      let device = r.header s.identity_header in
      if not (peer_is_authorised_edge s r)
      then respond metric_requests_unauthentic status_forbidden st
      else if is_empty device
      then respond metric_requests_unauthentic status_unauthorized st
      else elim (decode s.max_body_bytes r.body) [
        | err e ↦ respond metric_requests_rejected status_bad_request st
        | ok p ↦ ingest_payload device p st
      ]
