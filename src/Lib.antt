-- ===== src/Lib.antt =====
-- IronClaw: a verification library of its telemetry pipeline, written in Go.
--
-- The program. An agent captures events of a device, batches them and sends them to the ingest
-- service (internal/httpingest, internal/ingest), which checks that a batch is the authenticated
-- device's own and valid, and publishes it on a bus (internal/bus or internal/kafkabus). The
-- aggregation service (internal/aggregator) feeds the batches to the windowed aggregator
-- (internal/aggregate), which counts events per process and time window, and publishes the windows
-- that have closed. The persister applies each window to the store of device states
-- (internal/store, or Redis and Postgres), once, although the bus may deliver it more often. The MCP
-- server (internal/mcpserver) lets clients read and watch these states and reset counters; a reset
-- goes over a bus to the command service (internal/commands). Batches that cannot be sent wait on
-- disk in a spool (internal/spool).
--
-- What models what. A path in the heading of a file is the code that it translates.
--   Prelude     names passed on from the libraries, Boolean tests, lists
--   Go          what the code uses of Go: int64 as a bit pattern below 2 ^ 64, strings as lists of
--               bytes, time as nanoseconds since year 1, maps as association lists, sort, strconv
--   Domain      internal/domain: errors, events, batches, keys, windows, commands. An error is its
--               sentinel; the texts of messages are left out, and %w keeps what it wraps
--   Aggregate   internal/aggregate/aggregator.go: Aggregator with the operations ingest,
--               ingest_batch (IngestBatch), collect_windows_before, collect_all, commit,
--               close_windows_before and flush, over the interface QuantileSketch. Aggregate.Sketch is
--               sketch.go, over any floats, and its Interface fills QuantileSketch and has New
--   Store       internal/store: Memory (memory.go and watch.go: apply_window, reset_device,
--               device_state, user_devices, watch_device, unwatch) and Locker (lock.go: acquire,
--               release, guard)
--   Services    internal/aggregator/service.go (Emission), internal/ingest/service.go and
--               internal/transport/loopback.go (Ingestion), internal/persister/service.go and
--               internal/commands/service.go (Handlers), internal/app/fallback.go and
--               internal/app/fanout.go (Composites)
--   Bus         internal/bus: the partitions, claims, Send, deliver, drain, Close, and the claims
--               that Receive and RunConsumerGroup put around a consumer
--   McpServer   internal/mcpserver/principal.go and tools.go: who may call what, and the tools
--   Spool       internal/spool/spool.go: Open with recover and parseName, Enqueue, Peek, Release and
--               the trimming to the budget
--   Wire        internal/wire: the codecs of codec.go and the edge batch of edge.go. The libraries
--               for protocol buffers and JSON are records of a marshal and an unmarshal
--   HttpIngest  internal/httpingest/server.go: from a request to the acceptor and the status
--   Transport   internal/transport/https.go: post, Send, Drain and the backoff, over any client
--   Pipeline    internal/pipeline: the batcher (batcher.go), its overflow strategies (overflow.go)
--               and the sender (sender.go)
--   KafkaBus    internal/kafkabus: the producer, the consumer with its retries, dead letters and
--               commits (bus.go), and the encoding of commands (codec.go)
--   Metrics     internal/metrics/async.go: the recorder with a buffer, as interleaving steps
--   Ebpf        internal/ebpf/record.go: the records of the kernel and the events made of them
--   Postgres    internal/postgresstore/store.go: the methods over any database, what the SQL statements
--               say of the table, and the partitions with the migration out of the default one.
--               Postgres.Archive puts it behind the persister and the consumer of KafkaBus, with any
--               rounding of the instants
--
-- How it models it. A method is a function from the state to the new state and the result. A
-- method that holds a mutex from its first read to its last write is one step. Where calls
-- interleave within a method, the states are linked by a step relation:
-- Store.Memory.Lifecycle.Step has the methods, the consumers and the goroutines that end watches,
-- and Bus.Lifecycle.Step has each stage of Send and of deliver and the two halves of Close;
-- Pipeline.Steps.Step has the collector, each select of an overflow strategy and the sender.
-- Properties hold of every state that the steps reach. A context is the error that it returns. A
-- component behind an interface (a publisher, a reader, a disk) is a function on a world of its
-- own, and the laws that a client relies on are a record that the implementation fills:
-- Services.Emission.Retention.IsWindowSource is the contract of a window source, and
-- Services.Emission.Source shows that the aggregator fulfils it. A channel is its buffer; a
-- pointer to a watcher is an address into a heap of channels.
--
-- Numbers. Counters and sums wrap at 2 ^ 64 as in Go, and comparisons are signed. Where a property
-- needs that a number has not wrapped around, such as sequence numbers or fencing tokens, that is a
-- hypothesis of it: fewer than 2 ^ 63 grants, or 2 ^ 64 emissions.
--
-- Bounds and fuel. Loops are structural recursion on the list that they go through. The retries of a
-- delivery recur on the attempts that are left. The rounds of the spool that make room are bounded by
-- the number of entries, since each drops one; the search for a free name is bounded by one more than
-- the number of entries, and the name that it finds within that bound is shown to be free. Loops that
-- run until a context ends are a list of rounds (Drain) or single rounds (poll), for any readings of
-- the clock and any answers of the context.
--
-- The floats of the sketch and of the backoff are records of the operations that the code uses, with
-- the laws of float64 that a property needs as hypotheses.
--
-- Not modelled. Redis, the export of metrics, the kernel event source, the generated messages of
-- internal/wire, tracing, the set-up of TLS, and the wiring of the processes. What Redis and
-- Postgres themselves do is not code of the repository: of Postgres the statements are modelled and
-- their execution is a hypothesis. In the parts that are modelled: constructors that only refuse nil
-- arguments, the copying of trace headers, and the text of instants in the output of the tools.
pub mod Prelude
pub mod Go
pub mod Domain
pub mod Aggregate
pub mod Store
pub mod Services
pub mod Bus
pub mod McpServer
pub mod Spool
pub mod Wire
pub mod HttpIngest
pub mod Transport
pub mod Pipeline
pub mod KafkaBus
pub mod Metrics
pub mod Ebpf
pub mod Postgres
