-- ===== src/Lib.antt =====
-- A verification library for obs-unified, a self-hosted observability collector with its SDKs and
-- dashboard (packages/). Clients send telemetry to the collector with an ingest key; the collector
-- checks the key, stores the signals, profiles among them, and evaluates alert rules over what it has
-- stored. Before a panel is narrated by a language model, a gate decides whether
-- its result has changed. It also redacts spans, pushes
-- stored records to live subscribers, and shows profiles as flame graphs. The parts below are modelled, each
-- from its source:
--
-- Pprof: packages/pprof-decoder/src/index.ts, the codec for profiles. Pprof/Reader is the class Reader,
--   Pprof/Decode the decode functions, and Pprof/Encode the class ByteBuilder and the encode functions.
--   A buffer is a list of numbers; a thrown error is a value. A number that the reader
--   builds is the double that JavaScript computes (Pprof/Double: sums round to 53 bits, ties to even),
--   so the round trips carry the bound 2^53. The field loops run on fuel, one more than the bytes left:
--   each turn reads at least one byte. TextEncoder,
--   TextDecoder and the compression streams are parameters, and only the texts of the profile at hand
--   are required to survive them.
-- Ingest: the middleware createIngestAuth of packages/obs-collector/src/auth/ingest-auth.ts
--   (Ingest/Cache and Ingest/Auth) over the key tables of
--   packages/obs-collector/src/lib/projects-store.ts (Ingest/Keys). A SQL statement is its effect on a
--   list of rows. Ingest/Serve runs the middleware on one request after another. The hash sha256Hex is
--   a parameter; clocks, random ids and failures of the database stand in each request. The cache is
--   that of the one database the isolate is bound to, and requests do not interleave at an await. A bootstrap that fails is taken to
--   change nothing, where the source may have inserted the default project, which no lookup reads.
-- Alerts: evaluateOneRule of packages/obs-collector/src/plugins/alerts-evaluator.ts (Alerts/Evaluator)
--   over the state and evaluation tables of packages/obs-collector/src/lib/alerts-store.ts
--   (Alerts/Store). Alerts/Runs evaluates any rules one after another. What the value's SQL gives, how
--   webhooks answer and which calls fail are arguments; the model records every webhook posted. A
--   number is an element of a parameter type with the test <, so a NaN is left out. Alerts/Pool is
--   mapWithConcurrency, which evaluates a batch: its workers share a counter, and a step is the answer
--   of one worker's mapper, in any order. Alerts/Batch is evaluateRuleBatch over it.
-- Narrate: packages/obs-collector/src/lib/narrate-gate.ts. Narrate/Gate has the parser of the
--   predicate language and evaluateGate; JavaScript's numbers, with their reading and comparisons, are
--   a parameter type with its operations. Narrate/Parse adds a printer, which the source does not have.
-- Redact: packages/obs-collector/src/plugins/redaction-processor.ts over JSON values (Common/Json).
--   toLowerCase, JSON.parse and JSON.stringify are parameters; a value that cannot be parsed is kept.
-- Tail: the hub of packages/obs-collector/src/durable-objects/tail-hub.ts as a state that events change:
--   requests, heartbeats, cancellations. Which writes fail is an argument of each event. A broadcast
--   is not interleaved with another request. The id of a new subscriber, from crypto.randomUUID, is taken
--   to be new: with an old one the source's Map.set would replace the old subscriber.
-- Profile: what is done with a decoded profile, in packages/obs-collector/src/lib/parse-pprof.ts
--   (Profile/Trace and Profile/Frames) and
--   packages/dashboard/src/components/flame-graph/parse-pprof.ts (Profile/Flame): the trace ids and the
--   filter of the stored blob, the summary of frames, the flame tree and its layout. Values are
--   those that the decoder builds, so none is negative; sums are those of doubles. toLowerCase, gzip and the
--   text of a number are parameters.
-- Telemetry: packages/telemetry-sdk/src/span.ts and mcp.ts. Telemetry/Exporter is the exporter of spans
--   as a state that events change: exported functions are called, and requests are answered, with any HTTP
--   status, or fail, in any order. A shutdown goes on in a later event than the end of its flush. The timer and the signals of flush-lifecycle.ts are flushes that may come at any time.
--   Telemetry/Span has the span of a request with its children, run on a program of calls one after another,
--   each drawing the next of a stream of ids; children that run at once, and contexts
--   entered for what follows, are left out. Telemetry/Stamp
--   stamps it from a request's headers.
--   Telemetry/Headers has the parsers of headers and Telemetry/Mcp the context that a request of
--   the Model Context Protocol carries. toLowerCase and the functions for URI components are parameters.
-- Sql: rewriteQuestionMarks of packages/obs-collector/src/lib/sql-db-postgres.ts. The text of a number is a
--   parameter.
--
-- Common holds lists over native numbers, texts as UTF-16 code units, and the Boolean tests.
--
-- Not modelled: the SQL that computes values, the web framework, the database drivers, generated
-- protobuf code, browser and React code, and the SDKs in other languages, which are input and output or
-- calls of other systems; and, so far, the other components of the collector and the SDKs.
pub mod Common
pub mod Pprof
pub mod Ingest
pub mod Alerts
pub mod Narrate
pub mod Redact
pub mod Tail
pub mod Profile
pub mod Telemetry
pub mod Sql
