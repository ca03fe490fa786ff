-- ===== src/Telemetry/Exporter.antt =====
-- The exporter of packages/telemetry-sdk/src/span.ts: the buffer of requests and its flushes. The timer and
-- the process's signals start flushes, which may come at any time; whether a request fails is an argument.
use obs_unified.Common.{
  ℕ, zero, suc, ◌+◌, ◌-◌, Bool, true, false, ◌||◌, List, [], ◌∷◌, ◌++◌, Option, none, some, length,
  drop, flat_map, ltb, leb, if◌then◌else◌,
}
use obs_unified.Common.Text.{Text, lit, text_eq, truthy}
use obs_unified.Telemetry.Otlp.{OtlpResourceSpans, OtlpTraceExportRequest}

abbrev pub max_span_buffer_size : ℕ
max_span_buffer_size = 200

pub record SpanExporterConfig : Type 0 where
  pub collector_url : Text
  pub auth_token : Option Text
  pub extra_headers : List (Text × Text)

pub record Post : Type 0 where
  pub url : Text
  pub headers : List (Text × Text)
  pub body : OtlpTraceExportRequest

-- A flush that awaits its request; `closing` where `shutdownSpanExporter` awaits the flush
pub record Flush : Type 0 where
  pub batch : List OtlpTraceExportRequest
  pub closing : Bool

-- The module's variables, the flushes under way, what was posted, and the requests whose post was
-- answered, with whatever HTTP status: `response.ok` is not read. `closings` counts the calls of
-- `shutdownSpanExporter` whose flush has ended and that have not gone on.
pub record Exporter : Type 0 where
  pub config : Option SpanExporterConfig
  pub buffer : List OtlpTraceExportRequest
  pub in_progress : Bool
  pub awaiting : List Flush
  pub closings : ℕ
  pub posted : List Post
  pub answered : List OtlpTraceExportRequest

abbrev pub new_exporter : Exporter
new_exporter = record {
  config = none;
  buffer = [];
  in_progress = false;
  awaiting = [];
  closings = 0;
  posted = [];
  answered = [];
}

abbrev pub is_empty {ℓ} : {A : Type ℓ} → List A → Bool
is_empty [] = true
is_empty (a ∷ l) = false

-- `{ ...headers, [name]: value }`
unfoldable pub put_header : Text → Text → List (Text × Text) → List (Text × Text)
unfolding text_eq
put_header name value [] = (name, value) ∷ []
put_header name value ((other, old) ∷ headers) =
    if text_eq other name
    then (other, value) ∷ headers
    else (other, old) ∷ put_header name value headers

unfoldable pub put_headers : List (Text × Text) → List (Text × Text) → List (Text × Text)
unfolding put_header
put_headers [] headers = headers
put_headers ((name, value) ∷ more) headers = put_headers more (put_header name value headers)

unfoldable pub headers_of : SpanExporterConfig → List (Text × Text)
unfolding put_headers
headers_of config =
    let headers =
      put_headers config.extra_headers ((lit "Content-Type", lit "application/json") ∷ []) in
    elim config.auth_token [
      | none ↦ headers
      | some token ↦
          if truthy (some token)
          then put_header (lit "Authorization") (lit "Bearer " ++ token) headers
          else headers
    ]

abbrev pub or_none : Option (List OtlpResourceSpans) → List OtlpResourceSpans
or_none none = []
or_none (some spans) = spans

unfoldable pub merge_trace_export_requests : List OtlpTraceExportRequest → OtlpTraceExportRequest
merge_trace_export_requests batch = record {
  resource_spans = some (flat_map (λ r. or_none r.resource_spans) batch);
}

unfoldable pub enqueue_span_export : OtlpTraceExportRequest → Exporter → Exporter
enqueue_span_export request s = elim s.config [
  | none ↦ s
  | some config ↦
      let kept =
        if leb max_span_buffer_size (length s.buffer)
        then drop ((length s.buffer - max_span_buffer_size) + 1) s.buffer
        else s.buffer in
      record s { buffer = kept ++ request ∷ [] }
]

unfoldable pub requeue_spans : List OtlpTraceExportRequest → Exporter → Exporter
requeue_spans [] s = s
requeue_spans (r ∷ batch) s =
    let buffer = r ∷ batch ++ s.buffer in
    record s {
      buffer =
          if ltb max_span_buffer_size (length buffer)
          then drop (length buffer - max_span_buffer_size) buffer
          else buffer;
    }

-- The flush that `shutdownSpanExporter` awaits has ended; it goes on later.
abbrev pub after_flush : Bool → Exporter → Exporter
after_flush closing s = if closing then record s { closings = suc s.closings } else s

-- A call of `shutdownSpanExporter` goes on behind its flush.
unfoldable pub close : ℕ → Exporter → Exporter
close zero s = s
close (suc n) s = record s { config = none; closings = n }

-- `flushSpans` up to its `await`
unfoldable pub flush_spans : Bool → Exporter → Exporter
unfolding headers_of merge_trace_export_requests
flush_spans closing s = elim s.config [
  | none ↦ after_flush closing s
  | some config ↦ if is_empty s.buffer || s.in_progress then after_flush closing s else record s {
    in_progress = true;
    buffer = [];
    awaiting = s.awaiting ++ record { batch = s.buffer; closing = closing } ∷ [];
    posted =
        s.posted
        ++ record {
          url = config.collector_url ++ lit "/v1/traces";
          headers = headers_of config;
          body = merge_trace_export_requests s.buffer;
        }
          ∷ [];
  }
]

-- `flushSpans` behind its `await`: the post was answered with an HTTP status, or `fetch` failed.
unfoldable pub end_flush : Option ℕ → Flush → Exporter → Exporter
unfolding requeue_spans
end_flush (some status) flush s =
    after_flush flush.closing
      (record s { answered = s.answered ++ flush.batch; in_progress = false })
end_flush none flush s =
    after_flush flush.closing (record (requeue_spans flush.batch s) { in_progress = false })

pub data Event : Type 0 where
  init_span_exporter : SpanExporterConfig → Event
  shutdown_span_exporter flush proceed_shutdown : Event
  end_span : OtlpTraceExportRequest → Event
  answer : Option ℕ → Event

unfoldable pub step : Event → Exporter → Exporter
unfolding flush_spans enqueue_span_export end_flush close
step (init_span_exporter config) s = record s { config = some config }
step shutdown_span_exporter s = flush_spans true s
step flush s = flush_spans false s
step proceed_shutdown s = close s.closings s
step (end_span request) s = enqueue_span_export request s
step (answer outcome) s = elim s.awaiting [
  | [] ↦ s
  | f ∷ rest ↦ end_flush outcome f (record s { awaiting = rest })
]

unfoldable pub run : Exporter → List Event → Exporter
unfolding step
run s [] = s
run s (e ∷ events) = run (step e s) events
