-- ===== src/Telemetry/Tests.antt =====
-- The theorems about packages/telemetry-sdk/src/span.ts and mcp.ts at concrete inputs, and runs.
use obs_unified.Common.{
  if◌then◌else◌, Option, ℕ, ◌+◌, map, ◌≡◌, refl, false, ◌||◌, List, [], ◌∷◌, none, some, arith,
}
use obs_unified.Common.Text.{Text, lit, text_eq, is_space, trim, trim_end}
use obs_unified.Common.Json.{string, object, Fields, end, field, set_field, get_field}
use obs_unified.Telemetry.Otlp.{OtlpTraceExportRequest}
use obs_unified.Telemetry.Exporter.{
  new_exporter, SpanExporterConfig, Event, init_span_exporter, flush, end_span, answer,
  enqueue_span_export, requeue_spans, flush_spans, end_flush, close, put_header, put_headers,
  headers_of, merge_trace_export_requests, step, run,
}
use obs_unified.Telemetry.KeepLast.{keep_last}
use obs_unified.Telemetry.Effects.{in_flight, given, succeeds}
use obs_unified.Telemetry.Delivery.{all_given, IsFaithful, run-IsFaithful, IsRoomy}
use obs_unified.Telemetry.Headers.{
  IncomingTraceContext, every, all_zero, take_hex, hex_then, dash_then, end_then, after_parent,
  after_trace, after_version, match_traceparent, context_of, parse_traceparent, is_action_id,
  parse_action_header, parse_interaction_header,
}
use obs_unified.Telemetry.Trace.{IsHex, parse_traceparent-IsHex}
use obs_unified.Telemetry.Mcp.{
  ActiveSpan, AgentActionContext, McpContextInjectionOptions, string_at, meta_of, inject_meta,
  inject_mcp_context, extract_mcp_context,
}
use obs_unified.Telemetry.Propagation.{
  IsSpanContext, IsActionContext, IsInteraction, received, extract_mcp_context-inject_mcp_context,
}
use obs_unified.Telemetry.Span.{
  ChildSpanRecord, Tracer, Work, returns, throws, with_child_span, to_kv, set_or_replace_kv,
  update_child, end_child, fail_child, agent_attributes, on_child, create_request_span,
  create_child_span, finish_child, after_child, go_on, catch_error, run_work, try_catch,
  create_child, finish_handle, child_span, spans_of,
}
use obs_unified.Telemetry.Tree.{IsTrace, run_work-IsTrace}
use obs_unified.Telemetry.Stamp.{Stamped, IsStamped, stamp_action, stamp_action-IsStamped}

program : Unit {0}
unfolding text_eq is_space trim trim_end get_field set_field enqueue_span_export requeue_spans
    flush_spans end_flush close put_header put_headers headers_of merge_trace_export_requests step
    run keep_last in_flight given succeeds all_given IsRoomy every all_zero take_hex hex_then
    dash_then end_then after_parent after_trace after_version match_traceparent context_of
    parse_traceparent is_action_id parse_action_header parse_interaction_header string_at meta_of
    IsInteraction to_kv set_or_replace_kv update_child end_child fail_child agent_attributes
    on_child create_child_span finish_child after_child go_on catch_error run_work child_span
    spans_of
program = tt

abbrev config : SpanExporterConfig
config = record { collector_url = lit "http://c"; auth_token = some (lit "k"); extra_headers = [] }

abbrev first_request : OtlpTraceExportRequest
first_request = record { resource_spans = none }

abbrev second_request : OtlpTraceExportRequest
second_request = record { resource_spans = some [] }

abbrev events : List Event
events =
    init_span_exporter config
    ∷ end_span first_request
    ∷ flush
    ∷ end_span second_request
    ∷ flush
    ∷ answer none
    ∷ []

run-IsFaithful_example : IsFaithful (all_given new_exporter events) (run new_exporter events)
run-IsFaithful_example = run-IsFaithful events

kept_in_order : (run new_exporter events).buffer ≡ first_request ∷ second_request ∷ []
unfolding program
kept_in_order = refl

abbrev same_text : Text → Text
same_text s = s

abbrev span : ActiveSpan
span = record {
  trace_id = lit "0af7651916cd43dd8448eb211c80319c";
  span_id = lit "b7ad6b7169203331";
}

abbrev context : IncomingTraceContext
context = record { trace_id = span.trace_id; parent_span_id = span.span_id }

parse_traceparent-IsHex_example :
    IsHex 32 context.trace_id
    × IsHex 16 context.parent_span_id
    × ((all_zero context.trace_id || all_zero context.parent_span_id) ≡ false)
unfolding program
parse_traceparent-IsHex_example =
    parse_traceparent-IsHex same_text
      (some (lit " 00-0af7651916cd43dd8448eb211c80319c-b7ad6b7169203331-01")) context refl

abbrev action : AgentActionContext
action = record {
  action_id = lit "01J0000000000000000000000A";
  root_action_id = lit "01J0000000000000000000000B";
  caused_by_action_id = none;
  interaction_id = some (lit "01J0000000000000000000000C");
  agent_run_id = none;
  actor_type = lit "agent";
  actor_id = none;
}

abbrev options : McpContextInjectionOptions
options = record { tracestate = some (lit "a=1"); baggage = none }

abbrev params : Fields
params = field (lit "_meta") (object (field (lit "obs") (string (lit "old")) end)) end

ids : IsSpanContext span
unfolding program
ids = record {
  trace_hex = record { long = refl; digits = refl };
  span_hex = record { long = refl; digits = refl };
  trace_nonzero = refl;
  span_nonzero = refl;
}

actions : IsActionContext action
unfolding program
actions = record {
  action_valid = record { long = refl; digits = refl };
  root_valid = record { long = refl; digits = refl };
}

extract_mcp_context-inject_mcp_context_example :
    extract_mcp_context some same_text
      (inject_mcp_context same_text (some span) (some action) options (object params))
    ≡ some (
        some (
          received span action
            (inject_meta same_text (some span) (some action) options (meta_of params))))
unfolding program
extract_mcp_context-inject_mcp_context_example =
    extract_mcp_context-inject_mcp_context same_text some refl refl same_text span action options
      params ids actions (record { long = refl; digits = refl }, refl, refl) refl refl refl

abbrev digits_of : ℕ → Text
digits_of n = (48 + n) ∷ []

abbrev new_tracer : Tracer
new_tracer = record {
  request = record {
    trace_id = [];
    span_id = [];
    service_name = [];
    span_name = [];
    incoming = none;
    start_time_unix_nano = [];
    end_time_unix_nano = none;
    attributes = [];
    events = [];
    status_code = 0;
    status_message = none;
    child_spans = [];
    exported = false;
  };
  drawn = 0;
  ticks = 0;
}

abbrev work : Work
work =
    with_child_span (lit "outer")
      (try_catch (with_child_span (lit "inner") (throws (lit "no")) returns) returns
        (create_child (lit "model") 3 (finish_handle returns) returns))
      returns

abbrev after_work : Tracer × Option Text
after_work =
    run_work digits_of digits_of none work none
      (create_request_span digits_of digits_of (lit "api") (lit "GET") (some context) [] new_tracer)

parents :
    map {B = Text × Text × ℕ}
      (λ (c : ChildSpanRecord). (c.span_id, c.parent_span_id, c.status_code))
      after_work.0.request.child_spans
    ≡ (lit "1", lit "0", 0) ∷ (lit "2", lit "1", 2) ∷ (lit "3", lit "1", 0) ∷ []
unfolding program
parents = refl

digits_apart : (i j : ℕ) → digits_of i ≡ digits_of j → i ≡ j
digits_apart i j e = let same : 48 + i ≡ 48 + j = cc e in omega (arith, same)

run_work-IsTrace_example :
    IsTrace (spans_of after_work.0.request) × (after_work.0.request.trace_id ≡ context.trace_id)
unfolding program
run_work-IsTrace_example =
    run_work-IsTrace digits_of digits_of none work (lit "api") (lit "GET") [] (some context)
      new_tracer digits_apart

abbrev headers : Text → Option Text
headers name = if text_eq name (lit "x-obs-action") then some action.action_id else none

abbrev unstamped : Stamped
unstamped = record { attributes = []; active = none }

stamp_action-IsStamped_example :
    IsStamped (some action.action_id) none none unstamped (stamp_action headers unstamped)
unfolding program
stamp_action-IsStamped_example = stamp_action-IsStamped headers unstamped
