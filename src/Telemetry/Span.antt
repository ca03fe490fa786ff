-- ===== src/Telemetry/Span.antt =====
-- `createRequestSpan` and `withChildSpan` of packages/telemetry-sdk/src/span.ts. What `generateId` draws and
-- `nowNano` reads is a stream each; the handler that a span is made for is a program, `Work`.
use obs_unified.Common.{
  ℕ, zero, suc, Bool, true, false, List, [], ◌∷◌, ◌++◌, map, Option, none, some, length, or_default,
  if◌then◌else◌,
}
use obs_unified.Common.Text.{Text, lit, text_eq}
use obs_unified.Telemetry.Otlp.{
  Number, string_value, bool_value, int_value, double_value, OtlpKeyValue, OtlpEvent, OtlpSpan,
  OtlpTraceExportRequest,
}
use obs_unified.Telemetry.Headers.{IncomingTraceContext}
use obs_unified.Telemetry.Exporter.{Exporter, enqueue_span_export}
use obs_unified.Telemetry.Mcp.{AgentActionContext}
use mathlib.Core.Option

-- A value of an attribute; of another type only what `String` gives is used
pub data Unknown : Type 0 where
  a_string : Text → Unknown
  a_boolean : Bool → Unknown
  a_number : Number → Unknown
  another : Text → Unknown

unfoldable pub to_kv : Text → Unknown → OtlpKeyValue
to_kv key (a_string s) = record { key = key; value = string_value s }
to_kv key (a_boolean b) = record { key = key; value = bool_value b }
to_kv key (a_number n) = record {
  key = key;
  value = if n.is_integer then int_value n.text else double_value n;
}
to_kv key (another s) = record { key = key; value = string_value s }

unfoldable pub set_or_replace_kv : List OtlpKeyValue → Text → Unknown → List OtlpKeyValue
unfolding to_kv text_eq
set_or_replace_kv [] key value = to_kv key value ∷ []
set_or_replace_kv (kv ∷ attributes) key value =
    if text_eq kv.key key
    then to_kv key value ∷ attributes
    else kv ∷ set_or_replace_kv attributes key value

pub record ChildSpanRecord : Type 0 where
  pub span_id : Text
  pub parent_span_id : Text
  pub name : Text
  pub kind : ℕ
  pub start_time_unix_nano : Text
  pub end_time_unix_nano : Option Text
  pub attributes : List OtlpKeyValue
  pub events : List OtlpEvent
  pub status_code : ℕ
  pub status_message : Option Text

pub record RequestSpan : Type 0 where
  pub trace_id : Text
  pub span_id : Text
  pub service_name : Text
  pub span_name : Text
  pub incoming : Option IncomingTraceContext
  pub start_time_unix_nano : Text
  pub end_time_unix_nano : Option Text
  pub attributes : List OtlpKeyValue
  pub events : List OtlpEvent
  pub status_code : ℕ
  pub status_message : Option Text
  pub child_spans : List ChildSpanRecord
  pub exported : Bool

-- The span of the request and how many ids and times were drawn
pub record Tracer : Type 0 where
  pub request : RequestSpan
  pub drawn : ℕ
  pub ticks : ℕ

-- `events.push({ name, timeUnixNano, attributes })`; attributes of no entry are left out.
abbrev pub event_of : Text → Text → List (Text × Unknown) → OtlpEvent
event_of name now [] = record { name = name; time_unix_nano = now; attributes = none }
event_of name now (entry ∷ entries) = record {
  name = name;
  time_unix_nano = now;
  attributes = some (map (λ (e : Text × Unknown). to_kv e.0 e.1) (entry ∷ entries));
}

-- The object that `createChildSpan` returns changes its record through the reference; here a record is
-- found by its place.
unfoldable pub update_child :
    ℕ → (ChildSpanRecord → ChildSpanRecord) → List ChildSpanRecord → List ChildSpanRecord
update_child i f [] = []
update_child zero f (c ∷ children) = f c ∷ children
update_child (suc i) f (c ∷ children) = c ∷ update_child i f children

unfoldable pub end_child : Text → ChildSpanRecord → ChildSpanRecord
end_child now c = record c { end_time_unix_nano = some now }

unfoldable pub fail_child : Text → ChildSpanRecord → ChildSpanRecord
fail_child message c = record c { status_code = 2; status_message = some message }

abbrev pub kv_of : Text → Option Text → List OtlpKeyValue
kv_of key none = []
kv_of key (some []) = []
kv_of key (some (c ∷ s)) = to_kv key (a_string (c ∷ s)) ∷ []

unfoldable pub agent_attributes : Option AgentActionContext → List OtlpKeyValue
unfolding to_kv
agent_attributes none = []
agent_attributes (some agent) =
    to_kv (lit "obs.action.id") (a_string agent.action_id)
      ∷ to_kv (lit "obs.action.root_id") (a_string agent.root_action_id)
      ∷ kv_of (lit "obs.action.caused_by_id") agent.caused_by_action_id
    ++ kv_of (lit "obs.interaction.id") agent.interaction_id
    ++ to_kv (lit "obs.actor.type") (a_string agent.actor_type)
      ∷ to_kv (lit "obs.action.actor_type") (a_string agent.actor_type)
      ∷ kv_of (lit "obs.actor.id") agent.actor_id
    ++ kv_of (lit "obs.action.actor_id") agent.actor_id
    ++ kv_of (lit "obs.agent.run_id") agent.agent_run_id
    ++ kv_of (lit "obs.action.agent_run_id") agent.agent_run_id

-- What the handler of a request does, one call after another: calls on the active span and on the handle
-- of the child that was made last, `withChildSpan`, `createChildSpan`, the agent's context for a function,
-- and a function with its `catch`; each with what follows where it does not throw
pub data Work : Type 0 where
  returns : Work
  throws : Text → Work
  set_attribute : Text → Unknown → Work → Work
  add_event : Text → List (Text × Unknown) → Work → Work
  set_status : ℕ → Option Text → Work → Work
  add_child_event : Text → List (Text × Unknown) → Work → Work
  set_child_status : ℕ → Option Text → Work → Work
  set_child_attribute : Text → Unknown → Work → Work
  with_child_span : Text → Work → Work → Work
  create_child : Text → ℕ → Work → Work → Work
  finish_handle : Work → Work
  with_agent : AgentActionContext → Work → Work → Work
  try_catch : Work → Work → Work → Work

unfoldable pub on_child : ℕ → (ChildSpanRecord → ChildSpanRecord) → Tracer → Tracer
unfolding update_child
on_child i f t = record t {
  request = record t.request { child_spans = update_child i f t.request.child_spans };
}

abbrev pub set_status_of : ℕ → Option Text → Tracer → Tracer
set_status_of code message t = record t {
  request = record t.request { status_code = code; status_message = message };
}

abbrev pub set_attribute_of : Text → Unknown → Tracer → Tracer
set_attribute_of key value t = record t {
  request = record t.request { attributes = set_or_replace_kv t.request.attributes key value };
}

module _ (ids clock : ℕ → Text) where
  abbrev pub create_request_span :
      Text → Text → Option IncomingTraceContext → Text → Tracer → Tracer
  create_request_span service_name span_name incoming fresh_trace_id t = record {
    request = record {
      trace_id = elim incoming [ none ↦ fresh_trace_id | some context ↦ context.trace_id ];
      span_id = ids t.drawn;
      service_name = service_name;
      span_name = span_name;
      incoming = incoming;
      start_time_unix_nano = clock t.ticks;
      end_time_unix_nano = none;
      attributes = [];
      events = [];
      status_code = 0;
      status_message = none;
      child_spans = [];
      exported = false;
    };
    drawn = suc t.drawn;
    ticks = suc t.ticks;
  }

  -- `parent` is what `parentSpanIdStorage` holds, `agent` what `agentContextStorage` does.
  unfoldable pub create_child_span :
      Text → ℕ → Option Text → Option AgentActionContext → Tracer → Tracer
  unfolding agent_attributes
  create_child_span name kind parent agent t = record {
    request = record t.request {
      child_spans =
          t.request.child_spans
          ++ record {
            span_id = ids t.drawn;
            parent_span_id = or_default parent t.request.span_id;
            name = name;
            kind = kind;
            start_time_unix_nano = clock t.ticks;
            end_time_unix_nano = none;
            attributes = agent_attributes agent;
            events = [];
            status_code = 0;
            status_message = none;
          }
            ∷ [];
    };
    drawn = suc t.drawn;
    ticks = suc t.ticks;
  }

  abbrev pub add_event_to : Text → List (Text × Unknown) → Tracer → Tracer
  add_event_to name attributes t = record t {
    request = record t.request {
      events = t.request.events ++ event_of name (clock t.ticks) attributes ∷ [];
    };
    ticks = suc t.ticks;
  }

  -- The end of `withChildSpan`: the child ends, failed where its function threw.
  unfoldable pub finish_child : ℕ → Option Text → Tracer → Tracer
  unfolding on_child end_child fail_child
  finish_child i none t = record (on_child i (end_child (clock t.ticks)) t) { ticks = suc t.ticks }
  finish_child i (some message) t =
      record (on_child i (end_child (clock t.ticks)) (on_child i (fail_child message) t)) {
        ticks = suc t.ticks;
      }

  -- The error is thrown again.
  unfoldable pub after_child :
      Option Text → ℕ → (Tracer → Tracer × Option Text) → Tracer → Tracer × Option Text
  unfolding finish_child
  after_child none i next t = next (finish_child i none t)
  after_child (some message) i next t = (finish_child i (some message) t, some message)

  -- What follows runs where nothing was thrown, and a `catch` where something was.
  unfoldable pub go_on :
      Option Text → (Tracer → Tracer × Option Text) → Tracer → Tracer × Option Text
  go_on none next t = next t
  go_on (some message) next t = (t, some message)

  unfoldable pub catch_error :
      Option Text → (Tracer → Tracer × Option Text) → Tracer → Tracer × Option Text
  catch_error none handler t = (t, none)
  catch_error (some message) handler t = handler t

  -- Runs a program. `inner` is the place of the innermost handle and the id that `parentSpanIdStorage`
  -- holds or that stands for it; the result is what it throws.
  unfoldable pub run_work :
      Option AgentActionContext → Work → Option (ℕ × Text) → Tracer → Tracer × Option Text
  unfolding create_child_span on_child after_child go_on catch_error end_child set_or_replace_kv
  run_work agent returns inner t = (t, none)
  run_work agent (throws message) inner t = (t, some message)
  run_work agent (set_attribute key value rest) inner t =
      run_work agent rest inner (set_attribute_of key value t)
  run_work agent (add_event name attributes rest) inner t =
      run_work agent rest inner (add_event_to name attributes t)
  run_work agent (set_status code message rest) inner t =
      run_work agent rest inner (set_status_of code message t)
  run_work agent (add_child_event name attributes rest) inner t =
      let now = clock t.ticks in
      run_work agent rest inner (elim inner [
        | none ↦ t
        | some (i, id) ↦
            record (on_child i
              (λ c. record c { events = c.events ++ event_of name now attributes ∷ [] }) t) {
                ticks = suc t.ticks;
              }
      ])
  run_work agent (set_child_status code message rest) inner t =
      run_work agent rest inner (elim inner [
        | none ↦ t
        | some (i, id) ↦
            on_child i (λ c. record c { status_code = code; status_message = message }) t
      ])
  run_work agent (set_child_attribute key value rest) inner t =
      run_work agent rest inner (elim inner [
        | none ↦ t
        | some (i, id) ↦
            on_child i (λ c. record c { attributes = set_or_replace_kv c.attributes key value }) t
      ])
  run_work agent (with_child_span name body rest) inner t =
      let i = length t.request.child_spans in
      let (t', thrown) =
        run_work agent body (some (i, ids t.drawn))
          (create_child_span name 1 (Option.map (λ (c : ℕ × Text). c.1) inner) agent t) in
      after_child thrown i (λ u. run_work agent rest inner u) t'
  run_work agent (create_child name kind body rest) inner t =
      let parent = Option.map (λ (c : ℕ × Text). c.1) inner in
      let handle : ℕ × Text = (length t.request.child_spans, or_default parent t.request.span_id) in
      let (t', thrown) =
        run_work agent body (some handle) (create_child_span name kind parent agent t) in
      go_on thrown (λ u. run_work agent rest inner u) t'
  run_work agent (finish_handle rest) inner t =
      run_work agent rest inner (elim inner [ none ↦ t | some (i, id) ↦ finish_child i none t ])
  run_work agent (with_agent context body rest) inner t =
      let (t', thrown) = run_work (some context) body inner t in
      go_on thrown (λ u. run_work agent rest inner u) t'
  run_work agent (try_catch body handler rest) inner t =
      let (t', thrown) = run_work agent body inner t in
      let (t'', again) = catch_error thrown (λ u. run_work agent handler inner u) t' in
      go_on again (λ u. run_work agent rest inner u) t''

unfoldable pub child_span : Text → ChildSpanRecord → OtlpSpan
child_span trace_id c = record {
  trace_id = trace_id;
  span_id = c.span_id;
  parent_span_id = some c.parent_span_id;
  name = c.name;
  kind = c.kind;
  start_time_unix_nano = c.start_time_unix_nano;
  end_time_unix_nano = c.end_time_unix_nano;
  attributes = c.attributes;
  events = c.events;
  status_code = c.status_code;
  status_message = c.status_message;
}

unfoldable pub spans_of : RequestSpan → List OtlpSpan
unfolding child_span
spans_of r =
    record {
      trace_id = r.trace_id;
      span_id = r.span_id;
      parent_span_id =
          Option.map (λ (context : IncomingTraceContext). context.parent_span_id) r.incoming;
      name = r.span_name;
      kind = 2;
      start_time_unix_nano = r.start_time_unix_nano;
      end_time_unix_nano = r.end_time_unix_nano;
      attributes = r.attributes;
      events = r.events;
      status_code = r.status_code;
      status_message = r.status_message;
    }
    ∷ map (child_span r.trace_id) r.child_spans

unfoldable pub to_otlp_export_request : RequestSpan → OtlpTraceExportRequest
unfolding spans_of to_kv
to_otlp_export_request r = record {
  resource_spans = some (
      record {
        resource_attributes = to_kv (lit "service.name") (a_string r.service_name) ∷ [];
        scope_spans = record { scope_name = r.service_name; spans = spans_of r } ∷ [];
      }
      ∷ []);
}

-- `end` of the span of a request
unfoldable pub end_request : (ℕ → Text) → Tracer → Exporter → Tracer × Exporter
unfolding to_otlp_export_request enqueue_span_export
end_request clock t exporter =
    let t' : Tracer = record {
      request = record t.request { end_time_unix_nano = some (clock t.ticks); exported = true };
      drawn = t.drawn;
      ticks = suc t.ticks;
    } in
    if t.request.exported
    then (t, exporter)
    else (t', enqueue_span_export (to_otlp_export_request t'.request) exporter)
