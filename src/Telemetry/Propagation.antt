-- ===== src/Telemetry/Propagation.antt =====
-- What `extractMcpContext` of packages/telemetry-sdk/src/mcp.ts reads of what `injectMcpContext` writes.
use obs_unified.Common.{
  ◌≡◌, refl, sym, ap, ap₂, subst, ◌∙◌, false, [], ◌∷◌, ◌++◌, Option, none, some, or_default, arith,
}
use obs_unified.Common.Text.{Text, lit, text_eq}
use obs_unified.Common.Json.{Json, string, object, Fields, end, set_field, get_field}
use obs_unified.Telemetry.Headers.{
  all_zero, IncomingTraceContext, parse_traceparent, parse_action_header,
}
use obs_unified.Telemetry.Mcp.{
  ActiveSpan, AgentActionContext, McpContextInjectionOptions, McpContext, interaction_key, text_of,
  string_at, or_option, context_from, obs_fields, agent_context, put_interaction,
  append_baggage_pair, with_span, with_action, with_tracestate, with_interaction, with_baggage,
  meta_of, inject_meta, inject_mcp_context, parse_baggage_interaction_id, extract_meta,
  extract_from, extract_mcp_context,
}
use obs_unified.Telemetry.Texts.{get_field-set_field, get_field-set_field_other}
use obs_unified.Telemetry.Trace.{IsHex, traceparent, parse_traceparent-traceparent}
use obs_unified.Telemetry.Baggage.{IsActionId, parse_action_header_id, parse_baggage_pair}

-- An action whose ids are valid
pub record IsActionContext (action : AgentActionContext) : Type 0 where
  pub action_valid : IsActionId action.action_id
  pub root_valid : IsActionId action.root_action_id

pub record IsSpanContext (span : ActiveSpan) : Type 0 where
  pub trace_hex : IsHex 32 span.trace_id
  pub span_hex : IsHex 16 span.span_id
  pub trace_nonzero : all_zero span.trace_id ≡ false
  pub span_nonzero : all_zero span.span_id ≡ false

string_at_set :
    (key s : Text) (fields : Fields) → string_at key (set_field key (string s) fields) ≡ some s
unfolding string_at
string_at_set key s fields = ap text_of (get_field-set_field key (string s) fields)

string_at_other :
    (wanted key : Text) (value : Json) (fields : Fields)
    → text_eq key wanted ≡ false
    → string_at wanted (set_field key value fields) ≡ string_at wanted fields
unfolding string_at
string_at_other wanted key value fields apart =
    ap text_of (get_field-set_field_other wanted key value fields apart)

-- The object under `obs`
abbrev action_ids : AgentActionContext → Fields
action_ids action =
    set_field (lit "root_action_id") (string action.root_action_id)
      (set_field (lit "action_id") (string action.action_id) end)

module _ (encode : Text → Text) where
  string_at-with_tracestate :
      (wanted : Text) (tracestate : Option Text) (meta : Fields)
      → text_eq (lit "tracestate") wanted ≡ false
      → string_at wanted (with_tracestate tracestate meta) ≡ string_at wanted meta
  unfolding with_tracestate
  string_at-with_tracestate wanted none meta apart = refl
  string_at-with_tracestate wanted (some []) meta apart = refl
  string_at-with_tracestate wanted (some (c ∷ s)) meta apart =
      string_at_other wanted _ (string (c ∷ s)) meta apart

  string_at-put_interaction :
      (wanted : Text) (interaction : Option Text) (meta : Fields)
      → text_eq (lit "baggage") wanted ≡ false
      → string_at wanted (put_interaction encode interaction meta) ≡ string_at wanted meta
  unfolding put_interaction
  string_at-put_interaction wanted none meta apart = refl
  string_at-put_interaction wanted (some []) meta apart = refl
  string_at-put_interaction wanted (some (c ∷ s)) meta apart = string_at_other wanted _ _ meta apart

  module _ (span : ActiveSpan) (action : AgentActionContext) (tracestate : Option Text)
      (meta : Fields) where
    written : Fields
    written =
        put_interaction encode action.interaction_id
          (with_tracestate tracestate (with_action (some action) (with_span (some span) meta)))

    -- What is under a key that neither the state nor the baggage has
    string_at-written :
        (wanted : Text)
        → text_eq (lit "tracestate") wanted ≡ false
        → text_eq (lit "baggage") wanted ≡ false
        → string_at wanted written
          ≡ string_at wanted (with_action (some action) (with_span (some span) meta))
    unfolding written
    string_at-written wanted a b =
        string_at-put_interaction wanted action.interaction_id _ b
        ∙ string_at-with_tracestate wanted tracestate _ a

    traceparent_written :
        string_at (lit "traceparent") written ≡ some (traceparent span.trace_id span.span_id)
    unfolding with_action with_span text_eq
    traceparent_written =
        let own =
          set_field (lit "traceparent") (string (traceparent span.trace_id span.span_id)) meta in
        let root = set_field (lit "obs.action.root_id") (string action.root_action_id) own in
        let both = set_field (lit "obs.action.id") (string action.action_id) root in
        string_at-written (lit "traceparent") refl refl
        ∙ string_at_other (lit "traceparent") (lit "obs") (object (action_ids action)) both refl
        ∙ string_at_other (lit "traceparent") (lit "obs.action.id") (string action.action_id) root
            refl
        ∙ string_at_other (lit "traceparent") (lit "obs.action.root_id")
            (string action.root_action_id) own refl
        ∙ string_at_set (lit "traceparent") (traceparent span.trace_id span.span_id) meta

    root_written : string_at (lit "obs.action.root_id") written ≡ some action.root_action_id
    unfolding with_action text_eq
    root_written =
        let own = with_span (some span) meta in
        let root = set_field (lit "obs.action.root_id") (string action.root_action_id) own in
        let both = set_field (lit "obs.action.id") (string action.action_id) root in
        string_at-written (lit "obs.action.root_id") refl refl
        ∙ string_at_other (lit "obs.action.root_id") (lit "obs") (object (action_ids action)) both
            refl
        ∙ string_at_other (lit "obs.action.root_id") (lit "obs.action.id") (string action.action_id)
            root refl
        ∙ string_at_set (lit "obs.action.root_id") action.root_action_id own

    action_written : string_at (lit "obs.action.id") written ≡ some action.action_id
    unfolding with_action text_eq
    action_written =
        let root =
          set_field (lit "obs.action.root_id") (string action.root_action_id)
            (with_span (some span) meta) in
        let both = set_field (lit "obs.action.id") (string action.action_id) root in
        string_at-written (lit "obs.action.id") refl refl
        ∙ string_at_other (lit "obs.action.id") (lit "obs") (object (action_ids action)) both refl
        ∙ string_at_set (lit "obs.action.id") action.action_id root

    baggage_before :
        string_at (lit "baggage") meta ≡ none
        → string_at
            (lit "baggage")
            (with_tracestate tracestate (with_action (some action) (with_span (some span) meta)))
          ≡ none
    unfolding with_action with_span text_eq
    baggage_before h =
        let own =
          set_field (lit "traceparent") (string (traceparent span.trace_id span.span_id)) meta in
        let root = set_field (lit "obs.action.root_id") (string action.root_action_id) own in
        let both = set_field (lit "obs.action.id") (string action.action_id) root in
        string_at-with_tracestate (lit "baggage") tracestate
          (with_action (some action) (with_span (some span) meta)) refl
        ∙ string_at_other (lit "baggage") (lit "obs") (object (action_ids action)) both refl
        ∙ string_at_other (lit "baggage") (lit "obs.action.id") (string action.action_id) root refl
        ∙ string_at_other (lit "baggage") (lit "obs.action.root_id") (string action.root_action_id)
            own refl
        ∙ string_at_other (lit "baggage") (lit "traceparent")
            (string (traceparent span.trace_id span.span_id)) meta refl
        ∙ h

-- The context that the server reads of what the client has written
abbrev pub received : ActiveSpan → AgentActionContext → Fields → McpContext
received span action meta = record {
  trace_context = some (record { trace_id = span.trace_id; parent_span_id = span.span_id });
  action_context = some (record {
    action_id = action.action_id;
    root_action_id = action.root_action_id;
    caused_by_action_id = some action.action_id;
    interaction_id = action.interaction_id;
    agent_run_id = some action.root_action_id;
    actor_type = lit "agent";
    actor_id = none;
  });
  tracestate = string_at (lit "tracestate") meta;
  baggage = string_at (lit "baggage") meta;
}

-- An interaction's id that the two functions for URI components leave whole, or none
unfoldable pub IsInteraction : (Text → Text) → (Text → Option Text) → Option Text → Type 0
IsInteraction encode decode none = Unit
IsInteraction encode decode (some id) = IsActionId id × (encode id ≡ id) × (decode id ≡ some id)

module _ (encode : Text → Text) (decode : Text → Option Text)
    (encodes_key : encode interaction_key ≡ interaction_key)
    (decodes_key : decode interaction_key ≡ some interaction_key) where
  parse_baggage-put_interaction :
      (interaction : Option Text) (meta : Fields)
      → IsInteraction encode decode interaction
      → string_at (lit "baggage") meta ≡ none
      → parse_baggage_interaction_id decode
          (string_at (lit "baggage") (put_interaction encode interaction meta))
        ≡ some interaction
  unfolding IsInteraction put_interaction append_baggage_pair parse_baggage_interaction_id
  parse_baggage-put_interaction none meta valid h = ap (parse_baggage_interaction_id decode) h
  parse_baggage-put_interaction (some []) meta (id, encodes, decodes) h =
      absurd (omega (arith, id.long))
  parse_baggage-put_interaction (some (c ∷ s)) meta (id, encodes, decodes) h =
      let pair = interaction_key ++ b'=' ∷ c ∷ s in
      let one : append_baggage_pair encode [] interaction_key (c ∷ s) ≡ pair =
        ap₂ (λ k v. k ++ b'=' ∷ v) encodes_key encodes in
      ap (parse_baggage_interaction_id decode) (
        string_at_set (lit "baggage")
          (append_baggage_pair encode (or_default (string_at (lit "baggage") meta) [])
            interaction_key (c ∷ s))
          meta)
      ∙ ap
          (λ b.
            parse_baggage_interaction_id decode
              (some (append_baggage_pair encode (or_default b []) interaction_key (c ∷ s))))
          h
      ∙ ap (λ b. parse_baggage_interaction_id decode (some b)) one
      ∙ parse_baggage_pair decode decodes_key (c ∷ s) id decodes

  context_from_all :
      {interaction : Option Text} {context : IncomingTraceContext} {root action : Text}
      (read : Option (Option Text)) (trace_context : Option IncomingTraceContext)
      (r a tracestate baggage : Option Text)
      → read ≡ some interaction
      → trace_context ≡ some context
      → r ≡ some root
      → a ≡ some action
      → context_from read trace_context r a tracestate baggage
        ≡ some (
            some (record {
              trace_context = some context;
              action_context = agent_context (some root) (some action) interaction;
              tracestate = tracestate;
              baggage = baggage;
            }))
  context_from_all read trace_context r a tracestate baggage h k m n = rw (h, k, m, n) refl

  module _ (to_lower : Text → Text) (span : ActiveSpan) (action : AgentActionContext) where
    extract_written :
        (tracestate : Option Text) (meta : Fields)
        → IsSpanContext span
        → IsActionContext action
        → IsInteraction encode decode action.interaction_id
        → to_lower (traceparent span.trace_id span.span_id) ≡ traceparent span.trace_id span.span_id
        → string_at (lit "baggage") meta ≡ none
        → let w = written encode span action tracestate meta in
          extract_meta decode to_lower w ≡ some (some (received span action w))
    unfolding extract_meta written
    extract_written tracestate meta ids actions interaction lower empty =
        let w = written encode span action tracestate meta in
        let before =
          with_tracestate tracestate (with_action (some action) (with_span (some span) meta)) in
        let obs = obs_fields (get_field (lit "obs") w) in
        context_from_all _ _ _ _ (string_at (lit "tracestate") w) (string_at (lit "baggage") w)
          (parse_baggage-put_interaction action.interaction_id before interaction
            (baggage_before encode span action tracestate meta empty))
          (ap (parse_traceparent to_lower) (traceparent_written encode span action tracestate meta)
            ∙ parse_traceparent-traceparent to_lower span.trace_id span.span_id ids.trace_hex
                ids.span_hex ids.trace_nonzero ids.span_nonzero lower)
          (ap (λ r. parse_action_header (or_option r (string_at (lit "root_action_id") obs)))
              (root_written encode span action tracestate meta)
            ∙ parse_action_header_id action.root_action_id actions.root_valid)
          (ap (λ r. parse_action_header (or_option r (string_at (lit "action_id") obs)))
              (action_written encode span action tracestate meta)
            ∙ parse_action_header_id action.action_id actions.action_valid)

    -- Where the client has an active span and an active action with valid ids, and neither it nor the
    -- parameters set a baggage, the server reads of its parameters the span's trace with the span as the
    -- parent, and a context with the action's id, root and interaction, in which the action is the
    -- cause, its root the agent's run, and the actor an unnamed agent. The functions for URI components
    -- leave the key and the id as they are, and toLowerCase the header.
    pub extract_mcp_context-inject_mcp_context :
        (options : McpContextInjectionOptions) (params : Fields)
        → IsSpanContext span
        → IsActionContext action
        → IsInteraction encode decode action.interaction_id
        → to_lower (traceparent span.trace_id span.span_id) ≡ traceparent span.trace_id span.span_id
        → options.baggage ≡ none
        → string_at (lit "baggage") (meta_of params) ≡ none
        → extract_mcp_context decode to_lower
            (inject_mcp_context encode (some span) (some action) options (object params))
          ≡ some (
              some (
                received span action
                  (inject_meta encode (some span) (some action) options (meta_of params))))
    unfolding extract_mcp_context extract_from inject_mcp_context inject_meta with_baggage
        with_interaction written
    extract_mcp_context-inject_mcp_context options params ids actions interaction lower unset
          empty =
        let meta = meta_of params in
        let before =
          with_tracestate options.tracestate
            (with_action (some action) (with_span (some span) meta)) in
        let whole : inject_meta encode (some span) (some action) options meta
            ≡ written encode span action options.tracestate meta =
          ap (λ b. with_baggage encode b (some action) before) unset in
        ap (extract_from decode to_lower) (
          get_field-set_field (lit "_meta")
            (object (inject_meta encode (some span) (some action) options meta)) params)
        ∙ (subst (λ m. extract_meta decode to_lower m ≡ some (some (received span action m)))
            (sym whole)
            (extract_written options.tracestate meta ids actions interaction lower empty))
