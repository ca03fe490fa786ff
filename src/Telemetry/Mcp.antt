-- ===== src/Telemetry/Mcp.antt =====
-- The context that a request of the Model Context Protocol carries in `params._meta`: `injectMcpContext` and
-- `extractMcpContext` of packages/telemetry-sdk/src/mcp.ts. `encodeURIComponent`, `decodeURIComponent`
-- (none where it throws) and `toLowerCase` are parameters.
use obs_unified.Common.{
  Bool, true, false, ◌||◌, List, [], ◌∷◌, ◌++◌, map, Option, none, some, or_default, if◌then◌else◌,
}
use obs_unified.Common.Text.{Text, lit, text_eq, truthy, trim, split_on, drop_empty}
use obs_unified.Common.Json.{Json, string, array, object, Fields, end, set_field, get_field}
use obs_unified.Telemetry.Headers.{
  IncomingTraceContext, parse_traceparent, parse_interaction_header, parse_action_header,
}

-- The ids of the active span
pub record ActiveSpan : Type 0 where
  pub trace_id : Text
  pub span_id : Text

pub record AgentActionContext : Type 0 where
  pub action_id : Text
  pub root_action_id : Text
  pub caused_by_action_id : Option Text
  pub interaction_id : Option Text
  pub agent_run_id : Option Text
  pub actor_type : Text
  pub actor_id : Option Text

pub record McpContextInjectionOptions : Type 0 where
  pub tracestate : Option Text
  pub baggage : Option Text

pub record McpContext : Type 0 where
  pub trace_context : Option IncomingTraceContext
  pub action_context : Option AgentActionContext
  pub tracestate : Option Text
  pub baggage : Option Text

abbrev pub interaction_key : Text
interaction_key = lit "obs.interaction.id"

-- `entries.join(",")`
unfoldable pub join : List Text → Text
join [] = []
join (entry ∷ []) = entry
join (entry ∷ next ∷ entries) = entry ++ b',' ∷ join (next ∷ entries)

unfoldable pub has_key : Text → List Text → Bool
unfolding text_eq split_on trim
has_key key [] = false
has_key key (entry ∷ entries) =
    elim (split_on b'=' entry) [ [] ↦ false | name ∷ rest ↦ text_eq (trim name) key ]
    || has_key key entries

abbrev pub text_of : Option Json → Option Text
text_of (some (string s)) = some s
text_of _ = none

-- A string under the key, or none
unfoldable pub string_at : Text → Fields → Option Text
unfolding get_field
string_at key fields = text_of (get_field key fields)

abbrev pub or_option {ℓ} : {A : Type ℓ} → Option A → Option A → Option A
or_option none other = other
or_option (some a) other = some a

-- The fields of a value that is an object and not null; an array has none of those that are read.
abbrev pub fields_of : Json → Option Fields
fields_of (object fields) = some fields
fields_of (array items) = some end
fields_of _ = none

unfoldable pub with_span : Option ActiveSpan → Fields → Fields
unfolding set_field
with_span none meta = meta
with_span (some span) meta =
    set_field (lit "traceparent")
      (string (lit "00-" ++ (span.trace_id ++ b'-' ∷ (span.span_id ++ lit "-01")))) meta

unfoldable pub with_action : Option AgentActionContext → Fields → Fields
unfolding set_field
with_action none meta = meta
with_action (some action) meta =
    let ids =
      set_field (lit "root_action_id") (string action.root_action_id)
        (set_field (lit "action_id") (string action.action_id) end) in
    set_field (lit "obs") (object ids) (
      set_field (lit "obs.action.id") (string action.action_id)
        (set_field (lit "obs.action.root_id") (string action.root_action_id) meta))

unfoldable pub with_tracestate : Option Text → Fields → Fields
unfolding set_field
with_tracestate none meta = meta
with_tracestate (some s) meta =
    if truthy (some s) then set_field (lit "tracestate") (string s) meta else meta

-- `params._meta || {}`
unfoldable pub meta_of : Fields → Fields
unfolding get_field
meta_of params = elim (get_field (lit "_meta") params) [ some (object fields) ↦ fields | _ ↦ end ]

module _ (encode : Text → Text) where
  unfoldable pub append_baggage_pair : Text → Text → Text → Text
  unfolding join has_key split_on trim drop_empty
  append_baggage_pair baggage key value =
      let pair = encode key ++ b'=' ∷ encode value in
      let entries = drop_empty (map trim (split_on b',' baggage)) in
      if truthy (some baggage)
      then (if has_key key entries then join entries else join (entries ++ pair ∷ []))
      else pair

  unfoldable pub put_interaction : Option Text → Fields → Fields
  unfolding set_field string_at append_baggage_pair
  put_interaction none meta = meta
  put_interaction (some id) meta =
      let baggage =
        append_baggage_pair (or_default (string_at (lit "baggage") meta) []) interaction_key id in
      if truthy (some id) then set_field (lit "baggage") (string baggage) meta else meta

  unfoldable pub with_interaction : Option AgentActionContext → Fields → Fields
  unfolding put_interaction
  with_interaction none meta = meta
  with_interaction (some action) meta = put_interaction action.interaction_id meta

  unfoldable pub with_baggage : Option Text → Option AgentActionContext → Fields → Fields
  unfolding set_field with_interaction
  with_baggage none action meta = with_interaction action meta
  with_baggage (some baggage) action meta =
      if truthy (some baggage)
      then set_field (lit "baggage") (string baggage) meta
      else with_interaction action meta

  unfoldable pub inject_meta :
      Option ActiveSpan → Option AgentActionContext → McpContextInjectionOptions → Fields → Fields
  unfolding with_span with_action with_tracestate with_baggage
  inject_meta span action options meta =
      with_baggage options.baggage action
        (with_tracestate options.tracestate (with_action action (with_span span meta)))

  -- The parameters are an object or null, and their `_meta`, where there is one, is an object.
  unfoldable pub inject_mcp_context :
      Option ActiveSpan → Option AgentActionContext → McpContextInjectionOptions → Json → Json
  unfolding inject_meta set_field meta_of
  inject_mcp_context span action options (object params) =
      object
        (set_field (lit "_meta") (object (inject_meta span action options (meta_of params))) params)
  inject_mcp_context span action options params = params

module _ (decode : Text → Option Text) where
  -- The parts of an entry, and what the entries behind it give; none where decoding throws
  unfoldable pub read_entry : List Text → Option (Option Text) → Option (Option Text)
  unfolding text_eq trim parse_interaction_header
  read_entry [] rest = rest
  read_entry (key ∷ []) rest = rest
  read_entry (key ∷ value ∷ more) rest =
      if truthy (some key)
      then elim (decode (trim key)) [
        | none ↦ none
        | some name ↦
            if text_eq name interaction_key
            then elim (decode (trim value)) [
              | none ↦ none
              | some id ↦ some (parse_interaction_header (some id))
            ]
            else rest
      ]
      else rest

  unfoldable pub find_interaction : List Text → Option (Option Text)
  unfolding read_entry split_on trim
  find_interaction [] = some none
  find_interaction (entry ∷ entries) =
      read_entry (split_on b'=' (trim entry)) (find_interaction entries)

  unfoldable pub parse_baggage_interaction_id : Option Text → Option (Option Text)
  unfolding find_interaction split_on
  parse_baggage_interaction_id none = some none
  parse_baggage_interaction_id (some []) = some none
  parse_baggage_interaction_id (some (c ∷ baggage)) = find_interaction (split_on b',' (c ∷ baggage))

abbrev pub agent_context : Option Text → Option Text → Option Text → Option AgentActionContext
agent_context (some root_action_id) (some action_id) interaction_id = some (record {
  action_id = action_id;
  root_action_id = root_action_id;
  caused_by_action_id = some action_id;
  interaction_id = interaction_id;
  agent_run_id = some root_action_id;
  actor_type = lit "agent";
  actor_id = none;
})
agent_context _ _ interaction_id = none

-- Whether a field of the context is set
abbrev pub is_some {ℓ} : {A : Type ℓ} → Option A → Bool
is_some none = false
is_some (some a) = true

-- The context, `undefined` where nothing is set; none where reading the baggage throws
abbrev pub context_from :
    Option (Option Text)
    → Option IncomingTraceContext
    → Option Text
    → Option Text
    → Option Text
    → Option Text
    → Option (Option McpContext)
context_from none trace_context root action tracestate baggage = none
context_from (some interaction_id) trace_context root action tracestate baggage =
    let action_context = agent_context root action interaction_id in
    if is_some trace_context || is_some action_context || truthy tracestate || truthy baggage
    then some (
        some (record {
          trace_context = trace_context;
          action_context = action_context;
          tracestate = tracestate;
          baggage = baggage;
        }))
    else some none

abbrev pub obs_fields : Option Json → Fields
obs_fields none = end
obs_fields (some json) = or_default (fields_of json) end

module _ (decode : Text → Option Text) (to_lower : Text → Text) where
  unfoldable pub extract_meta : Fields → Option (Option McpContext)
  unfolding string_at get_field parse_traceparent parse_action_header parse_baggage_interaction_id
  extract_meta meta =
      let obs = obs_fields (get_field (lit "obs") meta) in
      let baggage = string_at (lit "baggage") meta in
      context_from (parse_baggage_interaction_id decode baggage)
        (parse_traceparent to_lower (string_at (lit "traceparent") meta))
        (parse_action_header (
          or_option (string_at (lit "obs.action.root_id") meta)
            (string_at (lit "root_action_id") obs)))
        (parse_action_header
          (or_option (string_at (lit "obs.action.id") meta) (string_at (lit "action_id") obs)))
        (string_at (lit "tracestate") meta) baggage

  -- What `_meta` gives
  unfoldable pub extract_from : Option Json → Option (Option McpContext)
  unfolding extract_meta
  extract_from none = some none
  extract_from (some json) = elim (fields_of json) [
    | none ↦ some none
    | some meta ↦ extract_meta meta
  ]

  -- None where decoding throws
  unfoldable pub extract_mcp_context : Json → Option (Option McpContext)
  unfolding extract_from get_field
  extract_mcp_context (object params) = extract_from (get_field (lit "_meta") params)
  extract_mcp_context params = some none
