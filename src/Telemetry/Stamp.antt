-- ===== src/Telemetry/Stamp.antt =====
-- The stamping of a span from a request's headers: `stampInteractionFromRequest`, `stampActionFromRequest`
-- and `stampIdentityFromRequest` of packages/telemetry-sdk/src/span.ts. `headers.get` is a parameter.
use obs_unified.Common.{
  ◌≡◌, refl, subst, sym, ◌∙◌, true, false, List, [], ◌∷◌, Option, none, some, length, ◌==◌,
  Bool-cases, arith, inl, inr, if◌then◌else◌,
}
use obs_unified.Common.Text.{Text, lit, text_eq, text_eq_refl, text_eq_iff, truthy, trim}
use obs_unified.Telemetry.Otlp.{OtlpAnyValue, string_value, OtlpKeyValue}
use obs_unified.Telemetry.Headers.{is_action_id, parse_interaction_header, parse_action_header}
use obs_unified.Telemetry.Mcp.{AgentActionContext}
use obs_unified.Telemetry.Span.{a_string, to_kv, set_or_replace_kv}
use obs_unified.Telemetry.Baggage.{IsActionId}

pub record IncomingActionContext : Type 0 where
  pub action_id : Text
  pub root_action_id : Text
  pub caused_by_action_id : Option Text

-- The attributes of the span, and what `agentContextStorage` holds
pub record Stamped : Type 0 where
  pub attributes : List OtlpKeyValue
  pub active : Option AgentActionContext

unfoldable pub anonymous_inbound_action_context :
    IncomingActionContext → Option Text → AgentActionContext
anonymous_inbound_action_context context interaction_id = record {
  action_id = context.action_id;
  root_action_id = context.root_action_id;
  caused_by_action_id = context.caused_by_action_id;
  interaction_id = interaction_id;
  agent_run_id = none;
  actor_type = lit "unknown";
  actor_id = none;
}

-- The context of the two headers, each of which stands in for the other
unfoldable pub from_ids : Option Text → Option Text → Option IncomingActionContext
from_ids none none = none
from_ids (some root) none =
    some (record { action_id = root; root_action_id = root; caused_by_action_id = none })
from_ids none (some action) =
    some (record { action_id = action; root_action_id = action; caused_by_action_id = none })
from_ids (some root) (some action) =
    some (record { action_id = action; root_action_id = root; caused_by_action_id = none })

abbrev pub set_text : Text → Text → Stamped → Stamped
set_text key value s = record s { attributes = set_or_replace_kv s.attributes key (a_string value) }

abbrev pub set_if : Text → Option Text → Stamped → Stamped
set_if key none s = s
set_if key (some value) s = if truthy (some value) then set_text key value s else s

-- An interaction's id stands in for missing headers.
unfoldable pub or_interaction :
    Option IncomingActionContext → Option Text → Option IncomingActionContext
unfolding from_ids
or_interaction none interaction_id = from_ids none interaction_id
or_interaction (some context) interaction_id = some context

unfoldable pub stamp_context :
    Option Text → Option IncomingActionContext → Stamped → Stamped × Option IncomingActionContext
unfolding set_or_replace_kv anonymous_inbound_action_context
stamp_context interaction_id none s = (s, none)
stamp_context interaction_id (some context) s =
    let s₁ = set_if (lit "obs.interaction.id") interaction_id s in
    let s₂ =
      set_text (lit "obs.action.root_id") context.root_action_id
        (set_text (lit "obs.action.id") context.action_id s₁) in
    let s₃ = set_if (lit "obs.action.caused_by_id") context.caused_by_action_id s₂ in
    (
      record s₃ { active = some (anonymous_inbound_action_context context interaction_id) },
      some context,
    )

module _ (header : Text → Option Text) where
  unfoldable pub parse_action_headers : Option IncomingActionContext
  unfolding from_ids parse_action_header
  parse_action_headers =
      from_ids (parse_action_header (header (lit "x-obs-root-action")))
        (parse_action_header (header (lit "x-obs-action")))

  unfoldable pub stamp_interaction : Stamped → Stamped × Option Text
  unfolding set_or_replace_kv parse_interaction_header
  stamp_interaction s = elim (parse_interaction_header (header (lit "x-obs-interaction"))) [
    | none ↦ (s, none)
    | some id ↦ (set_text (lit "obs.interaction.id") id s, some id)
  ]

  unfoldable pub stamp_action : Stamped → Stamped × Option IncomingActionContext
  unfolding parse_interaction_header parse_action_headers or_interaction stamp_context
  stamp_action s =
      let interaction_id = parse_interaction_header (header (lit "x-obs-interaction")) in
      stamp_context interaction_id (or_interaction parse_action_headers interaction_id) s

  unfoldable pub stamp_identity : Stamped → Stamped × (Option Text × Option IncomingActionContext)
  unfolding stamp_interaction stamp_action
  stamp_identity s =
      let (s₁, interaction_id) = stamp_interaction s in
      let (s₂, context) = stamp_action s₁ in (s₂, (interaction_id, context))

is_action_id-IsActionId : (s : Text) → is_action_id s ≡ true → IsActionId s
unfolding is_action_id
is_action_id-IsActionId s h = elim (Bool-cases (length s == 26)) [
  | inl long ↦ record { long = ground arith; digits = rw long at h }
  | inr other ↦ cc (rw other at h)
]

parse_action_header-IsActionId :
    (h : Option Text) (s : Text) → parse_action_header h ≡ some s → IsActionId s
unfolding parse_action_header
parse_action_header-IsActionId none s e = cc e
parse_action_header-IsActionId (some []) s e = cc e
parse_action_header-IsActionId (some (c ∷ h)) s e =
    elim (Bool-cases (is_action_id (trim (c ∷ h)))) [
      | inl valid ↦
          let same : trim (c ∷ h) ≡ s = cc (rw valid at e) in
          subst IsActionId same (is_action_id-IsActionId (trim (c ∷ h)) valid)
      | inr other ↦ cc (rw other at e)
    ]

parse_interaction_header-IsActionId :
    (h : Option Text) (s : Text) → parse_interaction_header h ≡ some s → IsActionId s
unfolding parse_interaction_header
parse_interaction_header-IsActionId none s e = cc e
parse_interaction_header-IsActionId (some []) s e = cc e
parse_interaction_header-IsActionId (some (c ∷ h)) s e =
    elim (Bool-cases (is_action_id (trim (c ∷ h)))) [
      | inl valid ↦
          let same : trim (c ∷ h) ≡ s = cc (rw valid at e) in
          subst IsActionId same (is_action_id-IsActionId (trim (c ∷ h)) valid)
      | inr other ↦ cc (rw other at e)
    ]

unfoldable pub IsValid : Option Text → Type 0
IsValid none = Unit
IsValid (some s) = IsActionId s

IsValid-of_some : (o : Option Text) → ((s : Text) → o ≡ some s → IsActionId s) → IsValid o
unfolding IsValid
IsValid-of_some none h = tt
IsValid-of_some (some s) h = h s refl

-- The value under a key
unfoldable pub attribute_at : Text → List OtlpKeyValue → Option OtlpAnyValue
attribute_at key [] = none
attribute_at key (kv ∷ attributes) =
    if text_eq kv.key key then some kv.value else attribute_at key attributes

attribute_at_set :
    (key value : Text) (attributes : List OtlpKeyValue)
    → attribute_at key (set_or_replace_kv attributes key (a_string value))
      ≡ some (string_value value)
unfolding attribute_at set_or_replace_kv to_kv
attribute_at_set key value [] = rw (text_eq_refl key) refl
attribute_at_set key value (kv ∷ attributes) = elim (Bool-cases (text_eq kv.key key)) [
  | inl same ↦ rw same (rw (text_eq_refl key) refl)
  | inr apart ↦ rw apart (rw apart (attribute_at_set key value attributes))
]

attribute_at_other :
    (wanted key value : Text) (attributes : List OtlpKeyValue)
    → text_eq key wanted ≡ false
    → attribute_at wanted (set_or_replace_kv attributes key (a_string value))
      ≡ attribute_at wanted attributes
unfolding attribute_at set_or_replace_kv to_kv
attribute_at_other wanted key value [] apart = rw apart refl
attribute_at_other wanted key value (kv ∷ attributes) apart =
    elim (Bool-cases (text_eq kv.key key)) [
      | inl same ↦
          let differs =
            subst (λ k. text_eq k wanted ≡ false) (sym ((text_eq_iff kv.key key).0 same)) apart in
          rw same (rw apart (rw differs refl))
      | inr differs ↦ rw differs (elim (Bool-cases (text_eq kv.key wanted)) [
        | inl here ↦ rw here refl
        | inr there ↦ rw there (attribute_at_other wanted key value attributes apart)
      ])
    ]

-- The first of three ids that is there
abbrev pub first_of : Option Text → Option Text → Option Text → Option Text
first_of (some a) b c = some a
first_of none (some b) c = some b
first_of none none c = c

-- The ids of the action's, the root's and the interaction's header are none and nothing was stamped; or
-- the context returned has valid ids, each the one of its own header, or else of the others, and they
-- stand in the attributes and in the active context, with the interaction's id.
unfoldable pub IsStamped :
    Option Text
    → Option Text
    → Option Text
    → Stamped
    → Stamped × Option IncomingActionContext
    → Type 0
IsStamped action root id s (s', none) = (first_of action root id ≡ none) × (s' ≡ s)
IsStamped action root id s (s', some context) =
    (some context.action_id ≡ first_of action root id)
    × (some context.root_action_id ≡ first_of root action id)
    × IsActionId context.action_id
    × IsActionId context.root_action_id
    × (s'.active
        ≡ some (record {
          action_id = context.action_id;
          root_action_id = context.root_action_id;
          caused_by_action_id = none;
          interaction_id = id;
          agent_run_id = none;
          actor_type = lit "unknown";
          actor_id = none;
        }))
    × (attribute_at (lit "obs.action.id") s'.attributes ≡ some (string_value context.action_id))
    × (attribute_at (lit "obs.action.root_id") s'.attributes
        ≡ some (string_value context.root_action_id))

module _ (id : Option Text) (s : Stamped) where
  stamp_context_ids :
      (action root : Text) (a r i : Option Text)
      → IsActionId action
      → IsActionId root
      → some action ≡ first_of a r i
      → some root ≡ first_of r a i
      → i ≡ id
      → IsStamped a r i s (
          stamp_context id
            (some
              (record { action_id = action; root_action_id = root; caused_by_action_id = none }))
            s)
  unfolding stamp_context anonymous_inbound_action_context IsStamped text_eq
  stamp_context_ids action root a r i action_valid root_valid first second same =
      let before = (set_if (lit "obs.interaction.id") id s).attributes in
      let with_action = set_or_replace_kv before (lit "obs.action.id") (a_string action) in
      (
        first,
        second,
        action_valid,
        root_valid,
        rw same refl,
        attribute_at_other (lit "obs.action.id") (lit "obs.action.root_id") root with_action refl
            ∙ attribute_at_set (lit "obs.action.id") action before,
        attribute_at_set (lit "obs.action.root_id") root with_action,
      )

none_stamped : (s : Stamped) → IsStamped none none none s (stamp_context none none s)
unfolding IsStamped stamp_context
none_stamped s = (refl, refl)

stamp_context-IsStamped :
    (root action id : Option Text) (s : Stamped)
    → IsValid root
    → IsValid action
    → IsValid id
    → IsStamped action root id s (stamp_context id (or_interaction (from_ids root action) id) s)
unfolding or_interaction from_ids IsValid
stamp_context-IsStamped (some root) (some action) id s r a i =
    stamp_context_ids id s action root (some action) (some root) id a r refl refl refl
stamp_context-IsStamped (some root) none id s r a i =
    stamp_context_ids id s root root none (some root) id r r refl refl refl
stamp_context-IsStamped none (some action) id s r a i =
    stamp_context_ids id s action action (some action) none id a a refl refl refl
stamp_context-IsStamped none none (some id) s r a i =
    stamp_context_ids (some id) s id id none none (some id) i i refl refl refl
stamp_context-IsStamped none none none s r a i = none_stamped s

-- Whatever headers a request has, with the valid ids in the headers of the action, the root and the
-- interaction: where there are none, stampActionFromRequest leaves the span and the active context as
-- they are and returns nothing. Else the action returned has the id of its header, or else of the
-- root's, or else the interaction's, and the root likewise its own, the action's or the interaction's.
-- Both are valid, stand in the span's attributes, and are those of the context made active, which has
-- the interaction's id, no cause and no run, and an actor that is unknown.
pub stamp_action-IsStamped :
    (header : Text → Option Text) (s : Stamped)
    → IsStamped
        (parse_action_header (header (lit "x-obs-action")))
        (parse_action_header (header (lit "x-obs-root-action")))
        (parse_interaction_header (header (lit "x-obs-interaction")))
        s
        (stamp_action header s)
unfolding stamp_action parse_action_headers
stamp_action-IsStamped header s =
    let id = header (lit "x-obs-interaction") in
    let root = header (lit "x-obs-root-action") in
    let action = header (lit "x-obs-action") in
    stamp_context-IsStamped (parse_action_header root) (parse_action_header action)
      (parse_interaction_header id) s
      (IsValid-of_some (parse_action_header root) (parse_action_header-IsActionId root))
      (IsValid-of_some (parse_action_header action) (parse_action_header-IsActionId action))
      (IsValid-of_some (parse_interaction_header id) (parse_interaction_header-IsActionId id))
