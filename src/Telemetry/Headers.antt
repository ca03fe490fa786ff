-- ===== src/Telemetry/Headers.antt =====
-- The headers that carry a trace, an action and an interaction: `parseTraceparent`, `parseActionHeader`
-- and `parseInteractionHeader` of packages/telemetry-sdk/src/span.ts. `toLowerCase` is a parameter.
use obs_unified.Common.{
  ℕ, zero, suc, Bool, true, false, ◌&&◌, ◌||◌, [], ◌∷◌, Option, none, some, length, leb, ◌==◌,
  if◌then◌else◌,
}
use obs_unified.Common.Text.{Text, trim}

abbrev pub is_lower_hex : ℕ → Bool
is_lower_hex c = (leb b'0' c && leb c b'9') || (leb b'a' c && leb c b'f')

-- `[0-9A-HJKMNP-TV-Z]`
abbrev pub is_crockford : ℕ → Bool
is_crockford c =
    (leb b'0' c && leb c b'9')
    || (leb b'A' c && leb c b'H')
    || c == b'J'
    || c == b'K'
    || c == b'M'
    || c == b'N'
    || (leb b'P' c && leb c b'T')
    || (leb b'V' c && leb c b'Z')

unfoldable pub every : (ℕ → Bool) → Text → Bool
every test [] = true
every test (c ∷ s) = test c && every test s

-- `/^0+$/`
unfoldable pub all_zero : Text → Bool
unfolding every
all_zero [] = false
all_zero (c ∷ s) = every (λ d. d == b'0') (c ∷ s)

-- A group of `n` hexadecimal digits, and the text behind it
unfoldable pub take_hex : ℕ → Text → Option (Text × Text)
take_hex zero s = some ([], s)
take_hex (suc n) [] = none
take_hex (suc n) (c ∷ s) =
    let rest = take_hex n s in
    if is_lower_hex c
    then elim rest [ none ↦ none | some (digits, behind) ↦ some (c ∷ digits, behind) ]
    else none

unfoldable pub hex_then : {A : Type 0} → ℕ → Text → (Text → Text → Option A) → Option A
unfolding take_hex
hex_then n s next = elim (take_hex n s) [ none ↦ none | some (digits, behind) ↦ next digits behind ]

unfoldable pub dash_then : {A : Type 0} → Text → (Text → Option A) → Option A
dash_then [] next = none
dash_then (c ∷ s) next = if c == b'-' then next s else none

unfoldable pub end_then : {A : Type 0} → Text → A → Option A
end_then [] result = some result
end_then (c ∷ behind) result = none

-- The ids that `TRACEPARENT_RE` captures, from its end to its beginning
unfoldable pub after_parent : Text → Text → Text → Option (Text × Text)
unfolding hex_then dash_then end_then
after_parent trace_id parent_span_id s =
    dash_then s (λ s'. hex_then 2 s' (λ flags behind. end_then behind (trace_id, parent_span_id)))

unfoldable pub after_trace : Text → Text → Option (Text × Text)
unfolding hex_then dash_then after_parent
after_trace trace_id s = dash_then s (λ s'. hex_then 16 s' (after_parent trace_id))

unfoldable pub after_version : Text → Text → Option (Text × Text)
unfolding hex_then dash_then after_trace
after_version version s = dash_then s (λ s'. hex_then 32 s' after_trace)

unfoldable pub match_traceparent : Text → Option (Text × Text)
unfolding hex_then after_version
match_traceparent s = hex_then 2 s after_version

pub record IncomingTraceContext : Type 0 where
  pub trace_id : Text
  pub parent_span_id : Text

-- The ids, unless one is zero throughout
unfoldable pub context_of : Option (Text × Text) → Option IncomingTraceContext
unfolding all_zero
context_of none = none
context_of (some (trace_id, parent_span_id)) =
    if all_zero trace_id || all_zero parent_span_id
    then none
    else some (record { trace_id = trace_id; parent_span_id = parent_span_id })

unfoldable pub parse_traceparent : (Text → Text) → Option Text → Option IncomingTraceContext
unfolding match_traceparent context_of trim
parse_traceparent to_lower none = none
parse_traceparent to_lower (some []) = none
parse_traceparent to_lower (some (c ∷ header)) =
    context_of (match_traceparent (to_lower (trim (c ∷ header))))

unfoldable pub is_action_id : Text → Bool
unfolding every
is_action_id s = (length s == 26) && every is_crockford s

unfoldable pub parse_interaction_header : Option Text → Option Text
unfolding is_action_id trim
parse_interaction_header none = none
parse_interaction_header (some []) = none
parse_interaction_header (some (c ∷ header)) =
    let trimmed = trim (c ∷ header) in if is_action_id trimmed then some trimmed else none

unfoldable pub parse_action_header : Option Text → Option Text
unfolding is_action_id trim
parse_action_header none = none
parse_action_header (some []) = none
parse_action_header (some (c ∷ header)) =
    let trimmed = trim (c ∷ header) in if is_action_id trimmed then some trimmed else none
