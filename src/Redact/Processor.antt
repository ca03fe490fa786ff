-- ===== src/Redact/Processor.antt =====
-- packages/obs-collector/src/plugins/redaction-processor.ts. `toLowerCase` and `JSON`'s two functions
-- are the parameters `to_lower`, `parse` and `stringify`.
use obs_unified.Common.{
  ℕ, suc, ◌+◌, Bool, true, false, ◌||◌, List, [], ◌∷◌, ◌++◌, map, Option, none, some, if◌then◌else◌,
}
use obs_unified.Common.Text.{Text, lit, text_eq, truthy, trim, split_on, ends_with, drop_empty}
use obs_unified.Common.Json.{
  Json, null, boolean, number, string, array, object, Items, nil, item, Fields, end, field,
  set_field, parse_json_value,
}

abbrev pub default_redact_fields : List Text
default_redact_fields =
    lit "authorization"
    ∷ lit "cookie"
    ∷ lit "set-cookie"
    ∷ lit "password"
    ∷ lit "passwd"
    ∷ lit "secret"
    ∷ lit "token"
    ∷ lit "api-key"
    ∷ lit "x-api-key"
    ∷ lit "email"
    ∷ lit "enduser.id"
    ∷ []

abbrev pub redacted_value : Text
redacted_value = lit "[REDACTED]"

abbrev pub redaction_count_key : Text
redaction_count_key = lit "collector.redaction.count"

-- `fields.has(key)`
unfoldable pub has_text : Text → List Text → Bool
unfolding text_eq
has_text key [] = false
has_text key (other ∷ fields) = text_eq other key || has_text key fields

unfoldable pub ends_with_any : Text → List Text → Bool
unfolding ends_with
ends_with_any key [] = false
ends_with_any key (suffix ∷ fields) = ends_with key suffix || ends_with_any key fields

-- `StoredSpan`: the four columns of JSON, and the others
pub record Span (Others : Type 0) : Type 0 where
  pub attributes_json : Text
  pub resource_attributes_json : Text
  pub events_json : Text
  pub links_json : Text
  pub others : Others

unfoldable pub with_count : Json → Json → Json
unfolding set_field text_eq
with_count count (object entries) = object (set_field redaction_count_key count entries)
with_count count other = other

module _ (to_lower : Text → Text) where
  -- A `Set` as the list of what is put into it
  unfoldable pub to_redaction_field_set : Option Text → List Text
  unfolding drop_empty split_on trim
  to_redaction_field_set none = default_redact_fields ++ []
  to_redaction_field_set (some extra_fields) =
      default_redact_fields
      ++ (if truthy (some extra_fields)
          then drop_empty (map (λ part. to_lower (trim part)) (split_on b',' extra_fields))
          else [])

  unfoldable pub should_redact_key : Text → List Text → Bool
  unfolding has_text ends_with_any
  should_redact_key key fields =
      if has_text (to_lower key) fields then true else ends_with_any (to_lower key) fields

  -- The value, and how many were redacted
  unfoldable mutual
    unfolding should_redact_key

    pub redact_json_value : List Text → Json → Json × ℕ
    redact_json_value fs null = (null, 0)
    redact_json_value fs (boolean b) = (boolean b, 0)
    redact_json_value fs (number n) = (number n, 0)
    redact_json_value fs (string s) = (string s, 0)
    redact_json_value fs (array items) =
        let (next_items, count) = redact_items fs items in (array next_items, count)
    redact_json_value fs (object entries) =
        let (next_entries, count) = redact_entries fs entries in (object next_entries, count)

    pub redact_items : List Text → Items → Items × ℕ
    redact_items fs nil = (nil, 0)
    redact_items fs (item value items) =
        let (next_value, here) = redact_json_value fs value in
        let (next_items, count) = redact_items fs items in
        (item next_value next_items, here + count)

    pub redact_entries : List Text → Fields → Fields × ℕ
    redact_entries fs end = (end, 0)
    redact_entries fs (field key value entries) =
        let (next_value, here) = redact_json_value fs value in
        let (next_entries, count) = redact_entries fs entries in
        if should_redact_key key fs
        then (field key (string redacted_value) next_entries, suc count)
        else (field key next_value next_entries, here + count)

  module _ (parse : Text → Option Json) (stringify : Json → Text) where
    unfoldable pub redact_json_string : Text → List Text → Text × ℕ
    unfolding redact_json_value parse_json_value
    redact_json_string value fs =
        let (next_value, count) = redact_json_value fs (parse_json_value parse value) in
        (stringify next_value, count)

    -- `number_text` is the text of a number.
    unfoldable pub process_span :
        {Others : Type 0} → (ℕ → Text) → List Text → Span Others → Span Others
    unfolding redact_json_string with_count parse_json_value
    process_span number_text fs span =
        let (attributes, a) = redact_json_string span.attributes_json fs in
        let (resource_attributes, r) = redact_json_string span.resource_attributes_json fs in
        let (events, e) = redact_json_string span.events_json fs in
        let (links, l) = redact_json_string span.links_json fs in
        record span {
          attributes_json = stringify (
              with_count (number (number_text (a + r + e + l)))
                (parse_json_value parse attributes));
          resource_attributes_json = resource_attributes;
          events_json = events;
          links_json = links;
        }

    unfoldable pub process :
        {Others : Type 0} → (ℕ → Text) → Option Text → List (Span Others) → List (Span Others)
    unfolding process_span to_redaction_field_set
    process number_text extra_fields spans =
        map (process_span number_text (to_redaction_field_set extra_fields)) spans
