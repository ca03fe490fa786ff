-- ===== src/Redact/Tests.antt =====
-- The theorems about packages/obs-collector/src/plugins/redaction-processor.ts at concrete inputs. The
-- toy parser knows the few texts that the toy printer writes here.
use obs_unified.Common.{
  ℕ, ◌+◌, ◌≡◌, refl, leb, ◌&&◌, List, [], ◌∷◌, map, Option, none, some, All, if◌then◌else◌,
}
use obs_unified.Common.Text.{
  Text, lit, text_eq, is_space, trim, trim_end, split_on, ends_with, drop_empty,
}
use obs_unified.Common.Json.{
  Json, null, number, string, array, object, nil, item, end, field, set_field, parse_json_value,
}
use obs_unified.Redact.Processor.{
  has_text, ends_with_any, to_redaction_field_set, should_redact_key, redact_json_value,
  redact_json_string, Span, with_count, process_span, process,
}
use obs_unified.Redact.Laws.{IsClean, redacts, redact_json_value-IsClean, redact_twice}
use obs_unified.Redact.Spans.{SpanIsClean, process-IsClean}

program : Unit {0}
unfolding text_eq is_space trim trim_end split_on ends_with set_field parse_json_value drop_empty
    has_text ends_with_any to_redaction_field_set should_redact_key redact_json_value
    redact_json_string with_count process_span process IsClean
program = tt

abbrev ascii_lower : Text → Text
ascii_lower s = map (λ c. if leb b'A' c && leb c b'Z' then c + 32 else c) s

abbrev headers : Json
headers =
    object (field (lit "X-Token") (string (lit "t0p")) (field (lit "path") (string (lit "/")) end))

abbrev clean_headers : Json
clean_headers =
    object (
      field (lit "X-Token") (string (lit "[REDACTED]")) (field (lit "path") (string (lit "/")) end))

abbrev counted_headers : Json
counted_headers = object (
    field (lit "X-Token") (string (lit "[REDACTED]")) (
      field (lit "path") (string (lit "/"))
        (field (lit "collector.redaction.count") (number (lit "2")) end)))

redacted_once :
    redact_json_value ascii_lower
      (to_redaction_field_set ascii_lower (some (lit " Path2 ,,")))
      headers
    ≡ (clean_headers, 1)
unfolding program
redacted_once = refl

redacted_nested :
    (redact_json_value ascii_lower
      (to_redaction_field_set ascii_lower none)
      (array (item headers (item headers nil)))).1
    ≡ 2
unfolding program
redacted_nested = refl

abbrev fields : List Text
fields = lit "token" ∷ []

redact_json_value-IsClean_example :
    IsClean (redacts ascii_lower fields) (redact_json_value ascii_lower fields headers).0
redact_json_value-IsClean_example = redact_json_value-IsClean ascii_lower fields headers

redact_twice_example :
    redact_json_value ascii_lower fields (redact_json_value ascii_lower fields headers).0
    ≡ redact_json_value ascii_lower fields headers
redact_twice_example = redact_twice ascii_lower fields headers

-- The printer names the values at hand, and the parser knows the names.
abbrev toy_stringify : Json → Text
toy_stringify (object (field k (string s) (field k2 v (field k3 w rest)))) = lit "counted"
toy_stringify (object (field k v rest)) = lit "clean"
toy_stringify _ = lit "null"

abbrev toy_parse : Text → Option Json
toy_parse s =
    if text_eq s (lit "raw")
    then some headers
    else if text_eq s (lit "clean")
    then some clean_headers
    else if text_eq s (lit "counted")
    then some counted_headers
    else some null

abbrev number_text : ℕ → Text
number_text n = (b'0' + n) ∷ []

abbrev span : Span (Unit {0})
span = record {
  attributes_json = lit "raw";
  resource_attributes_json = lit "raw";
  events_json = lit "none";
  links_json = lit "none";
  others = tt;
}

abbrev span_fields : List Text
span_fields = to_redaction_field_set ascii_lower none

process-IsClean_example :
    All
      (SpanIsClean ascii_lower toy_parse toy_stringify number_text span_fields)
      (process ascii_lower toy_parse toy_stringify number_text none (span ∷ []))
unfolding program
process-IsClean_example =
    process-IsClean ascii_lower toy_parse toy_stringify number_text none (span ∷ []) refl (
      record {
        attributes = refl;
        resource_attributes = refl;
        events = refl;
        links = refl;
        counted = refl;
      },
      tt,
    )
