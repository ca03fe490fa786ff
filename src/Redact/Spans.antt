-- ===== src/Redact/Spans.antt =====
-- Spans through packages/obs-collector/src/plugins/redaction-processor.ts.
use obs_unified.Common.{
  ℕ, ◌+◌, ◌≡◌, refl, Bool, false, List, [], ◌∷◌, Option, some, inl, inr, Bool-cases, All,
}
use obs_unified.Common.Text.{Text, text_eq, text_eq_iff}
use obs_unified.Common.Json.{
  Json, null, boolean, number, string, array, object, Fields, end, field, set_field,
  parse_json_value,
}
use obs_unified.Redact.Processor.{
  redaction_count_key, should_redact_key, to_redaction_field_set, redact_json_value,
  redact_json_string, Span, with_count, process_span, process,
}
use obs_unified.Redact.Laws.{IsClean, IsCleanEntries, redacts, redact_json_value-IsClean}

set_field-IsClean :
    (redacts : Text → Bool) (key text : Text) (entries : Fields)
    → redacts key ≡ false
    → IsCleanEntries redacts entries
    → IsCleanEntries redacts (set_field key (number text) entries)
unfolding set_field IsClean
set_field-IsClean redacts key text end open_key clean = rw open_key (tt, tt)
set_field-IsClean redacts key text (field other old entries) open_key (here, clean) =
    elim (Bool-cases (text_eq other key)) [
      | inl same ↦ rw (same, IsCleanEntries, (text_eq_iff other key).0 same, open_key) (tt, clean)
      | inr apart ↦
          rw (apart, IsCleanEntries)
            (here, set_field-IsClean redacts key text entries open_key clean)
    ]

module _ (to_lower : Text → Text) (parse : Text → Option Json) (stringify : Json → Text)
    (number_text : ℕ → Text) where
  with_count-IsClean :
      (fs : List Text) (text : Text) (value : Json)
      → should_redact_key to_lower redaction_count_key fs ≡ false
      → IsClean (redacts to_lower fs) value
      → IsClean (redacts to_lower fs) (with_count (number text) value)
  unfolding with_count IsClean
  with_count-IsClean fs text null open_key clean = tt
  with_count-IsClean fs text (boolean b) open_key clean = tt
  with_count-IsClean fs text (number n) open_key clean = tt
  with_count-IsClean fs text (string s) open_key clean = tt
  with_count-IsClean fs text (array items) open_key clean = clean
  with_count-IsClean fs text (object entries) open_key clean =
      set_field-IsClean (redacts to_lower fs) redaction_count_key text entries open_key clean

  -- What a column reads as
  abbrev pub read : Text → Json
  read column = parse_json_value parse column

  abbrev pub redact : List Text → Text → Json × ℕ
  redact fs column = redact_json_value to_lower fs (read column)

  -- What `JSON.stringify` writes for the value is parsed to it.
  abbrev pub Survives : Json → Type 0
  Survives json = parse (stringify json) ≡ some json

  -- So for what the processor writes into the four columns
  pub record SpanSurvives {Others : Type 0} (fs : List Text) (span : Span Others) : Type 0 where
    pub attributes : Survives (redact fs span.attributes_json).0
    pub resource_attributes : Survives (redact fs span.resource_attributes_json).0
    pub events : Survives (redact fs span.events_json).0
    pub links : Survives (redact fs span.links_json).0
    pub counted : Survives (
        with_count
          (number (
            number_text (
              (redact fs span.attributes_json).1
              + (redact fs span.resource_attributes_json).1
              + (redact fs span.events_json).1
              + (redact fs span.links_json).1)))
          (redact fs span.attributes_json).0)

  pub record SpanIsClean {Others : Type 0} (fs : List Text) (span : Span Others) : Type 0 where
    pub attributes : IsClean (redacts to_lower fs) (read span.attributes_json)
    pub resource_attributes : IsClean (redacts to_lower fs) (read span.resource_attributes_json)
    pub events : IsClean (redacts to_lower fs) (read span.events_json)
    pub links : IsClean (redacts to_lower fs) (read span.links_json)

  read-stringify : (json : Json) → Survives json → read (stringify json) ≡ json
  unfolding parse_json_value
  read-stringify json survives = rw (parse_json_value, survives) refl

  process_span-IsClean :
      {Others : Type 0} (fs : List Text) (span : Span Others)
      → should_redact_key to_lower redaction_count_key fs ≡ false
      → SpanSurvives fs span
      → SpanIsClean fs (process_span to_lower parse stringify number_text fs span)
  unfolding process_span redact_json_string
  process_span-IsClean fs span open_key s =
      let clean = λ (column : Text). redact_json_value-IsClean to_lower fs (read column) in
      record {
        attributes =
            rw (read-stringify _ s.attributes, read-stringify _ s.counted)
              (with_count-IsClean fs _ _ open_key (clean span.attributes_json));
        resource_attributes =
            rw (read-stringify _ s.resource_attributes) (clean span.resource_attributes_json);
        events = rw (read-stringify _ s.events) (clean span.events_json);
        links = rw (read-stringify _ s.links) (clean span.links_json);
      }

  -- Every span that the processor passes on is clean in all four columns, for the default fields and
  -- any that the environment adds, where the values written into the columns survive `JSON.stringify`
  -- and `JSON.parse`, and the key of the processor's own count is not one to redact.
  pub process-IsClean :
      {Others : Type 0} (extra_fields : Option Text) (spans : List (Span Others))
      → should_redact_key to_lower redaction_count_key
          (to_redaction_field_set to_lower extra_fields)
        ≡ false
      → All (SpanSurvives (to_redaction_field_set to_lower extra_fields)) spans
      → All
          (SpanIsClean (to_redaction_field_set to_lower extra_fields))
          (process to_lower parse stringify number_text extra_fields spans)
  unfolding process
  process-IsClean extra_fields [] open_key survive = tt
  process-IsClean extra_fields (span ∷ spans) open_key (here, survive) = (
    process_span-IsClean (to_redaction_field_set to_lower extra_fields) span open_key here,
    process-IsClean extra_fields spans open_key survive,
  )
