-- ===== src/Redact/Laws.antt =====
-- What `redactJsonValue` of packages/obs-collector/src/plugins/redaction-processor.ts leaves.
use obs_unified.Common.{
  ℕ, suc, ◌+◌, ◌≡◌, refl, ap, ap₂, Bool, List, inl, inr, Bool-cases, if◌then◌else◌,
}
use obs_unified.Common.Text.{Text}
use obs_unified.Common.Json.{
  Json, null, boolean, number, string, array, object, Items, nil, item, Fields, end, field,
}
use obs_unified.Redact.Processor.{
  redacted_value, should_redact_key, redact_json_value, redact_items, redact_entries,
}

-- At every depth each field with a key to redact holds the redacted value, and every other field holds
-- a clean one.
unfoldable mutual
  pub IsClean : (Text → Bool) → Json → Type 0
  IsClean redacts null = Unit
  IsClean redacts (boolean b) = Unit
  IsClean redacts (number n) = Unit
  IsClean redacts (string s) = Unit
  IsClean redacts (array items) = IsCleanItems redacts items
  IsClean redacts (object entries) = IsCleanEntries redacts entries

  pub IsCleanItems : (Text → Bool) → Items → Type 0
  IsCleanItems redacts nil = Unit
  IsCleanItems redacts (item value items) = IsClean redacts value × IsCleanItems redacts items

  pub IsCleanEntries : (Text → Bool) → Fields → Type 0
  IsCleanEntries redacts end = Unit
  IsCleanEntries redacts (field key value entries) =
      (if redacts key then value ≡ string redacted_value else IsClean redacts value)
      × IsCleanEntries redacts entries

module _ (to_lower : Text → Text) (fs : List Text) where
  abbrev pub redacts : Text → Bool
  redacts key = should_redact_key to_lower key fs

  mutual
    unfolding redact_json_value IsClean

    value-IsClean : (value : Json) → IsClean redacts (redact_json_value to_lower fs value).0
    value-IsClean null = tt
    value-IsClean (boolean b) = tt
    value-IsClean (number n) = tt
    value-IsClean (string s) = tt
    value-IsClean (array items) = items-IsClean items
    value-IsClean (object entries) = entries-IsClean entries

    items-IsClean : (items : Items) → IsCleanItems redacts (redact_items to_lower fs items).0
    items-IsClean nil = tt
    items-IsClean (item value items) = (value-IsClean value, items-IsClean items)

    entries-IsClean :
        (entries : Fields) → IsCleanEntries redacts (redact_entries to_lower fs entries).0
    entries-IsClean end = tt
    entries-IsClean (field key value entries) = elim (Bool-cases (redacts key)) [
      | inl yes_key ↦
          rw (redact_entries, yes_key, IsCleanEntries, yes_key) (refl, entries-IsClean entries)
      | inr no_key ↦
          rw (redact_entries, no_key, IsCleanEntries, no_key)
            (value-IsClean value, entries-IsClean entries)
    ]

  -- Redacting what is redacted changes nothing, and counts the same fields again.
  mutual
    unfolding redact_json_value

    value_again :
        (value : Json)
        → redact_json_value to_lower fs (redact_json_value to_lower fs value).0
          ≡ redact_json_value to_lower fs value
    value_again null = refl
    value_again (boolean b) = refl
    value_again (number n) = refl
    value_again (string s) = refl
    value_again (array items) = ap (λ (r : Items × ℕ). (array r.0, r.1)) (items_again items)
    value_again (object entries) =
        ap (λ (r : Fields × ℕ). (object r.0, r.1)) (entries_again entries)

    items_again :
        (items : Items)
        → redact_items to_lower fs (redact_items to_lower fs items).0
          ≡ redact_items to_lower fs items
    items_again nil = refl
    items_again (item value items) =
        ap₂ (λ (v : Json × ℕ) (r : Items × ℕ). (item v.0 r.0, v.1 + r.1)) (value_again value)
          (items_again items)

    entries_again :
        (entries : Fields)
        → redact_entries to_lower fs (redact_entries to_lower fs entries).0
          ≡ redact_entries to_lower fs entries
    entries_again end = refl
    entries_again (field key value entries) = elim (Bool-cases (redacts key)) [
      | inl yes_key ↦
          rw (redact_entries, yes_key, redact_entries, yes_key)
            (ap (λ (r : Fields × ℕ). (field key (string redacted_value) r.0, suc r.1))
              (entries_again entries))
      | inr no_key ↦
          rw (redact_entries, no_key, redact_entries, no_key)
            (ap₂ (λ (v : Json × ℕ) (r : Fields × ℕ). (field key v.0 r.0, v.1 + r.1))
              (value_again value) (entries_again entries))
    ]

  pub redact_json_value-IsClean :
      (value : Json) → IsClean redacts (redact_json_value to_lower fs value).0
  redact_json_value-IsClean value = value-IsClean value

  -- Redacting twice is redacting once: the same value, and the same count.
  pub redact_twice :
      (value : Json)
      → redact_json_value to_lower fs (redact_json_value to_lower fs value).0
        ≡ redact_json_value to_lower fs value
  redact_twice value = value_again value
