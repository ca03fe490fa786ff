-- ===== src/Profile/Trace.antt =====
-- The trace ids of a profile: `extractTraceIdsFromProfile` and `filterPprofByTraceId` of
-- packages/obs-collector/src/lib/parse-pprof.ts. `toLowerCase` and the gzip stream are parameters.
use obs_unified.Common.{
  ℕ, suc, Bool, true, false, ◌&&◌, ◌||◌, List, [], ◌∷◌, none, some, length, get_elem?, leb, ◌==◌,
  if◌then◌else◌,
}
use obs_unified.Common.Text.{Text, lit, text_eq}
use obs_unified.Pprof.Decode.{Label, Sample, Profile}
use obs_unified.Pprof.Encode.{encode_pprof}

abbrev pub is_trace_id_label_key : Text → Bool
is_trace_id_label_key s = text_eq s (lit "trace_id") || text_eq s (lit "trace.id")

-- The indices, from `i` on, of the strings that name the label
unfoldable pub trace_id_key_ixs : ℕ → List Text → List ℕ
unfolding text_eq
trace_id_key_ixs i [] = []
trace_id_key_ixs i (s ∷ table) =
    let rest = trace_id_key_ixs (suc i) table in if is_trace_id_label_key s then i ∷ rest else rest

unfoldable pub has_index : ℕ → List ℕ → Bool
has_index i [] = false
has_index i (j ∷ ixs) = j == i || has_index i ixs

unfoldable pub all_hex : Text → Bool
all_hex [] = true
all_hex (c ∷ s) =
    ((leb b'0' c && leb c b'9') || (leb b'a' c && leb c b'f') || (leb b'A' c && leb c b'F'))
    && all_hex s

-- `/^[0-9a-f]{16,32}$/i`
unfoldable pub is_trace_id : Text → Bool
unfolding all_hex
is_trace_id s = leb 16 (length s) && leb (length s) 32 && all_hex s

-- `set.add(text)`
unfoldable pub set_add : Text → List Text → List Text
unfolding text_eq
set_add s [] = s ∷ []
set_add s (other ∷ set) = if text_eq other s then other ∷ set else other ∷ set_add s set

module _ (to_lower : Text → Text) where
  unfoldable pub add_label : List ℕ → List Text → Label → List Text → List Text
  unfolding set_add is_trace_id has_index
  add_label ixs table label trace_ids =
      if has_index label.key_idx ixs
      then elim (get_elem? table label.str_idx) [
        | none ↦ trace_ids
        | some value ↦ if is_trace_id value then set_add (to_lower value) trace_ids else trace_ids
      ]
      else trace_ids

  unfoldable pub add_labels : List ℕ → List Text → List Label → List Text → List Text
  unfolding add_label
  add_labels ixs table [] trace_ids = trace_ids
  add_labels ixs table (label ∷ labels) trace_ids =
      add_labels ixs table labels (add_label ixs table label trace_ids)

  unfoldable pub add_samples : List ℕ → List Text → List Sample → List Text → List Text
  unfolding add_labels
  add_samples ixs table [] trace_ids = trace_ids
  add_samples ixs table (sample ∷ samples) trace_ids =
      add_samples ixs table samples (add_labels ixs table sample.labels trace_ids)

  -- The early return for a profile without the label's name gives what the loops give.
  unfoldable pub extract_trace_ids : Profile Text → List Text
  unfolding add_samples trace_id_key_ixs
  extract_trace_ids profile = elim (trace_id_key_ixs 0 profile.string_table) [
    | [] ↦ []
    | i ∷ ixs ↦ add_samples (i ∷ ixs) profile.string_table profile.samples []
  ]

  unfoldable pub matches_label : List ℕ → List Text → Text → Label → Bool
  unfolding has_index text_eq
  matches_label ixs table want label =
      has_index label.key_idx ixs && elim (get_elem? table label.str_idx) [
        | none ↦ false
        | some value ↦ text_eq (to_lower value) want
      ]

  unfoldable pub some_label : List ℕ → List Text → Text → List Label → Bool
  unfolding matches_label
  some_label ixs table want [] = false
  some_label ixs table want (label ∷ labels) =
      matches_label ixs table want label || some_label ixs table want labels

  unfoldable pub filter_samples : List ℕ → List Text → Text → List Sample → List Sample
  unfolding some_label
  filter_samples ixs table want [] = []
  filter_samples ixs table want (sample ∷ samples) =
      let rest = filter_samples ixs table want samples in
      if some_label ixs table want sample.labels then sample ∷ rest else rest

  unfoldable pub filtered : Profile Text → Text → Profile Text
  unfolding filter_samples trace_id_key_ixs
  filtered profile trace_id = record profile {
    samples =
        filter_samples (trace_id_key_ixs 0 profile.string_table) profile.string_table
          (to_lower trace_id) profile.samples;
  }

  unfoldable pub filter_pprof_by_trace_id :
      (Text → List ℕ) → (List ℕ → List ℕ) → Profile Text → Text → List ℕ
  unfolding filtered
  filter_pprof_by_trace_id encode_text gzip profile trace_id =
      gzip (encode_pprof encode_text (filtered profile trace_id))
