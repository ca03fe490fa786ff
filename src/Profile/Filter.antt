-- ===== src/Profile/Filter.antt =====
-- Filtering a profile, packages/obs-collector/src/lib/parse-pprof.ts, through the codec and beside the
-- trace ids that are extracted.
use obs_unified.Common.{
  ℕ, ◌<◌, ◌≡◌, ◌≢◌, ◌⊎◌, true, List, [], ◌∷◌, Option, some, inl, inr, length, get_elem?, All,
  All_mono, Bool-cases, Option-cases, Selects, arith,
}
use obs_unified.Common.Text.{Text, text_eq, text_eq_refl}
use obs_unified.Pprof.Double.{precise}
use obs_unified.Pprof.Reader.{ok}
use obs_unified.Pprof.Decode.{Label, Sample, Profile, decode_pprof_blob, is_gzip}
use obs_unified.Pprof.Encode.{encode_pprof}
use obs_unified.Pprof.Messages.{SampleFits}
use obs_unified.Pprof.RoundTrip.{ProfileFits}
use obs_unified.Pprof.Blob.{decode_pprof_blob-encode_pprof}
use obs_unified.Profile.Trace.{
  trace_id_key_ixs, has_index, is_trace_id, set_add, add_label, add_labels, add_samples,
  extract_trace_ids, matches_label, some_label, filter_samples, filtered, filter_pprof_by_trace_id,
}
use obs_unified.Profile.Selection.{Carries, filter_samples-Selects}

module _ (to_lower : Text → Text) where
  filter_samples-All :
      (P : Sample → Type 0) (ixs : List ℕ) (table : List Text) (want : Text) (samples : List Sample)
      → All P samples
      → All P (filter_samples to_lower ixs table want samples)
  unfolding filter_samples
  filter_samples-All P ixs table want [] h = tt
  filter_samples-All P ixs table want (sample ∷ samples) (here, h) =
      elim (Bool-cases (some_label to_lower ixs table want sample.labels)) [
        | inl kept ↦ rw kept (here, filter_samples-All P ixs table want samples h)
        | inr left ↦ rw left (filter_samples-All P ixs table want samples h)
      ]

  filtered-ProfileFits :
      (decode_text : List ℕ → Text) (encode_text : Text → List ℕ) (profile : Profile Text)
      (trace_id : Text)
      → ProfileFits decode_text encode_text profile
      → ProfileFits decode_text encode_text (filtered to_lower profile trace_id)
  unfolding filtered
  filtered-ProfileFits decode_text encode_text profile trace_id v = record {
    sample_types = v.sample_types;
    samples = filter_samples-All SampleFits _ _ _ profile.samples v.samples;
    locations = v.locations;
    location_keys = v.location_keys;
    functions = v.functions;
    function_keys = v.function_keys;
    texts = v.texts;
    text_bytes = v.text_bytes;
  }

  -- The blob that the filter writes decodes to the profile with some samples, all else as it was: those
  -- that have a label whose name in the string table is `trace_id` or `trace.id` and whose text is the
  -- trace id, in any case, in their order, and no other. This is for a profile that the format can hold
  -- and whose locations' function ids are those of their lines, an encoding below 2^53 bytes, a compressor
  -- that writes the magic bytes and a decompressor that undoes it.
  pub decode_pprof_blob-filter_pprof_by_trace_id :
      (decode_text : List ℕ → Text) (encode_text : Text → List ℕ)
      (gunzip : List ℕ → Option (List ℕ)) (gzip : List ℕ → List ℕ) (profile : Profile Text)
      (trace_id : Text)
      → ProfileFits decode_text encode_text profile
      → length (encode_pprof encode_text (filtered to_lower profile trace_id)) < precise
      → ((bytes : List ℕ) → is_gzip (gzip bytes) ≡ true)
      → ((bytes : List ℕ) → gunzip (gzip bytes) ≡ some bytes)
      → (kept : List Sample) × (decode_pprof_blob decode_text gunzip
            (filter_pprof_by_trace_id to_lower encode_text gzip profile trace_id)
          ≡ some (ok (record profile { samples = kept })))
        × Selects
            (λ (sample : Sample). Carries to_lower profile.string_table trace_id sample.labels)
            profile.samples
            kept
  unfolding filter_pprof_by_trace_id filtered
  decode_pprof_blob-filter_pprof_by_trace_id decode_text encode_text gunzip gzip profile trace_id v
        size magic undo =
      (
        (filtered to_lower profile trace_id).samples,
        (decode_pprof_blob-encode_pprof decode_text encode_text (filtered to_lower profile trace_id)
            (filtered-ProfileFits decode_text encode_text profile trace_id v) size gunzip gzip magic
            undo).1,
        filter_samples-Selects to_lower profile.string_table trace_id profile.samples,
      )

set_add-All :
    (P : Text → Type 0) (s : Text) (set : List Text) → P s → All P set → All P (set_add s set)
unfolding set_add
set_add-All P s [] here h = (here, tt)
set_add-All P s (other ∷ set) here (there, h) = elim (Bool-cases (text_eq other s)) [
  | inl same ↦ rw same (there, h)
  | inr apart ↦ rw apart (there, set_add-All P s set here h)
]

module _ (to_lower : Text → Text) (lower_once : (s : Text) → to_lower (to_lower s) ≡ to_lower s)
    (ixs : List ℕ) (table : List Text) where
  matches_itself :
      (label : Label) (value : Text)
      → has_index label.key_idx ixs ≡ true
      → get_elem? table label.str_idx ≡ some value
      → matches_label to_lower ixs table (to_lower (to_lower value)) label ≡ true
  unfolding matches_label
  matches_itself label value key found =
      rw (matches_label, key, found, lower_once value) (text_eq_refl (to_lower value))

  -- Of the ids after a step, each is from before or is found by what the step has read.
  add_label-All :
      (Old : Text → Type 0) (label : Label) (ids : List Text)
      → All Old ids
      → All
          (λ id. (matches_label to_lower ixs table (to_lower id) label ≡ true) ⊎ Old id)
          (add_label to_lower ixs table label ids)
  unfolding add_label
  add_label-All Old label ids old =
      let Now =
        λ (id : Text). (matches_label to_lower ixs table (to_lower id) label ≡ true) ⊎ Old id in
      let before = All_mono Old Now ids (λ id h. inr h) old in
      elim (Bool-cases (has_index label.key_idx ixs)) [
        | inr other_key ↦ rw (add_label, other_key) before
        | inl key ↦ elim (Option-cases (get_elem? table label.str_idx)) [
          | inl missing ↦ rw (add_label, key, missing) before
          | inr (value, found) ↦ elim (Bool-cases (is_trace_id value)) [
            | inr malformed ↦ rw (add_label, key, found, malformed) before
            | inl valid ↦
                rw (add_label, key, found, valid)
                  (set_add-All Now (to_lower value) ids (inl (matches_itself label value key found))
                    before)
          ]
        ]
      ]

  add_labels-All :
      (Old : Text → Type 0) (labels : List Label) (ids : List Text)
      → All Old ids
      → All
          (λ id. (some_label to_lower ixs table (to_lower id) labels ≡ true) ⊎ Old id)
          (add_labels to_lower ixs table labels ids)
  unfolding add_labels some_label
  add_labels-All Old [] ids old = All_mono _ _ ids (λ id h. inr h) old
  add_labels-All Old (label ∷ labels) ids old =
      All_mono _ _ (add_labels to_lower ixs table labels (add_label to_lower ixs table label ids))
        (λ id h. elim h [
          | inl later ↦ inl (ground arith)
          | inr (inl here) ↦ inl (ground arith)
          | inr (inr from_before) ↦ inr from_before
        ])
        (add_labels-All
          (λ id. (matches_label to_lower ixs table (to_lower id) label ≡ true) ⊎ Old id) labels
          (add_label to_lower ixs table label ids) (add_label-All Old label ids old))

  add_samples-All :
      (Old : Text → Type 0) (samples : List Sample) (ids : List Text)
      → All Old ids
      → All
          (λ id. (filter_samples to_lower ixs table (to_lower id) samples ≢ []) ⊎ Old id)
          (add_samples to_lower ixs table samples ids)
  unfolding add_samples filter_samples
  add_samples-All Old [] ids old = All_mono _ _ ids (λ id h. inr h) old
  add_samples-All Old (sample ∷ samples) ids old =
      All_mono _ _
        (add_samples to_lower ixs table samples (add_labels to_lower ixs table sample.labels ids))
        (λ id h. elim h [
          | inl later ↦ inl (still id later)
          | inr (inl here) ↦ inl (rw here (λ e. cc))
          | inr (inr from_before) ↦ inr from_before
        ])
        (add_samples-All
          (λ id. (some_label to_lower ixs table (to_lower id) sample.labels ≡ true) ⊎ Old id)
          samples (add_labels to_lower ixs table sample.labels ids)
          (add_labels-All Old sample.labels ids old))
    where
      still :
          (id : Text)
          → filter_samples to_lower ixs table (to_lower id) samples ≢ []
          → filter_samples to_lower ixs table (to_lower id) (sample ∷ samples) ≢ []
      still id later =
          elim (Bool-cases (some_label to_lower ixs table (to_lower id) sample.labels)) [
            | inl kept ↦ rw kept (λ e. cc)
            | inr left ↦ rw left later
          ]

-- Filtering by an id that was extracted from the profile leaves at least one sample, where lowering a
-- text twice is lowering it once.
pub extract_trace_ids-filtered :
    (to_lower : Text → Text) (profile : Profile Text)
    → ((s : Text) → to_lower (to_lower s) ≡ to_lower s)
    → All (λ id. (filtered to_lower profile id).samples ≢ []) (extract_trace_ids to_lower profile)
unfolding extract_trace_ids filtered
extract_trace_ids-filtered to_lower profile lower_once =
    by_keys (trace_id_key_ixs 0 profile.string_table)
  where
    table : List Text
    table = profile.string_table

    by_keys :
        (ixs : List ℕ)
        → All
            (λ id. filter_samples to_lower ixs table (to_lower id) profile.samples ≢ [])
            (elim ixs as (λ x. List Text) [
              | [] ↦ []
              | i ∷ more ↦ add_samples to_lower (i ∷ more) table profile.samples []
            ])
    by_keys [] = tt
    by_keys (i ∷ more) =
        All_mono _ _ (add_samples to_lower (i ∷ more) table profile.samples [])
          (λ id h. elim h [ inl kept ↦ kept | inr none_before ↦ absurd none_before ])
          (add_samples-All to_lower lower_once (i ∷ more) table (λ id. ⊥) profile.samples [] tt)
