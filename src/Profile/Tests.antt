-- ===== src/Profile/Tests.antt =====
-- The theorems about packages/obs-collector/src/lib/parse-pprof.ts and
-- packages/dashboard/src/components/flame-graph/parse-pprof.ts at concrete inputs, and runs of them.
-- Texts are their bytes here, and gzip is its two magic bytes.
use obs_unified.Common.{
  flat_map, ℕ, ◌<◌, ◌≡◌, ◌≢◌, refl, true, List, [], ◌∷◌, Option, none, some, length, All, AllPairs,
  Selects, arith, ◌+◌,
}
use obs_unified.Common.Text.{Text, lit, text_eq}
use obs_unified.Pprof.Double.{precise, to_double, add}
use obs_unified.Pprof.Reader.{ok}
use obs_unified.Pprof.Decode.{Profile, Sample, decode_pprof_blob, is_gzip}
use obs_unified.Pprof.Encode.{
  new_builder, grow, push, push_all, to_array, varint_bytes, write_varint, write_tag,
  write_length_delimited, write_packed_varints, write_nonzero, encode_label, encode_sample,
  encode_value_type, encode_line, encode_location, encode_function, write_string, profile_bytes,
  encode_pprof,
}
use obs_unified.Pprof.RoundTrip.{ProfileFits}
use obs_unified.Profile.Trace.{
  trace_id_key_ixs, has_index, all_hex, is_trace_id, set_add, add_label, add_labels, add_samples,
  extract_trace_ids, matches_label, some_label, filter_samples, filtered, filter_pprof_by_trace_id,
}
use obs_unified.Profile.Selection.{Carries}
use obs_unified.Profile.Filter.{
  decode_pprof_blob-filter_pprof_by_trace_id, extract_trace_ids-filtered,
}
use obs_unified.Profile.Flame.{
  AggregateOptions, FlatNode, map_find, code_ref_of, frame_of, frames_at, frames_of, add_stack,
  has_label, sample_value, add_sample, add_all, aggregate_flame_tree, insert_sorted, sort_children,
  walk_children, flatten_flame_tree,
}
use obs_unified.Profile.Frames.{summarize_profile_frames}
use obs_unified.Profile.Top.{IsChosen, IsLimit, IsTop, occurrences, summarize_profile_frames-IsTop}
use obs_unified.Profile.Weights.{counted, IsSound, aggregate_flame_tree-IsSound}
use obs_unified.Profile.Layout.{IsWithin, IsApart, flatten_flame_tree-aggregate_flame_tree}

abbrev text : Text → Text
text s = s

abbrev sample_of : List ℕ → ℕ → ℕ → Sample
sample_of location_ids value str_idx = record {
  location_ids = location_ids;
  values = value ∷ [];
  labels = record { key_idx = 1; str_idx = str_idx; num = 0 } ∷ [];
}

-- `main` calls `work`; the second sample has no trace id, the third is in another function.
abbrev profile : Profile Text
profile = record {
  sample_types = [];
  samples = sample_of (2 ∷ 1 ∷ []) 30 2 ∷ sample_of (1 ∷ []) 5 0 ∷ sample_of (3 ∷ []) 50 2 ∷ [];
  locations =
      (
        1,
        record { id = 1; lines = record { function_id = 1; line = 4 } ∷ []; function_ids = 1 ∷ [] },
      )
      ∷ (
        2,
        record { id = 2; lines = record { function_id = 2; line = 0 } ∷ []; function_ids = 2 ∷ [] },
      )
      ∷ (
        3,
        record { id = 3; lines = record { function_id = 3; line = 9 } ∷ []; function_ids = 3 ∷ [] },
      )
      ∷ [];
  functions =
      (1, record { id = 1; name_idx = 3; filename_idx = 0 })
      ∷ (2, record { id = 2; name_idx = 4; filename_idx = 0 })
      ∷ (3, record { id = 3; name_idx = 5; filename_idx = 0 })
      ∷ [];
  string_table =
      [] ∷ lit "trace_id" ∷ lit "0123456789abcdef" ∷ lit "main" ∷ lit "work" ∷ lit "idle" ∷ [];
}

program : Unit {0}
unfolding text_eq trace_id_key_ixs has_index all_hex is_trace_id set_add add_label add_labels
    add_samples extract_trace_ids matches_label some_label filter_samples filtered
    filter_pprof_by_trace_id map_find code_ref_of frame_of frames_at frames_of add_stack has_label
    sample_value add_sample add_all aggregate_flame_tree insert_sorted sort_children walk_children
    flatten_flame_tree to_double add counted
program = tt

encoding : Unit {0}
unfolding program new_builder grow push push_all to_array varint_bytes write_varint write_tag
    write_length_delimited write_packed_varints write_nonzero encode_label encode_sample
    encode_value_type encode_line encode_location encode_function write_string profile_bytes
    encode_pprof
encoding = tt

extracted : extract_trace_ids text profile ≡ lit "0123456789abcdef" ∷ []
unfolding program
extracted = refl

abbrev all_samples : AggregateOptions
all_samples = record { trace_id_filter = none; value_index = none }

abbrev flat : Text → ℕ → ℕ → ℕ → FlatNode
flat name value depth offset = record { name = name; value = value; depth = depth; offset = offset }

-- The greater child comes first.
flattened :
    flatten_flame_tree (aggregate_flame_tree profile all_samples)
    ≡ flat (lit "__root__") 85 0 0
      ∷ flat (lit "idle") 50 1 0
      ∷ flat (lit "main") 35 1 50
      ∷ flat (lit "work") 30 2 50
      ∷ []
unfolding program
flattened = refl

extract_trace_ids-filtered_example :
    All (λ id. (filtered text profile id).samples ≢ []) (extract_trace_ids text profile)
extract_trace_ids-filtered_example = extract_trace_ids-filtered text profile (λ s. refl)

counted_below : counted profile all_samples profile.samples < precise
unfolding program
counted_below = omega arith

aggregate_flame_tree-IsSound_example :
    IsSound (counted profile all_samples profile.samples) (aggregate_flame_tree profile all_samples)
aggregate_flame_tree-IsSound_example =
    aggregate_flame_tree-IsSound profile all_samples counted_below

flatten_flame_tree-aggregate_flame_tree_example :
    All
      (IsWithin 0 0 (aggregate_flame_tree profile all_samples).total)
      (flatten_flame_tree (aggregate_flame_tree profile all_samples))
    × AllPairs IsApart (flatten_flame_tree (aggregate_flame_tree profile all_samples))
flatten_flame_tree-aggregate_flame_tree_example =
    flatten_flame_tree-aggregate_flame_tree profile all_samples counted_below

abbrev gzip : List ℕ → List ℕ
gzip bytes = 0x1f ∷ 0x8b ∷ bytes

abbrev gunzip : List ℕ → Option (List ℕ)
gunzip (a ∷ b ∷ bytes) = some bytes
gunzip _ = none

gzip-is_gzip : (bytes : List ℕ) → is_gzip (gzip bytes) ≡ true
unfolding is_gzip
gzip-is_gzip bytes = ground arith

profile-ProfileFits : ProfileFits text text profile
profile-ProfileFits = record {
  sample_types = tt;
  samples = omega arith;
  locations = (
    (refl, record { id = omega arith; lines = omega arith; function_ids = refl }),
    (
      (refl, record { id = omega arith; lines = omega arith; function_ids = refl }),
      ((refl, record { id = omega arith; lines = omega arith; function_ids = refl }), tt),
    ),
  );
  location_keys = (refl, (refl, (refl, tt)));
  functions = ((refl, omega arith), ((refl, omega arith), ((refl, omega arith), tt)));
  function_keys = (refl, (refl, (refl, tt)));
  texts = (refl, (refl, (refl, (refl, (refl, (refl, tt))))));
  text_bytes = omega arith;
}

abbrev number_text : ℕ → Text
number_text n = (b'0' + n) ∷ []

abbrev trace_id : Text
trace_id = lit "0123456789abcdef"

filtered_size : length (encode_pprof text (filtered text profile trace_id)) < precise
unfolding encoding
filtered_size = omega arith

decode_pprof_blob-filter_pprof_by_trace_id_example :
    (kept : List Sample) × (decode_pprof_blob text gunzip
        (filter_pprof_by_trace_id text text gzip profile trace_id)
      ≡ some (ok (record profile { samples = kept })))
    × Selects
        (λ (sample : Sample). Carries text profile.string_table trace_id sample.labels)
        profile.samples
        kept
decode_pprof_blob-filter_pprof_by_trace_id_example =
    decode_pprof_blob-filter_pprof_by_trace_id text text text gunzip gzip profile trace_id
      profile-ProfileFits filtered_size gzip-is_gzip (λ bytes. refl)

summarize_profile_frames-IsTop_example :
    (chosen : List Sample) × (n : ℕ) × Selects
      (IsChosen text number_text profile (some trace_id))
      profile.samples
      chosen
    × IsLimit (some 2) n
    × IsTop
        (flat_map (occurrences text number_text profile) chosen)
        n
        (summarize_profile_frames text number_text profile (some 2) (some trace_id))
summarize_profile_frames-IsTop_example =
    summarize_profile_frames-IsTop text number_text profile (some 2) (some trace_id)
