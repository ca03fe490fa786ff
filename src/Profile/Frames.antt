-- ===== src/Profile/Frames.antt =====
-- `summarizeProfileFrames` of packages/obs-collector/src/lib/parse-pprof.ts. `number_text` is the text of
-- a number in a template; sums are those of doubles (Pprof/Double).
use obs_unified.Common.{
  ℕ, suc, Bool, true, List, [], ◌∷◌, ◌++◌, map, Option, none, some, take, get_elem?, ltb, ◌==◌,
  if◌then◌else◌, or_default,
}
use obs_unified.Common.Text.{Text, lit, text_eq, truthy}
use obs_unified.Common.Sort.{sort_desc}
use obs_unified.Pprof.Double.{add}
use obs_unified.Pprof.Decode.{Line, Sample, Profile}
use obs_unified.Profile.Trace.{trace_id_key_ixs, some_label}
use obs_unified.Profile.Flame.{map_find, starts_with_slash}

pub record CodeReference : Type 0 where
  pub original_path : Text
  pub relative_path : Option Text
  pub absolute_path : Option Text
  pub line_number : Option ℕ
  pub symbol : Text

pub record ProfileFrameSummary : Type 0 where
  pub name : Text
  pub value : ℕ
  pub sample_count : ℕ
  pub code_reference : Option CodeReference

-- The `Map` of frames, in the order of insertion
abbrev pub ByFrame : Type 0
ByFrame = List (Text × ProfileFrameSummary)

unfoldable pub code_reference_of : Text → Text → ℕ → Option CodeReference
code_reference_of name filename line =
    if truthy (some filename)
    then some (record {
      original_path = filename;
      relative_path = if starts_with_slash filename then none else some filename;
      absolute_path = if starts_with_slash filename then some filename else none;
      line_number = if line == 0 then none else some line;
      symbol = name;
    })
    else none

-- `existing.value += value; existing.sampleCount += 1; byFrame.set(key, existing)`
unfoldable pub count_frame : Text → ProfileFrameSummary → ℕ → ByFrame → ByFrame
unfolding text_eq add
count_frame key fresh value [] =
    (key, record fresh { value = add fresh.value value; sample_count = suc fresh.sample_count })
    ∷ []
count_frame key fresh value ((other, existing) ∷ frames) =
    if text_eq other key
    then (
      other,
      record existing {
        value = add existing.value value;
        sample_count = suc existing.sample_count;
      },
    )
      ∷ frames
    else (other, existing) ∷ count_frame key fresh value frames

-- `Math.max(1, Math.min(limit ?? 50, 500))` of a whole number; a negative one is 0 here.
unfoldable pub limit_of : Option ℕ → ℕ
limit_of limit =
    let least = λ (n : ℕ). if ltb 500 n then 500 else n in
    let most = λ (n : ℕ). if ltb n 1 then 1 else n in most (least (or_default limit 50))

module _ (to_lower : Text → Text) (number_text : ℕ → Text) (profile : Profile Text) where
  unfoldable pub sample_has_trace_id : Sample → Option Text → Bool
  unfolding some_label trace_id_key_ixs
  sample_has_trace_id sample none = true
  sample_has_trace_id sample (some trace_id) =
      if truthy (some trace_id)
      then some_label to_lower (trace_id_key_ixs 0 profile.string_table) profile.string_table
          (to_lower trace_id) sample.labels
      else true

  unfoldable pub add_line : ℕ → Line → ByFrame → ByFrame
  unfolding map_find code_reference_of count_frame
  add_line value l frames = elim (map_find l.function_id profile.functions) [
    | none ↦ frames
    | some fn ↦
        let name = or_default (get_elem? profile.string_table fn.name_idx) (lit "?") in
        let filename = or_default (get_elem? profile.string_table fn.filename_idx) [] in
        count_frame (name ++ 0 ∷ (filename ++ 0 ∷ number_text l.line))
          (record {
            name = name;
            value = 0;
            sample_count = 0;
            code_reference = code_reference_of name filename l.line;
          })
          value frames
  ]

  unfoldable pub add_lines : ℕ → List Line → ByFrame → ByFrame
  unfolding add_line
  add_lines value [] frames = frames
  add_lines value (l ∷ lines) frames = add_lines value lines (add_line value l frames)

  unfoldable pub add_locations : ℕ → List ℕ → ByFrame → ByFrame
  unfolding map_find add_lines
  add_locations value [] frames = frames
  add_locations value (location_id ∷ ids) frames =
      add_locations value ids (elim (map_find location_id profile.locations) [
        | none ↦ frames
        | some loc ↦ add_lines value loc.lines frames
      ])

  unfoldable pub add_frames : Option Text → List Sample → ByFrame → ByFrame
  unfolding sample_has_trace_id add_locations
  add_frames trace_id [] frames = frames
  add_frames trace_id (sample ∷ samples) frames = add_frames trace_id samples (
      if sample_has_trace_id sample trace_id
      then add_locations (or_default (get_elem? sample.values 0) 0) sample.location_ids frames
      else frames)

  unfoldable pub frames_by_key : Option Text → List ProfileFrameSummary
  unfolding add_frames
  frames_by_key trace_id =
      map (λ (e : Text × ProfileFrameSummary). e.1) (add_frames trace_id profile.samples [])

  unfoldable pub summarize_profile_frames : Option ℕ → Option Text → List ProfileFrameSummary
  unfolding limit_of frames_by_key sort_desc
  summarize_profile_frames limit trace_id =
      take (limit_of limit)
        (sort_desc (λ (s : ProfileFrameSummary). s.value) (frames_by_key trace_id))
