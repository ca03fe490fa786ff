-- ===== src/Profile/Top.antt =====
-- The summaries of frames, `summarizeProfileFrames` of packages/obs-collector/src/lib/parse-pprof.ts, are
-- those of the occurrences in the samples chosen (Profile/Summary), the greatest first.
use mathlib.Core.List.{Perm}
use obs_unified.Common.{
  ℕ, suc, ◌≤◌, ◌<◌, ◌≡◌, ◌≢◌, ◌⊎◌, ◌↔◌, zero, refl, sym, ap, subst, ◌∙◌, true, inl, inr, List, [],
  ◌∷◌, ◌++◌, map, flat_map, Option, none, some, length, take, drop, get_elem?, All, AllPairs,
  Bool-cases, Option-cases, Selects, ended, taken, left_out, arith, or_default,
}
use obs_unified.Common.Text.{Text, lit, text_eq, text_eq_iff}
use obs_unified.Common.Sort.{sort_desc, sort_desc-IsDesc, sort_desc-perm}
use obs_unified.Pprof.Decode.{Line, Sample, Profile}
use obs_unified.Profile.Selection.{Carries, some_label-Carries}
use obs_unified.Profile.Flame.{map_find}
use obs_unified.Profile.Frames.{
  ProfileFrameSummary, ByFrame, code_reference_of, count_frame, limit_of, sample_has_trace_id,
  add_line, add_lines, add_locations, add_frames, frames_by_key, summarize_profile_frames,
}
use obs_unified.Profile.Summary.{
  Occurrence, find_frame, counts_at, count_all, count_all-append, find_frame-count_all,
}

-- A limit that is given is taken between 1 and 500.
unfoldable pub IsLimit : Option ℕ → ℕ → Type 0
IsLimit none n = n ≡ 50
IsLimit (some m) n = ((m < 1) × (n ≡ 1)) ⊎ ((500 < m) × (n ≡ 500)) ⊎ ((1 ≤ m) × (m ≤ 500) × (n ≡ m))

limit_of-IsLimit : (limit : Option ℕ) → IsLimit limit (limit_of limit)
unfolding limit_of IsLimit
limit_of-IsLimit none = refl
limit_of-IsLimit (some m) = ground arith

abbrev pub IsDistinct : ByFrame → Type 0
IsDistinct frames = AllPairs (λ (e e' : Text × ProfileFrameSummary). e.0 ≢ e'.0) frames

count_frame-All :
    (P : Text → Type 0) (key : Text) (fresh : ProfileFrameSummary) (value : ℕ) (frames : ByFrame)
    → P key
    → All (λ (e : Text × ProfileFrameSummary). P e.0) frames
    → All (λ (e : Text × ProfileFrameSummary). P e.0) (count_frame key fresh value frames)
unfolding count_frame
count_frame-All P key fresh value [] new old = (new, tt)
count_frame-All P key fresh value ((k, s) ∷ frames) new (here, old) =
    elim (Bool-cases (text_eq k key)) [
      | inl same ↦ rw same (here, old)
      | inr apart ↦ rw apart (here, count_frame-All P key fresh value frames new old)
    ]

count_frame-IsDistinct :
    (key : Text) (fresh : ProfileFrameSummary) (value : ℕ) (frames : ByFrame)
    → IsDistinct frames
    → IsDistinct (count_frame key fresh value frames)
unfolding count_frame
count_frame-IsDistinct key fresh value [] distinct = (tt, tt)
count_frame-IsDistinct key fresh value ((k, s) ∷ frames) (here, distinct) =
    elim (Bool-cases (text_eq k key)) [
      | inl same ↦ rw same (here, distinct)
      | inr apart ↦ rw apart (
        count_frame-All (λ other. k ≢ other) key fresh value frames
            (λ e. cc (apart, (text_eq_iff k key).1 e)) here,
        count_frame-IsDistinct key fresh value frames distinct,
      )
    ]

count_all-IsDistinct :
    (os : List Occurrence) (frames : ByFrame) → IsDistinct frames → IsDistinct (count_all os frames)
unfolding count_all
count_all-IsDistinct [] frames distinct = distinct
count_all-IsDistinct ((k, fresh, value) ∷ os) frames distinct =
    count_all-IsDistinct os (count_frame k fresh value frames)
      (count_frame-IsDistinct k fresh value frames distinct)

module _ (to_lower : Text → Text) (number_text : ℕ → Text) (profile : Profile Text) where
  -- Without a trace id, or with an empty one, every sample counts.
  unfoldable pub IsChosen : Option Text → Sample → Type 0
  IsChosen none sample = Unit
  IsChosen (some []) sample = Unit
  IsChosen (some (c ∷ s)) sample = Carries to_lower profile.string_table (c ∷ s) sample.labels

  unfoldable pub line_occurrence : ℕ → Line → List Occurrence
  line_occurrence value l = elim (map_find l.function_id profile.functions) [
    | none ↦ []
    | some fn ↦
        let name = or_default (get_elem? profile.string_table fn.name_idx) (lit "?") in
        let filename = or_default (get_elem? profile.string_table fn.filename_idx) [] in
        (
          name ++ 0 ∷ (filename ++ 0 ∷ number_text l.line),
          record {
            name = name;
            value = 0;
            sample_count = 0;
            code_reference = code_reference_of name filename l.line;
          },
          value,
        )
        ∷ []
  ]

  unfoldable pub location_occurrences : ℕ → ℕ → List Occurrence
  unfolding line_occurrence
  location_occurrences value id = elim (map_find id profile.locations) [
    | none ↦ []
    | some loc ↦ flat_map (line_occurrence value) loc.lines
  ]

  -- Every frame of a sample's stack occurs with the sample's first value.
  unfoldable pub occurrences : Sample → List Occurrence
  unfolding location_occurrences
  occurrences sample =
      flat_map (location_occurrences (or_default (get_elem? sample.values 0) 0)) sample.location_ids

  add_line-count_all :
      (value : ℕ) (l : Line) (frames : ByFrame)
      → add_line to_lower number_text profile value l frames
        ≡ count_all (line_occurrence value l) frames
  unfolding add_line line_occurrence count_all
  add_line-count_all value l frames =
      elim (Option-cases (map_find l.function_id profile.functions)) [
        | inl missing ↦ rw (add_line, line_occurrence, missing) refl
        | inr (fn, found) ↦ rw (add_line, line_occurrence, found) refl
      ]

  add_lines-count_all :
      (value : ℕ) (lines : List Line) (frames : ByFrame)
      → add_lines to_lower number_text profile value lines frames
        ≡ count_all (flat_map (line_occurrence value) lines) frames
  unfolding add_lines count_all
  add_lines-count_all value [] frames = refl
  add_lines-count_all value (l ∷ lines) frames =
      ap (add_lines to_lower number_text profile value lines) (add_line-count_all value l frames)
      ∙ add_lines-count_all value lines (count_all (line_occurrence value l) frames)
      ∙ sym (
          count_all-append (line_occurrence value l) (flat_map (line_occurrence value) lines)
            frames)

  add_location-count_all :
      (value id : ℕ) (frames : ByFrame)
      → elim (map_find id profile.locations) [
        | none ↦ frames
        | some loc ↦ add_lines to_lower number_text profile value loc.lines frames
      ]
        ≡ count_all (location_occurrences value id) frames
  unfolding location_occurrences count_all
  add_location-count_all value id frames = elim (Option-cases (map_find id profile.locations)) [
    | inl missing ↦ rw (location_occurrences, missing) refl
    | inr (loc, found) ↦
        rw (location_occurrences, found) (add_lines-count_all value loc.lines frames)
  ]

  add_locations-count_all :
      (value : ℕ) (ids : List ℕ) (frames : ByFrame)
      → add_locations to_lower number_text profile value ids frames
        ≡ count_all (flat_map (location_occurrences value) ids) frames
  unfolding add_locations count_all
  add_locations-count_all value [] frames = refl
  add_locations-count_all value (id ∷ ids) frames =
      ap (add_locations to_lower number_text profile value ids)
        (add_location-count_all value id frames)
      ∙ add_locations-count_all value ids (count_all (location_occurrences value id) frames)
      ∙ sym (
          count_all-append (location_occurrences value id)
            (flat_map (location_occurrences value) ids) frames)

  sample_has_trace_id-IsChosen :
      (trace_id : Option Text) (sample : Sample)
      → (sample_has_trace_id to_lower number_text profile sample trace_id ≡ true)
        ↔ IsChosen trace_id sample
  unfolding sample_has_trace_id IsChosen
  sample_has_trace_id-IsChosen none sample = (λ h. tt, λ h. refl)
  sample_has_trace_id-IsChosen (some []) sample = (λ h. tt, λ h. refl)
  sample_has_trace_id-IsChosen (some (c ∷ s)) sample =
      some_label-Carries to_lower profile.string_table (c ∷ s) sample.labels

  add_frames-Selects :
      (trace_id : Option Text) (samples : List Sample) (frames : ByFrame)
      → (chosen : List Sample) × Selects (IsChosen trace_id) samples chosen
        × (add_frames to_lower number_text profile trace_id samples frames
            ≡ count_all (flat_map occurrences chosen) frames)
  unfolding add_frames occurrences count_all
  add_frames-Selects trace_id [] frames = ([], ended, refl)
  add_frames-Selects trace_id (sample ∷ samples) frames =
      let chosen_iff = sample_has_trace_id-IsChosen trace_id sample in
      elim (Bool-cases (sample_has_trace_id to_lower number_text profile sample trace_id)) [
        | inl has ↦
            let (chosen, selected, same) =
              add_frames-Selects trace_id samples (count_all (occurrences sample) frames) in
            let first =
              add_locations-count_all (or_default (get_elem? sample.values 0) 0) sample.location_ids
                frames in
            (
              sample ∷ chosen,
              taken (chosen_iff.0 has) selected,
              rw has (
                  ap (add_frames to_lower number_text profile trace_id samples) first
                  ∙ same
                  ∙ sym
                      (count_all-append (occurrences sample) (flat_map occurrences chosen) frames)),
            )
        | inr lacks ↦
            let (chosen, selected, same) = add_frames-Selects trace_id samples frames in
            (chosen, left_out (λ c. cc (lacks, chosen_iff.1 c)) selected, rw lacks same)
      ]

take-drop : {A : Type 0} (n : ℕ) (l : List A) → take n l ++ drop n l ≡ l
take-drop zero l = refl
take-drop (suc n) [] = refl
take-drop (suc n) (a ∷ l) = ap (λ r. a ∷ r) (take-drop n l)

-- The limit is reached, or nothing is left out within it.
length-take :
    {A : Type 0} (n : ℕ) (l : List A)
    → (length (take n l) ≡ n) ⊎ ((drop n l ≡ []) × (length (take n l) ≤ n))
length-take zero l = inl refl
length-take (suc n) [] = inr (refl, omega arith)
length-take (suc n) (a ∷ l) = elim (length-take n l) [
  | inl reached ↦ inl (ap suc reached)
  | inr (short, le) ↦ inr (short, omega (arith, le))
]

-- What is kept and what is left out of the frames of some occurrences, with their keys
pub record IsTop (os : List Occurrence) (limit : ℕ) (kept : List ProfileFrameSummary) : Type 0 where
  pub frames : ByFrame
  pub distinct : IsDistinct frames
  pub counts : (key : Text) → find_frame key frames ≡ counts_at key os
  pub left : List ProfileFrameSummary
  pub same : Perm (kept ++ left) (map (λ (e : Text × ProfileFrameSummary). e.1) frames)
  pub desc : AllPairs (λ (a : ProfileFrameSummary) b. b.value ≤ a.value) (kept ++ left)
  pub bound : (length kept ≡ limit) ⊎ ((left ≡ []) × (length kept ≤ limit))

-- Of the samples, those are chosen that have a label with the trace id, or all where none is asked for.
-- Each key of their frames' occurrences has one frame: it is the first occurrence's, with the sum, of
-- doubles from left to right, and the number of all the key's occurrences, and there are no others. The
-- summaries are the greatest of these, in descending order: as many as the limit allows, which is 50
-- where none is given, 1 for 0 and at most 500, or all.
pub summarize_profile_frames-IsTop :
    (to_lower : Text → Text) (number_text : ℕ → Text) (profile : Profile Text) (limit : Option ℕ)
    (trace_id : Option Text)
    → (chosen : List Sample) × (n : ℕ) × Selects
        (IsChosen to_lower number_text profile trace_id)
        profile.samples
        chosen
      × IsLimit limit n
      × IsTop
          (flat_map (occurrences to_lower number_text profile) chosen)
          n
          (summarize_profile_frames to_lower number_text profile limit trace_id)
unfolding summarize_profile_frames frames_by_key find_frame
summarize_profile_frames-IsTop to_lower number_text profile limit trace_id =
    let value = λ (s : ProfileFrameSummary). s.value in
    let all = frames_by_key to_lower number_text profile trace_id in
    let whole = sym (take-drop (limit_of limit) (sort_desc value all)) in
    let (chosen, selected, same) =
      add_frames-Selects to_lower number_text profile trace_id profile.samples [] in
    let os = flat_map (occurrences to_lower number_text profile) chosen in
    (
      chosen,
      limit_of limit,
      selected,
      limit_of-IsLimit limit,
      record {
        frames = add_frames to_lower number_text profile trace_id profile.samples [];
        distinct = subst IsDistinct (sym same) (count_all-IsDistinct os [] tt);
        counts = λ key. ap (find_frame key) same ∙ find_frame-count_all key os [] refl;
        left = drop (limit_of limit) (sort_desc value all);
        same = subst (λ l. Perm l all) whole (sort_desc-perm value all);
        desc =
            subst (AllPairs (λ (a : ProfileFrameSummary) b. b.value ≤ a.value)) whole
              (sort_desc-IsDesc value all);
        bound = length-take (limit_of limit) (sort_desc value all);
      },
    )
