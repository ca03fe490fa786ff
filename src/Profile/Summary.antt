-- ===== src/Profile/Summary.antt =====
-- What `summarizeProfileFrames` of packages/obs-collector/src/lib/parse-pprof.ts sums up, said without its
-- Map: the list of all occurrences of frames in the samples chosen.
use mathlib.Core.Option
use obs_unified.Common.{
  ℕ, suc, ◌+◌, ◌≡◌, refl, ap, ◌∙◌, true, false, inl, inr, List, [], ◌∷◌, ◌++◌, Option, none, some,
  length, Bool-cases, arith, if◌then◌else◌, or_default,
}
use obs_unified.Common.Text.{Text, text_eq, text_eq_iff, text_eq_refl}
use obs_unified.Pprof.Double.{add}
use obs_unified.Profile.Frames.{ProfileFrameSummary, ByFrame, count_frame}

-- A frame met in a sample: its key, the summary without counts, and the sample's value
abbrev pub Occurrence : Type 0
Occurrence = Text × ProfileFrameSummary × ℕ

unfoldable pub values_at : Text → List Occurrence → List ℕ
unfolding text_eq
values_at key [] = []
values_at key ((k, fresh, value) ∷ os) =
    let rest = values_at key os in if text_eq k key then value ∷ rest else rest

unfoldable pub first_at : Text → List Occurrence → Option ProfileFrameSummary
unfolding text_eq
first_at key [] = none
first_at key ((k, fresh, value) ∷ os) =
    let rest = first_at key os in if text_eq k key then some fresh else rest

-- Doubles are summed from left to right.
unfoldable pub sum_from : ℕ → List ℕ → ℕ
unfolding add
sum_from start [] = start
sum_from start (value ∷ values) = sum_from (add start value) values

unfoldable pub find_frame : Text → ByFrame → Option ProfileFrameSummary
unfolding text_eq
find_frame key [] = none
find_frame key ((k, s) ∷ frames) =
    let rest = find_frame key frames in if text_eq k key then some s else rest

-- What is found at a key: the first frame with it, with the sum and the number of its occurrences
abbrev pub counts_at : Text → List Occurrence → Option ProfileFrameSummary
counts_at key os =
    Option.map
      (λ (fresh : ProfileFrameSummary). record fresh {
        value = sum_from fresh.value (values_at key os);
        sample_count = fresh.sample_count + length (values_at key os);
      })
      (first_at key os)

unfoldable pub count_all : List Occurrence → ByFrame → ByFrame
unfolding count_frame
count_all [] frames = frames
count_all ((k, fresh, value) ∷ os) frames = count_all os (count_frame k fresh value frames)

pub count_all-append :
    (xs ys : List Occurrence) (frames : ByFrame)
    → count_all (xs ++ ys) frames ≡ count_all ys (count_all xs frames)
unfolding count_all
count_all-append [] ys frames = refl
count_all-append ((k, fresh, value) ∷ xs) ys frames =
    count_all-append xs ys (count_frame k fresh value frames)

-- An occurrence more, and any number of them, of a frame that is there
abbrev counted : ProfileFrameSummary → ℕ → ProfileFrameSummary
counted s value = record s { value = add s.value value; sample_count = suc s.sample_count }

unfoldable count_on : ProfileFrameSummary → List ℕ → ProfileFrameSummary
count_on s [] = s
count_on s (value ∷ values) = count_on (counted s value) values

count_on-sum_from :
    (s : ProfileFrameSummary) (values : List ℕ)
    → count_on s values
      ≡ record s { value = sum_from s.value values; sample_count = s.sample_count + length values }
unfolding count_on sum_from
count_on-sum_from s [] =
    let same : s.sample_count ≡ s.sample_count + 0 = omega arith in
    ap (λ (n : ℕ). record s { sample_count = n }) same
count_on-sum_from s (value ∷ values) =
    let same : suc s.sample_count + length values ≡ s.sample_count + length (value ∷ values) =
      omega arith in
    count_on-sum_from (counted s value) values
    ∙ ap (λ (n : ℕ). record s { value = sum_from (add s.value value) values; sample_count = n })
        same

find_frame-count_frame_same :
    (key : Text) (fresh : ProfileFrameSummary) (value : ℕ) (frames : ByFrame)
    → find_frame key (count_frame key fresh value frames)
      ≡ some (counted (or_default (find_frame key frames) fresh) value)
unfolding find_frame count_frame
find_frame-count_frame_same key fresh value [] = rw (text_eq_refl key) refl
find_frame-count_frame_same key fresh value ((k, s) ∷ frames) = elim (Bool-cases (text_eq k key)) [
  | inl same ↦ rw same (rw same refl)
  | inr apart ↦ rw apart (rw apart (find_frame-count_frame_same key fresh value frames))
]

other_key :
    (key k other : Text)
    → text_eq k key ≡ false
    → text_eq other k ≡ true
    → text_eq other key ≡ false
other_key key k other apart same =
    let is_k = (text_eq_iff other k).0 same in ap (λ t. text_eq t key) is_k ∙ apart

find_frame-count_frame_apart :
    (key k : Text) (fresh : ProfileFrameSummary) (value : ℕ) (frames : ByFrame)
    → text_eq k key ≡ false
    → find_frame key (count_frame k fresh value frames) ≡ find_frame key frames
unfolding find_frame count_frame
find_frame-count_frame_apart key k fresh value [] apart = rw apart refl
find_frame-count_frame_apart key k fresh value ((other, s) ∷ frames) apart =
    let rest = find_frame-count_frame_apart key k fresh value frames apart in
    elim (Bool-cases (text_eq other k)) [
      | inl same ↦ rw same (rw (other_key key k other apart same) refl)
      | inr differs ↦ elim (Bool-cases (text_eq other key)) [
        | inl found ↦ rw differs (rw found refl)
        | inr not_found ↦ rw differs (rw not_found rest)
      ]
    ]

find_frame-count_all_known :
    (key : Text) (os : List Occurrence) (frames : ByFrame) (s : ProfileFrameSummary)
    → find_frame key frames ≡ some s
    → find_frame key (count_all os frames) ≡ some (count_on s (values_at key os))
unfolding count_all values_at count_on
find_frame-count_all_known key [] frames s known = known
find_frame-count_all_known key ((k, fresh, value) ∷ os) frames s known =
    let frames' = count_frame k fresh value frames in
    elim (Bool-cases (text_eq k key)) [
      | inl same ↦
          let is_key = (text_eq_iff k key).0 same in
          let now : find_frame key frames' ≡ some (counted s value) =
            ap (λ j. find_frame key (count_frame j fresh value frames)) is_key
            ∙ find_frame-count_frame_same key fresh value frames
            ∙ ap (λ o. some (counted (or_default o fresh) value)) known in
          rw same (find_frame-count_all_known key os frames' (counted s value) now)
      | inr apart ↦ rw apart (
          find_frame-count_all_known key os frames' s
            (find_frame-count_frame_apart key k fresh value frames apart ∙ known))
    ]

pub find_frame-count_all :
    (key : Text) (os : List Occurrence) (frames : ByFrame)
    → find_frame key frames ≡ none
    → find_frame key (count_all os frames) ≡ counts_at key os
unfolding count_all values_at first_at count_on
find_frame-count_all key [] frames new = new
find_frame-count_all key ((k, fresh, value) ∷ os) frames new =
    let frames' = count_frame k fresh value frames in
    elim (Bool-cases (text_eq k key)) [
      | inl same ↦
          let is_key = (text_eq_iff k key).0 same in
          let now : find_frame key frames' ≡ some (counted fresh value) =
            ap (λ j. find_frame key (count_frame j fresh value frames)) is_key
            ∙ find_frame-count_frame_same key fresh value frames
            ∙ ap (λ o. some (counted (or_default o fresh) value)) new in
          let counts : find_frame key (count_all os frames')
              ≡ some (count_on fresh (value ∷ values_at key os)) =
            find_frame-count_all_known key os frames' (counted fresh value) now in
          rw same (counts ∙ ap some (count_on-sum_from fresh (value ∷ values_at key os)))
      | inr apart ↦ rw apart (
          find_frame-count_all key os frames'
            (find_frame-count_frame_apart key k fresh value frames apart ∙ new))
    ]
