-- ===== src/Profile/Selection.antt =====
-- Which samples `filterPprofByTraceId` of packages/obs-collector/src/lib/parse-pprof.ts is to keep, said
-- without its index set, and that it keeps them.
use obs_unified.Common.{
  ℕ, zero, suc, ◌+◌, ◌<◌, ◌≡◌, ◌⊎◌, ◌↔◌, refl, sym, ap, subst, ◌∙◌, Bool, true, false, ◌&&◌, ◌||◌,
  List, [], ◌∷◌, Option, none, some, inl, inr, get_elem?, ◌==◌, Bool-cases, ended, taken, left_out,
  Selects, arith,
}
use obs_unified.Common.Text.{Text, lit, text_eq, text_eq_iff, text_eq_refl}
use obs_unified.Pprof.Decode.{Label, Sample}
use obs_unified.Profile.Trace.{
  is_trace_id_label_key, trace_id_key_ixs, has_index, matches_label, some_label, filter_samples,
}

-- The label's name in the string table is one of the two, and its text is the id, in any case.
pub record IsLabelOf (to_lower : Text → Text) (table : List Text) (trace_id : Text) (label : Label)
    : Type 0 where
  pub named :
      (get_elem? table label.key_idx ≡ some (lit "trace_id"))
      ⊎ (get_elem? table label.key_idx ≡ some (lit "trace.id"))
  pub value :
      (s : Text) × (get_elem? table label.str_idx ≡ some s) × (to_lower s ≡ to_lower trace_id)

abbrev pub Carries : (Text → Text) → List Text → Text → List Label → Type 0
Carries to_lower table trace_id [] = ⊥
Carries to_lower table trace_id (label ∷ labels) =
    IsLabelOf to_lower table trace_id label ⊎ Carries to_lower table trace_id labels

abbrev is_key_at : Option Text → Bool
is_key_at none = false
is_key_at (some s) = is_trace_id_label_key s

has_index_below :
    (j i : ℕ) (table : List Text) → j < i → has_index j (trace_id_key_ixs i table) ≡ false
unfolding has_index trace_id_key_ixs
has_index_below j i [] h = refl
has_index_below j i (s ∷ table) h =
    let rest = has_index_below j (suc i) table (omega (arith, h)) in
    let apart : (i == j) ≡ false = ground arith in
    elim (Bool-cases (is_trace_id_label_key s)) [
      | inl key ↦ rw key (rw apart rest)
      | inr other ↦ rw other rest
    ]

has_index-trace_id_key_ixs :
    (i k : ℕ) (table : List Text)
    → has_index (i + k) (trace_id_key_ixs i table) ≡ is_key_at (get_elem? table k)
unfolding has_index trace_id_key_ixs
has_index-trace_id_key_ixs i k [] = refl
has_index-trace_id_key_ixs i zero (s ∷ table) =
    let none_later = has_index_below (i + 0) (suc i) table (omega arith) in
    let here : (i == i + 0) ≡ true = ground arith in
    elim (Bool-cases (is_trace_id_label_key s)) [
      | inl key ↦ rw key (rw here refl)
      | inr other ↦ rw other none_later
    ]
has_index-trace_id_key_ixs i (suc k) (s ∷ table) =
    let shift : i + suc k ≡ suc i + k = omega arith in
    let later =
      ap (λ j. has_index j (trace_id_key_ixs (suc i) table)) shift
      ∙ has_index-trace_id_key_ixs (suc i) k table in
    let apart : (i == i + suc k) ≡ false = ground arith in
    elim (Bool-cases (is_trace_id_label_key s)) [
      | inl key ↦ rw key (rw apart later)
      | inr other ↦ rw other later
    ]

or_false : {a b : Bool} → a ≡ false → (a || b) ≡ true → b ≡ true
or_false {a} {b} e h = subst (λ x. (x || b) ≡ true) e h

and_both : (a : Bool) {b : Bool} → (a && b) ≡ true → (a ≡ true) × (b ≡ true)
and_both true h = (refl, h)
and_both false h = cc h

or_true : (a : Bool) {b : Bool} → b ≡ true → (a || b) ≡ true
or_true true h = refl
or_true false h = h

is_key_at-some :
    (s : Text) → (is_key_at (some s) ≡ true) ↔ ((s ≡ lit "trace_id") ⊎ (s ≡ lit "trace.id"))
is_key_at-some s =
    let first = text_eq_iff s (lit "trace_id") in
    let second = text_eq_iff s (lit "trace.id") in
    elim (Bool-cases (text_eq s (lit "trace_id"))) [
      | inl is_first ↦ (λ h. inl (first.0 is_first), λ h. rw is_first refl)
      | inr not_first ↦ (
        λ h. inr (second.0 (or_false not_first h)),
        λ h. elim h [ inl e ↦ cc (not_first, first.1 e) | inr e ↦ rw (not_first, second.1 e) refl ],
      )
    ]

some-injective : {A : Type 0} {a b : A} → some a ≡ some b → a ≡ b
some-injective e = cc e

has_index-from_start :
    (k : ℕ) (table : List Text)
    → has_index k (trace_id_key_ixs 0 table) ≡ is_key_at (get_elem? table k)
has_index-from_start k table =
    let start : k ≡ 0 + k = omega arith in
    ap (λ j. has_index j (trace_id_key_ixs 0 table)) start ∙ has_index-trace_id_key_ixs 0 k table

key_named :
    (o : Option Text)
    → (is_key_at o ≡ true) ↔ ((o ≡ some (lit "trace_id")) ⊎ (o ≡ some (lit "trace.id")))
key_named none = (λ h. cc h, λ h. elim h [ inl e ↦ cc e | inr e ↦ cc e ])
key_named (some s) = (
  λ h. elim ((is_key_at-some s).0 h) [ inl e ↦ inl (ap some e) | inr e ↦ inr (ap some e) ],
  λ h.
      (is_key_at-some s).1
        (elim h [ inl e ↦ inl (some-injective e) | inr e ↦ inr (some-injective e) ]),
)

module _ (to_lower : Text → Text) (table : List Text) (trace_id : Text) where
  abbrev matches : Label → Bool
  matches label = matches_label to_lower (trace_id_key_ixs 0 table) table (to_lower trace_id) label

  value_at :
      (o : Option Text)
      → elim o [ none ↦ false | some value ↦ text_eq (to_lower value) (to_lower trace_id) ] ≡ true
      → (value : Text) × (o ≡ some value) × (text_eq (to_lower value) (to_lower trace_id) ≡ true)
  value_at none h = cc h
  value_at (some value) h = (value, refl, h)

  matches_label-IsLabelOf :
      (label : Label) → (matches label ≡ true) ↔ IsLabelOf to_lower table trace_id label
  unfolding matches_label
  matches_label-IsLabelOf label =
      let key : has_index label.key_idx (trace_id_key_ixs 0 table)
          ≡ is_key_at (get_elem? table label.key_idx) =
        has_index-from_start label.key_idx table in
      let names = key_named (get_elem? table label.key_idx) in
      (
        λ h.
            let (is_key, has_value) =
              and_both (has_index label.key_idx (trace_id_key_ixs 0 table)) h in
            let (value, found, same) = value_at (get_elem? table label.str_idx) has_value in
            record {
              named = names.0 (sym key ∙ is_key);
              value = (value, found, (text_eq_iff (to_lower value) (to_lower trace_id)).0 same);
            },
        λ l.
            let (value, found, same) = l.value in
            rw (key ∙ names.1 l.named, found, same) (text_eq_refl (to_lower trace_id)),
      )

  pub some_label-Carries :
      (labels : List Label)
      → (some_label to_lower (trace_id_key_ixs 0 table) table (to_lower trace_id) labels ≡ true)
        ↔ Carries to_lower table trace_id labels
  unfolding some_label
  some_label-Carries [] = (λ h. cc h, λ h. absurd h)
  some_label-Carries (label ∷ labels) =
      let here = matches_label-IsLabelOf label in
      let there = some_label-Carries labels in
      (
        λ h. elim (Bool-cases (matches label)) [
          | inl matched ↦ inl (here.0 matched)
          | inr other ↦ inr (there.0 (or_false other h))
        ],
        λ c. elim c [
          | inl l ↦ rw (here.1 l) refl
          | inr later ↦ or_true (matches label) (there.1 later)
        ],
      )

  -- The filter keeps the samples that carry the trace id, in their order.
  pub filter_samples-Selects :
      (samples : List Sample)
      → Selects
          (λ (sample : Sample). Carries to_lower table trace_id sample.labels)
          samples
          (filter_samples to_lower (trace_id_key_ixs 0 table) table (to_lower trace_id) samples)
  unfolding filter_samples
  filter_samples-Selects [] = ended
  filter_samples-Selects (sample ∷ samples) =
      let rest = filter_samples-Selects samples in
      let carries = some_label-Carries sample.labels in
      elim (Bool-cases
        (some_label to_lower (trace_id_key_ixs 0 table) table (to_lower trace_id) sample.labels)) [
          | inl kept ↦ rw kept (taken (carries.0 kept) rest)
          | inr left ↦ rw left (left_out (λ c. cc (left, carries.1 c)) rest)
        ]
