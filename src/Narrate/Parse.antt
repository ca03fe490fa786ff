-- ===== src/Narrate/Parse.antt =====
-- A printer for the predicates of packages/obs-collector/src/lib/narrate-gate.ts, beside their parser.
use mathlib.Core.Bool.{false≢true}
use obs_unified.Common.{
  ℕ, ◌≡◌, ◌≢◌, refl, ap, ◌∙◌, Bool, true, false, List, [], ◌∷◌, ◌++◌, map, none, inl, inr, All,
  All-append, Bool-cases, arith, ◌==◌, if◌then◌else◌,
}
use obs_unified.Common.Text.{Text, lit, text_eq, is_space}
use obs_unified.Narrate.Gate.{
  Doubles, Comparator, op_le, op_ge, op_eq, op_ne, op_lt, op_gt, Atom, delta_pct, status_changed,
  signature_changed, always, never, ok, strip_whitespace, strip_prefix, comparator_text, push_front,
  split_at, parse_delta, parse_atom, parse_atoms, parse_groups, parse_predicate,
}

-- A text without the code
abbrev pub IsFree : ℕ → Text → Type 0
IsFree c s = All (λ a. (a == c) ≡ false) s

unfoldable pub join_twice : ℕ → List Text → Text
join_twice c [] = []
join_twice c (part ∷ []) = part
join_twice c (part ∷ next ∷ parts) = part ++ c ∷ c ∷ join_twice c (next ∷ parts)

split_at_free : (c : ℕ) (s : Text) → IsFree c s → split_at c false s ≡ s ∷ []
unfolding split_at
split_at_free c [] free = refl
split_at_free c (a ∷ s) (other, free) = rw (split_at, other, split_at_free c s free) refl

split_at_separator :
    (c : ℕ) (s t : Text) → IsFree c s → split_at c false (s ++ c ∷ c ∷ t) ≡ s ∷ split_at c false t
unfolding split_at
split_at_separator c [] t free = first_of_two ∙ second_of_two
  where
    same : (c == c) ≡ true
    same = ground arith

    first_of_two : split_at c false (c ∷ c ∷ t) ≡ split_at c true (c ∷ t)
    first_of_two =
        ap
          (λ b. elim b as (λ x. List Text) [
            | true ↦ split_at c true (c ∷ t)
            | false ↦ push_front c (split_at c false (c ∷ t))
          ])
          same

    second_of_two : split_at c true (c ∷ t) ≡ [] ∷ split_at c false t
    second_of_two =
        ap
          (λ b. elim b as (λ x. List Text) [
            | true ↦ [] ∷ split_at c false t
            | false ↦ push_front c (push_front c (split_at c false t))
          ])
          same
split_at_separator c (a ∷ s) t (other, free) =
    rw (split_at, other, split_at_separator c s t free) refl

split_at-join_twice :
    (c : ℕ) (part : Text) (parts : List Text)
    → IsFree c part
    → All (IsFree c) parts
    → split_at c false (join_twice c (part ∷ parts)) ≡ part ∷ parts
unfolding join_twice
split_at-join_twice c part [] free all = split_at_free c part free
split_at-join_twice c part (next ∷ parts) free (here, all) =
    split_at_separator c part (join_twice c (next ∷ parts)) free
    ∙ ap (λ l. part ∷ l) (split_at-join_twice c next parts here all)

-- The other code stays away from what is joined.
join_twice-IsFree :
    (c d : ℕ) (parts : List Text)
    → (c == d) ≡ false
    → All (IsFree d) parts
    → IsFree d (join_twice c parts)
unfolding join_twice
join_twice-IsFree c d [] other all = tt
join_twice-IsFree c d (part ∷ []) other (here, all) = here
join_twice-IsFree c d (part ∷ next ∷ parts) other (here, all) =
    All-append (λ a. (a == d) ≡ false) part _ here
      (other, (other, join_twice-IsFree c d (next ∷ parts) other all))

is_free : ℕ → Text → Bool
is_free c [] = true
is_free c (a ∷ s) = if a == c then false else is_free c s

is_free_sound : (c : ℕ) (s : Text) → is_free c s ≡ true → IsFree c s
unfolding is_free
is_free_sound c [] h = tt
is_free_sound c (a ∷ s) h = elim (Bool-cases (a == c)) [
  | inl same ↦ absurd (false≢true (rw same at h))
  | inr other ↦ (other, is_free_sound c s (rw other at h))
]

module _ {Number : Type 0} (doubles : Doubles Number) (to_text : Number → Text) where
  unfoldable pub print_atom : Atom Number → Text
  print_atom (delta_pct op value) = lit "delta_pct" ++ comparator_text op ++ to_text value
  print_atom status_changed = lit "status_changed"
  print_atom signature_changed = lit "signature_changed"
  print_atom always = lit "always"
  print_atom never = lit "never"

  -- The text of the number is read back, has no space and no character of the language.
  pub record IsReadable (value : Number) : Type 0 where
    pub read : doubles.to_number (to_text value) ≡ value
    pub finite : doubles.is_finite value ≡ true
    pub unspaced : strip_whitespace (to_text value) ≡ to_text value
    pub no_or : IsFree b'|' (to_text value)
    pub no_and : IsFree b'&' (to_text value)
    pub no_equals : strip_prefix (lit "=") (to_text value) ≡ none

  abbrev pub IsPrintable : Atom Number → Type 0
  IsPrintable (delta_pct op value) = IsReadable value
  IsPrintable _ = Unit

  parse_atom-print_atom :
      (atom : Atom Number) → IsPrintable atom → parse_atom doubles (print_atom atom) ≡ ok atom
  unfolding parse_atom print_atom is_space strip_whitespace text_eq parse_delta
  parse_atom-print_atom status_changed p = refl
  parse_atom-print_atom signature_changed p = refl
  parse_atom-print_atom always p = refl
  parse_atom-print_atom never p = refl
  parse_atom-print_atom (delta_pct op_le value) p = rw (p.unspaced, p.read, p.finite) refl
  parse_atom-print_atom (delta_pct op_ge value) p = rw (p.unspaced, p.read, p.finite) refl
  parse_atom-print_atom (delta_pct op_eq value) p = rw (p.unspaced, p.read, p.finite) refl
  parse_atom-print_atom (delta_pct op_ne value) p = rw (p.unspaced, p.read, p.finite) refl
  parse_atom-print_atom (delta_pct op_lt value) p =
      rw (p.unspaced, p.no_equals, p.unspaced, p.read, p.finite) refl
  parse_atom-print_atom (delta_pct op_gt value) p =
      rw (p.unspaced, p.no_equals, p.unspaced, p.read, p.finite) refl

  print_atom-no_or : (atom : Atom Number) → IsPrintable atom → IsFree b'|' (print_atom atom)
  unfolding print_atom is_free
  print_atom-no_or (delta_pct op value) p =
      All-append (λ a. (a == b'|') ≡ false) (lit "delta_pct") (comparator_text op ++ to_text value)
        (is_free_sound b'|' (lit "delta_pct") refl)
        (All-append (λ a. (a == b'|') ≡ false) (comparator_text op) (to_text value)
          (is_free_sound b'|' (comparator_text op) (op_free op)) p.no_or)
    where
      op_free : (op : Comparator) → is_free b'|' (comparator_text op) ≡ true
      op_free op_le = refl
      op_free op_ge = refl
      op_free op_eq = refl
      op_free op_ne = refl
      op_free op_lt = refl
      op_free op_gt = refl
  print_atom-no_or status_changed p = is_free_sound b'|' (lit "status_changed") refl
  print_atom-no_or signature_changed p = is_free_sound b'|' (lit "signature_changed") refl
  print_atom-no_or always p = is_free_sound b'|' (lit "always") refl
  print_atom-no_or never p = is_free_sound b'|' (lit "never") refl

  print_atom-no_and : (atom : Atom Number) → IsPrintable atom → IsFree b'&' (print_atom atom)
  unfolding print_atom is_free
  print_atom-no_and (delta_pct op value) p =
      All-append (λ a. (a == b'&') ≡ false) (lit "delta_pct") (comparator_text op ++ to_text value)
        (is_free_sound b'&' (lit "delta_pct") refl)
        (All-append (λ a. (a == b'&') ≡ false) (comparator_text op) (to_text value)
          (is_free_sound b'&' (comparator_text op) (op_free op)) p.no_and)
    where
      op_free : (op : Comparator) → is_free b'&' (comparator_text op) ≡ true
      op_free op_le = refl
      op_free op_ge = refl
      op_free op_eq = refl
      op_free op_ne = refl
      op_free op_lt = refl
      op_free op_gt = refl
  print_atom-no_and status_changed p = is_free_sound b'&' (lit "status_changed") refl
  print_atom-no_and signature_changed p = is_free_sound b'&' (lit "signature_changed") refl
  print_atom-no_and always p = is_free_sound b'&' (lit "always") refl
  print_atom-no_and never p = is_free_sound b'&' (lit "never") refl

  atoms-IsFree :
      (c : ℕ) (atoms : List (Atom Number))
      → ((atom : Atom Number) → IsPrintable atom → IsFree c (print_atom atom))
      → All IsPrintable atoms
      → All (IsFree c) (map print_atom atoms)
  atoms-IsFree c [] e p = tt
  atoms-IsFree c (atom ∷ atoms) e (here, p) = (e atom here, atoms-IsFree c atoms e p)

  unfoldable pub print_group : List (Atom Number) → Text
  print_group atoms = join_twice b'&' (map print_atom atoms)

  unfoldable pub print_predicate : List (List (Atom Number)) → Text
  print_predicate groups = join_twice b'|' (map print_group groups)

  -- At least one atom, and all of them printable
  abbrev pub IsGroup : List (Atom Number) → Type 0
  IsGroup group = (group ≢ []) × All IsPrintable group

  parse_atoms-map :
      (atoms : List (Atom Number))
      → All IsPrintable atoms
      → parse_atoms doubles (map print_atom atoms) ≡ ok atoms
  unfolding parse_atoms
  parse_atoms-map [] p = refl
  parse_atoms-map (atom ∷ atoms) (here, p) =
      rw (parse_atoms, parse_atom-print_atom atom here, parse_atoms-map atoms p) refl

  parse_atoms-group :
      (group : List (Atom Number))
      → IsGroup group
      → parse_atoms doubles (split_at b'&' false (print_group group)) ≡ ok group
  unfolding print_group
  parse_atoms-group [] (ne, p) = absurd (ne refl)
  parse_atoms-group (atom ∷ atoms) (ne, p) =
      let free = atoms-IsFree b'&' (atom ∷ atoms) print_atom-no_and p in
      ap (parse_atoms doubles)
        (split_at-join_twice b'&' (print_atom atom) (map print_atom atoms) free.0 free.1)
      ∙ parse_atoms-map (atom ∷ atoms) p

  parse_groups-map :
      (groups : List (List (Atom Number)))
      → All IsGroup groups
      → parse_groups doubles (map print_group groups) ≡ ok groups
  unfolding parse_groups
  parse_groups-map [] p = refl
  parse_groups-map (group ∷ groups) (here, p) =
      rw (parse_groups, parse_atoms-group group here, parse_groups-map groups p) refl

  groups-IsFree :
      (groups : List (List (Atom Number)))
      → All IsGroup groups
      → All (IsFree b'|') (map print_group groups)
  unfolding print_group
  groups-IsFree [] p = tt
  groups-IsFree (group ∷ groups) (here, p) = (
    join_twice-IsFree b'&' b'|' (map print_atom group) refl
        (atoms-IsFree b'|' group print_atom-no_or here.1),
    groups-IsFree groups p,
  )

  -- What is printed for groups of atoms, at least one of them and none empty, is parsed to those
  -- groups, where each number in them is readable.
  pub parse_predicate-print_predicate :
      (groups : List (List (Atom Number)))
      → groups ≢ []
      → All IsGroup groups
      → parse_predicate doubles (print_predicate groups) ≡ ok groups
  unfolding parse_predicate print_predicate
  parse_predicate-print_predicate [] ne p = absurd (ne refl)
  parse_predicate-print_predicate (group ∷ groups) ne p =
      let free = groups-IsFree (group ∷ groups) p in
      ap (parse_groups doubles)
        (split_at-join_twice b'|' (print_group group) (map print_group groups) free.0 free.1)
      ∙ parse_groups-map (group ∷ groups) p
