-- ===== src/Narrate/Gate.antt =====
-- packages/obs-collector/src/lib/narrate-gate.ts: the predicate language and `evaluateGate`. A
-- JavaScript number is an element of the parameter `Number`, with the operations of `Doubles`.
use obs_unified.Common.{
  ℕ, Bool, true, false, not, ◌&&◌, List, [], ◌∷◌, Option, none, some, ◌==◌, if◌then◌else◌,
}
use obs_unified.Common.Text.{Text, lit, text_eq, truthy, is_space, trim}

pub record Doubles (Number : Type 0) : Type 0 where
  -- `Number(s)`
  pub to_number : Text → Number
  pub is_finite : Number → Bool
  pub abs : Number → Number
  pub less : Number → Number → Bool
  pub less_eq : Number → Number → Bool
  pub equal : Number → Number → Bool

pub data NarrativeIntent : Type 0 where
  call reuse skip : NarrativeIntent

pub data Comparator : Type 0 where
  op_le op_ge op_eq op_ne op_lt op_gt : Comparator

pub data Atom (Number : Type 0) : Type 0 where
  delta_pct : Comparator → Number → Atom Number
  status_changed signature_changed always never : Atom Number

-- One constructor for each message, with what the message shows
pub data ParseError : Type 0 where
  empty_atom missing_comparator : ParseError
  not_a_number : Comparator → Text → ParseError
  unknown_atom : Text → ParseError

pub data Parsed (A : Type 0) : Type 0 where
  ok : A → Parsed A
  error : ParseError → Parsed A

-- The fields of `AnalysisResult` that the gate reads
pub record AnalysisResult (Number : Type 0) : Type 0 where
  pub status : Text
  pub delta_pct : Option Number
  pub narrative : Option Text
  pub narrative_signature : Option Text

unfoldable pub strip_whitespace : Text → Text
unfolding is_space
strip_whitespace [] = []
strip_whitespace (c ∷ s) = let rest = strip_whitespace s in if is_space c then rest else c ∷ rest

-- `if (s.startsWith(prefix)) s.slice(prefix.length)`
abbrev pub strip_prefix : Text → Text → Option Text
strip_prefix [] s = some s
strip_prefix (p ∷ prefix) [] = none
strip_prefix (p ∷ prefix) (c ∷ s) = if p == c then strip_prefix prefix s else none

abbrev pub comparator_text : Comparator → Text
comparator_text op_le = lit "<="
comparator_text op_ge = lit ">="
comparator_text op_eq = lit "=="
comparator_text op_ne = lit "!="
comparator_text op_lt = lit "<"
comparator_text op_gt = lit ">"

abbrev pub comparators : List Comparator
comparators = op_le ∷ op_ge ∷ op_eq ∷ op_ne ∷ op_lt ∷ op_gt ∷ []

abbrev pub push_front : ℕ → List Text → List Text
push_front c [] = (c ∷ []) ∷ []
push_front c (part ∷ parts) = (c ∷ part) ∷ parts

-- `s.split(…)` at the separator of twice the code `c`; `true` where a first `c` was just read
unfoldable pub split_at : ℕ → Bool → Text → List Text
split_at c false [] = [] ∷ []
split_at c true [] = (c ∷ []) ∷ []
split_at c false (a ∷ s) = elim (a == c) [
  | true ↦ split_at c true s
  | false ↦ push_front a (split_at c false s)
]
split_at c true (a ∷ s) = elim (a == c) [
  | true ↦ [] ∷ split_at c false s
  | false ↦ push_front c (push_front a (split_at c false s))
]

module _ {Number : Type 0} (doubles : Doubles Number) where
  unfoldable pub parse_delta : List Comparator → Text → Parsed (Atom Number)
  parse_delta [] rest = error missing_comparator
  parse_delta (op ∷ ops) rest = elim (strip_prefix (comparator_text op) rest) [
    | none ↦ parse_delta ops rest
    | some number_text ↦
        if doubles.is_finite (doubles.to_number number_text)
        then ok (delta_pct op (doubles.to_number number_text))
        else error (not_a_number op number_text)
  ]

  abbrev pub parse_stripped : Text → Parsed (Atom Number)
  parse_stripped [] = error empty_atom
  parse_stripped (c ∷ t) =
      if text_eq (c ∷ t) (lit "status_changed")
      then ok status_changed
      else if text_eq (c ∷ t) (lit "signature_changed")
      then ok signature_changed
      else if text_eq (c ∷ t) (lit "always")
      then ok always
      else if text_eq (c ∷ t) (lit "never")
      then ok never
      else elim (strip_prefix (lit "delta_pct") (c ∷ t)) [
        | none ↦ error (unknown_atom (c ∷ t))
        | some rest ↦ parse_delta comparators rest
      ]

  unfoldable pub parse_atom : Text → Parsed (Atom Number)
  unfolding text_eq strip_whitespace parse_delta
  parse_atom raw = parse_stripped (strip_whitespace raw)

  unfoldable pub parse_atoms : List Text → Parsed (List (Atom Number))
  unfolding parse_atom
  parse_atoms [] = ok []
  parse_atoms (part ∷ parts) = elim (parse_atom part) [
    | error e ↦ error e
    | ok atom ↦ elim (parse_atoms parts) [ error e ↦ error e | ok atoms ↦ ok (atom ∷ atoms) ]
  ]

  unfoldable pub parse_groups : List Text → Parsed (List (List (Atom Number)))
  unfolding parse_atoms split_at
  parse_groups [] = ok []
  parse_groups (group ∷ groups) = elim (parse_atoms (split_at b'&' false group)) [
    | error e ↦ error e
    | ok atoms ↦ elim (parse_groups groups) [
      | error e ↦ error e
      | ok conjunctions ↦ ok (atoms ∷ conjunctions)
    ]
  ]

  unfoldable pub parse_predicate : Text → Parsed (List (List (Atom Number)))
  unfolding parse_groups
  parse_predicate predicate = parse_groups (split_at b'|' false predicate)

  unfoldable pub compare_op : Comparator → Number → Number → Bool
  compare_op op_gt a b = doubles.less b a
  compare_op op_ge a b = doubles.less_eq b a
  compare_op op_lt a b = doubles.less a b
  compare_op op_le a b = doubles.less_eq a b
  compare_op op_eq a b = doubles.equal a b
  compare_op op_ne a b = not (doubles.equal a b)

  -- `===` on texts or null
  abbrev pub same_signature : Option Text → Option Text → Bool
  same_signature none none = true
  same_signature (some a) (some b) = text_eq a b
  same_signature _ _ = false

  unfoldable pub eval_atom :
      Atom Number → AnalysisResult Number → Option (AnalysisResult Number) → Bool
  unfolding compare_op text_eq
  eval_atom always current previous = true
  eval_atom never current previous = false
  eval_atom status_changed current none = true
  eval_atom status_changed current (some previous) = not (text_eq current.status previous.status)
  eval_atom signature_changed current none = true
  eval_atom signature_changed current (some previous) =
      not (same_signature current.narrative_signature previous.narrative_signature)
  eval_atom (delta_pct op value) current previous = elim current.delta_pct [
    | none ↦ false
    | some dp ↦ if doubles.is_finite dp then compare_op op (doubles.abs dp) value else false
  ]

  unfoldable pub every_atom :
      List (Atom Number) → AnalysisResult Number → Option (AnalysisResult Number) → Bool
  unfolding eval_atom
  every_atom [] current previous = true
  every_atom (atom ∷ group) current previous =
      eval_atom atom current previous && every_atom group current previous

  unfoldable pub evaluate_conjunctions :
      List (List (Atom Number)) → AnalysisResult Number → Option (AnalysisResult Number) → Bool
  unfolding every_atom
  evaluate_conjunctions [] current previous = false
  evaluate_conjunctions (group ∷ groups) current previous =
      let rest = evaluate_conjunctions groups current previous in
      if every_atom group current previous then true else rest

  abbrev pub reuse_or_skip : AnalysisResult Number → NarrativeIntent
  reuse_or_skip previous = if truthy previous.narrative then reuse else skip

  -- Behind the checks on the previous result
  unfoldable pub by_predicate :
      Text → AnalysisResult Number → AnalysisResult Number → NarrativeIntent
  unfolding parse_predicate evaluate_conjunctions
  by_predicate expr current previous = elim (parse_predicate expr) [
    | ok conjunctions ↦
        if evaluate_conjunctions conjunctions current (some previous)
        then call
        else reuse_or_skip previous
    | error e ↦ elim (parse_predicate (lit "status_changed")) [
      | error e' ↦ skip
      | ok fallback ↦
          if evaluate_conjunctions fallback current (some previous)
          then call
          else reuse_or_skip previous
    ]
  ]

  -- `previous?.narrative && current.narrativeSignature !== null && …`
  unfoldable pub is_cached : AnalysisResult Number → AnalysisResult Number → Bool
  unfolding text_eq
  is_cached current previous = truthy previous.narrative && elim current.narrative_signature [
    | none ↦ false
    | some signature ↦ same_signature (some signature) previous.narrative_signature
  ]

  abbrev pub with_previous :
      Text → AnalysisResult Number → Option (AnalysisResult Number) → NarrativeIntent
  with_previous expr current none = call
  with_previous expr current (some previous) =
      if is_cached current previous then reuse else by_predicate expr current previous

  unfoldable pub evaluate_gate :
      Option Text → AnalysisResult Number → Option (AnalysisResult Number) → NarrativeIntent
  unfolding trim by_predicate is_cached
  evaluate_gate predicate current previous =
      let expr = trim (elim predicate [ none ↦ lit "status_changed" | some p ↦ p ]) in
      if text_eq expr []
      then skip
      else if text_eq expr (lit "never")
      then skip
      else with_previous expr current previous
