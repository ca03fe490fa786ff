-- ===== src/Common/Sort.antt =====
-- `array.sort((a, b) => b.value - a.value)` on natural numbers: stable, the greater values first.
use Prim.Native.Nat.{ℕ, ◌≤◌}
use mathlib.Core.Logic.{inl, inr}
use mathlib.Core.List.{List, [], ◌∷◌, Perm}
use mathlib.Core.List.Perm
use native.Mathlib.Omega.{arith}
use obs_unified.Common.Tests.{ltb, ltb→lt, ltb-false→le, Bool-cases, if◌then◌else◌}
use obs_unified.Common.Lists.{All, All_mono, AllPairs}

module _ {A : Type 0} (value : A → ℕ) where
  unfoldable pub insert_desc : A → List A → List A
  insert_desc a [] = a ∷ []
  insert_desc a (b ∷ l) = if ltb (value a) (value b) then b ∷ insert_desc a l else a ∷ b ∷ l

  unfoldable pub sort_desc : List A → List A
  unfolding insert_desc
  sort_desc [] = []
  sort_desc (a ∷ l) = insert_desc a (sort_desc l)

  abbrev pub IsDesc : List A → Type 0
  IsDesc l = AllPairs (λ a b. value b ≤ value a) l

  insert_desc-All : (P : A → Type 0) (a : A) (l : List A) → P a → All P l → All P (insert_desc a l)
  unfolding insert_desc
  insert_desc-All P a [] p h = (p, tt)
  insert_desc-All P a (b ∷ l) p (here, h) = elim (Bool-cases (ltb (value a) (value b))) [
    | inl less ↦ rw less (here, insert_desc-All P a l p h)
    | inr first_place ↦ rw first_place (p, (here, h))
  ]

  insert_desc-IsDesc : (a : A) (l : List A) → IsDesc l → IsDesc (insert_desc a l)
  unfolding insert_desc
  insert_desc-IsDesc a [] d = (tt, tt)
  insert_desc-IsDesc a (b ∷ l) (here, d) = elim (Bool-cases (ltb (value a) (value b))) [
    | inl less ↦ rw less (
      insert_desc-All _ a l (omega (arith, ltb→lt (value a) (value b) less)) here,
      insert_desc-IsDesc a l d,
    )
    | inr first_place ↦
        let le = ltb-false→le (value a) (value b) first_place in
        rw first_place ((le, All_mono _ _ l (λ c h. omega (arith, h, le)) here), (here, d))
  ]

  pub sort_desc-IsDesc : (l : List A) → IsDesc (sort_desc l)
  unfolding sort_desc
  sort_desc-IsDesc [] = tt
  sort_desc-IsDesc (a ∷ l) = insert_desc-IsDesc a (sort_desc l) (sort_desc-IsDesc l)

  insert_desc-perm : (a : A) (l : List A) → Perm (insert_desc a l) (a ∷ l)
  unfolding insert_desc
  insert_desc-perm a [] = Perm.refl (a ∷ [])
  insert_desc-perm a (b ∷ l) = elim (Bool-cases (ltb (value a) (value b))) [
    | inl less ↦ rw less (Perm.trans (Perm.cons b (insert_desc-perm a l)) (Perm.swap a b l))
    | inr first_place ↦ rw first_place (Perm.refl (a ∷ b ∷ l))
  ]

  pub sort_desc-perm : (l : List A) → Perm (sort_desc l) l
  unfolding sort_desc
  sort_desc-perm [] = Perm.refl []
  sort_desc-perm (a ∷ l) =
      Perm.trans (insert_desc-perm a (sort_desc l)) (Perm.cons a (sort_desc-perm l))
