-- ===== src/Telemetry/KeepLast.antt =====
-- The newest elements of a list, as the buffer of packages/telemetry-sdk/src/span.ts keeps them.
use obs_unified.Common.{
  ℕ, zero, suc, ◌+◌, ◌-◌, ◌≤◌, ◌≡◌, ◌⊎◌, inl, inr, refl, sym, ap, ◌∙◌, List, [], ◌∷◌, ◌++◌, length,
  drop, length-append, arith,
}
use mathlib.Core.List.{Sublist, nil-sublist}
use mathlib.Core.List.Sublist

le_or_le : (m n : ℕ) → (m ≤ n) ⊎ (n ≤ m)
le_or_le zero n = inl (omega arith)
le_or_le (suc m) zero = inr (omega arith)
le_or_le (suc m) (suc n) = elim (le_or_le m n) [
  | inl h ↦ inl (omega (arith, h))
  | inr h ↦ inr (omega (arith, h))
]

module _ {A : Type 0} where
  unfoldable pub keep_last : ℕ → List A → List A
  keep_last n l = drop (length l - n) l

  length-drop : (k : ℕ) (l : List A) → length (drop k l) ≡ length l - k
  length-drop zero l = omega arith
  length-drop (suc k) [] = omega arith
  length-drop (suc k) (a ∷ l) = omega (arith, length-drop k l)

  drop-drop :
      (j k : ℕ) (xs ys : List A)
      → j ≤ length xs
      → drop (j + k) (xs ++ ys) ≡ drop k (drop j xs ++ ys)
  drop-drop zero k xs ys h = let same : 0 + k ≡ k = omega arith in ap (λ n. drop n (xs ++ ys)) same
  drop-drop (suc j) k [] ys h = absurd (omega (arith, h))
  drop-drop (suc j) k (x ∷ xs) ys h =
      let same : suc j + k ≡ suc (j + k) = omega arith in
      ap (λ n. drop n (x ∷ xs ++ ys)) same ∙ drop-drop j k xs ys (omega (arith, h))

  drop-append : (k : ℕ) (xs ys : List A) → drop (length xs + k) (xs ++ ys) ≡ drop k ys
  drop-append k [] ys = let same : 0 + k ≡ k = omega arith in ap (λ n. drop n ys) same
  drop-append k (x ∷ xs) ys =
      let same : length (x ∷ xs) + k ≡ suc (length xs + k) = omega arith in
      ap (λ n. drop n (x ∷ xs ++ ys)) same ∙ drop-append k xs ys

  pub drop-append_front :
      (k : ℕ) (xs ys : List A) → k ≤ length xs → drop k (xs ++ ys) ≡ drop k xs ++ ys
  drop-append_front zero xs ys h = refl
  drop-append_front (suc k) [] ys h = absurd (omega (arith, h))
  drop-append_front (suc k) (x ∷ xs) ys h = drop-append_front k xs ys (omega (arith, h))

  drop-Sublist : (k : ℕ) (l : List A) → Sublist (drop k l) l
  drop-Sublist zero l = Sublist.refl l
  drop-Sublist (suc k) [] = nil-sublist []
  drop-Sublist (suc k) (a ∷ l) = Sublist.cons a (drop-Sublist k l)

  pub keep_last-Sublist : (n : ℕ) (l : List A) → Sublist (keep_last n l) l
  unfolding keep_last
  keep_last-Sublist n l = drop-Sublist (length l - n) l

  pub length-keep_last-le : (n : ℕ) (l : List A) → length (keep_last n l) ≤ n
  unfolding keep_last
  length-keep_last-le n l = omega (arith, length-drop (length l - n) l)

  pub keep_last_short : (n : ℕ) (l : List A) → length l ≤ n → keep_last n l ≡ l
  unfolding keep_last
  keep_last_short n l h = let none_over : length l - n ≡ 0 = omega (arith, h) in rw none_over refl

  -- Keeping the newest at the end before the whole is shortened changes nothing.
  pub keep_last-append_keep_last :
      (n : ℕ) (xs ys : List A) → keep_last n (xs ++ keep_last n ys) ≡ keep_last n (xs ++ ys)
  unfolding keep_last
  keep_last-append_keep_last n xs ys = elim (le_or_le (length ys) n) [
    | inl short ↦ ap (λ l. drop (length (xs ++ l) - n) (xs ++ l)) (keep_last_short n ys short)
    | inr long ↦
        let j = length ys - n in
        let kept = length-drop j ys in
        let left : length (xs ++ drop j ys) - n ≡ length xs + 0 =
          omega (arith, length-append xs (drop j ys), kept, long) in
        let right : length (xs ++ ys) - n ≡ length xs + j =
          omega (arith, length-append xs ys, long) in
        ap (λ k. drop k (xs ++ drop j ys)) left
        ∙ drop-append 0 xs (drop j ys)
        ∙ sym (ap (λ k. drop k (xs ++ ys)) right ∙ drop-append j xs ys)
  ]

  pub keep_last-keep_last_append :
      (n : ℕ) (xs ys : List A) → keep_last n (keep_last n xs ++ ys) ≡ keep_last n (xs ++ ys)
  unfolding keep_last
  keep_last-keep_last_append n xs ys =
      let j = length xs - n in
      let k = length (drop j xs ++ ys) - n in
      let same : length (xs ++ ys) - n ≡ j + k =
        omega (arith, length-append xs ys, length-append (drop j xs) ys, length-drop j xs) in
      sym (ap (λ i. drop i (xs ++ ys)) same ∙ drop-drop j k xs ys (omega arith))
