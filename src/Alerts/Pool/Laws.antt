-- ===== src/Alerts/Pool/Laws.antt =====
-- Single steps of the workers of `mapWithConcurrency`,
-- packages/obs-collector/src/plugins/alerts-evaluator.ts.
use obs_unified.Common.{
  ℕ, zero, suc, ◌+◌, ◌-◌, ◌≤◌, ◌<◌, ◌≡◌, ◌≢◌, ◌⊎◌, refl, ap, ◌∙◌, List, [], ◌∷◌, Option, none, some,
  inl, inr, length, get_elem?, set, replicate, lt-length_of_get_elem?, ltb, ltb→lt, ltb-false→le,
  Bool-cases, Option-cases, arith,
}
use obs_unified.Alerts.Pool.{Pool, take_next, write_result}

module _ {A : Type 0} where
  pub get_elem?-set_same :
      (xs : List A) (i : ℕ) (v : A) → i < length xs → get_elem? (set xs i v) i ≡ some v
  get_elem?-set_same [] i v h = absurd (omega arith)
  get_elem?-set_same (x ∷ xs) zero v h = refl
  get_elem?-set_same (x ∷ xs) (suc i) v h = get_elem?-set_same xs i v (omega arith)

  pub get_elem?-set_other :
      (xs : List A) (i j : ℕ) (v : A) → i ≢ j → get_elem? (set xs i v) j ≡ get_elem? xs j
  get_elem?-set_other [] i j v h = refl
  get_elem?-set_other (x ∷ xs) zero zero v h = absurd (h refl)
  get_elem?-set_other (x ∷ xs) zero (suc j) v h = refl
  get_elem?-set_other (x ∷ xs) (suc i) zero v h = refl
  get_elem?-set_other (x ∷ xs) (suc i) (suc j) v h =
      get_elem?-set_other xs i j v (λ e. h (ap suc e))

  pub length-set : (xs : List A) (i : ℕ) (v : A) → length (set xs i v) ≡ length xs
  length-set [] i v = refl
  length-set (x ∷ xs) zero v = refl
  length-set (x ∷ xs) (suc i) v = omega (arith, length-set xs i v)

  pub length-replicate : (n : ℕ) (v : A) → length (replicate n v) ≡ n
  length-replicate zero v = refl
  length-replicate (suc n) v = omega (arith, length-replicate n v)

  pub get_elem?-replicate : (n : ℕ) (v : A) (i : ℕ) → i < n → get_elem? (replicate n v) i ≡ some v
  get_elem?-replicate zero v i h = absurd (omega arith)
  get_elem?-replicate (suc n) v zero h = refl
  get_elem?-replicate (suc n) v (suc i) h = get_elem?-replicate n v i (omega arith)

le_cases : (a b : ℕ) → a ≤ b → (a ≡ b) ⊎ (suc a ≤ b)
le_cases a b h = elim (Bool-cases (ltb a b)) [
  | inl below ↦ inr (ltb→lt a b below)
  | inr above ↦ inl (omega (arith, ltb-false→le a b above))
]

pub equal_or_not : (a b : ℕ) → (a ≡ b) ⊎ (a ≢ b)
equal_or_not a b = elim (Bool-cases (ltb a b)) [
  | inl below ↦ inr (λ e. absurd (omega (arith, ltb→lt a b below)))
  | inr above ↦ elim (Bool-cases (ltb b a)) [
    | inl over ↦ inr (λ e. absurd (omega (arith, ltb→lt b a over)))
    | inr under ↦ inl (omega (arith, ltb-false→le a b above, ltb-false→le b a under))
  ]
]

-- The workers that hold an item
unfoldable pub busy : List (Option ℕ) → ℕ
busy [] = 0
busy (none ∷ ws) = busy ws
busy (some k ∷ ws) = suc (busy ws)

pub busy-set-none :
    (ws : List (Option ℕ)) (i k : ℕ)
    → get_elem? ws i ≡ some (some k)
    → busy ws ≡ suc (busy (set ws i none))
unfolding busy
busy-set-none [] i k h = cc
busy-set-none (w ∷ ws) zero k h = rw (the_same h) refl
  where
    the_same : some w ≡ some (some k) → w ≡ some k
    the_same e = cc
busy-set-none (none ∷ ws) (suc i) k h = busy-set-none ws i k h
busy-set-none (some j ∷ ws) (suc i) k h = ap suc (busy-set-none ws i k h)

busy-set-some :
    (ws : List (Option ℕ)) (i k : ℕ)
    → get_elem? ws i ≡ some none
    → busy (set ws i (some k)) ≡ suc (busy ws)
unfolding busy
busy-set-some [] i k h = cc
busy-set-some (none ∷ ws) zero k h = refl
busy-set-some (some j ∷ ws) zero k h = cc
busy-set-some (none ∷ ws) (suc i) k h = busy-set-some ws i k h
busy-set-some (some j ∷ ws) (suc i) k h = ap suc (busy-set-some ws i k h)

module _ {T R : Type 0} (mapper : T → R) (items : List T) where
  -- What is left to do: the items that nobody has taken, and those that a worker holds
  unfoldable pub work : Pool R → ℕ
  work p = (length items - p.next_index) + busy p.workers

  pub work-take_next :
      (worker : ℕ) (p : Pool R)
      → get_elem? p.workers worker ≡ some none
      → work (take_next mapper items worker p) ≡ work p
  unfolding work take_next
  work-take_next worker p idle = elim (Bool-cases (ltb p.next_index (length items))) [
    | inl more ↦
        rw (take_next, more, busy-set-some p.workers worker p.next_index idle)
          (omega (arith, ltb→lt p.next_index (length items) more))
    | inr ended ↦ rw (take_next, ended) refl
  ]

  -- The item `k` is mapped, or a worker holds it, or nobody has taken it.
  unfoldable pub IsServed : ℕ → T → Pool R → Type 0
  IsServed k item p =
      (get_elem? p.results k ≡ some (some (mapper item)))
      ⊎ (((worker : ℕ) × (get_elem? p.workers worker ≡ some (some k))) ⊎ (p.next_index ≤ k))

  pub take_next-IsServed :
      (worker k : ℕ) (item : T) (p : Pool R)
      → get_elem? p.workers worker ≡ some none
      → IsServed k item p
      → IsServed k item (take_next mapper items worker p)
  unfolding IsServed take_next
  take_next-IsServed worker k item p idle s = elim (Bool-cases (ltb p.next_index (length items))) [
    | inr ended ↦ rw (take_next, ended) s
    | inl more ↦
        rw (take_next, more)
          (elim s [
            | inl mapped ↦ inl mapped
            | inr (inl (other, holds)) ↦ inr (
                inl (
                  other,
                  get_elem?-set_other p.workers worker other (some p.next_index)
                        (λ e. not_both e holds)
                      ∙ holds,
                ))
            | inr (inr later) ↦ elim (le_cases p.next_index k later) [
              | inl taken ↦ inr (
                  inl (
                    worker,
                    get_elem?-set_same p.workers worker (some p.next_index)
                          (lt-length_of_get_elem? p.workers worker idle)
                        ∙ ap (λ i. some (some i)) taken,
                  ))
              | inr untaken ↦ inr (inr untaken)
            ]
          ])
  ]
    where
      not_both : {other : ℕ} → worker ≡ other → get_elem? p.workers other ≡ some (some k) → ⊥
      not_both e holds = let same = ap (get_elem? p.workers) e in cc

  abbrev pub release : ℕ → ℕ → Pool R → Pool R
  release worker current p = record p {
    results = write_result mapper items current p.results;
    workers = set p.workers worker none;
  }

  pub length-write_result :
      (current : ℕ) (results : List (Option R))
      → length (write_result mapper items current results) ≡ length results
  unfolding write_result
  length-write_result current results = elim (Option-cases (get_elem? items current)) [
    | inl beyond ↦ rw (write_result, beyond) refl
    | inr (item, found) ↦ rw (write_result, found) (length-set results current (some (mapper item)))
  ]

  write_result_same :
      (k : ℕ) (item : T) (results : List (Option R))
      → get_elem? items k ≡ some item
      → length results ≡ length items
      → get_elem? (write_result mapper items k results) k ≡ some (some (mapper item))
  unfolding write_result
  write_result_same k item results found full =
      rw (write_result, found)
        (get_elem?-set_same results k (some (mapper item))
          (omega (arith, full, lt-length_of_get_elem? items k found)))

  write_result_other :
      (current k : ℕ) (results : List (Option R))
      → current ≢ k
      → get_elem? (write_result mapper items current results) k ≡ get_elem? results k
  unfolding write_result
  write_result_other current k results other = elim (Option-cases (get_elem? items current)) [
    | inl beyond ↦ rw (write_result, beyond) refl
    | inr (item, found) ↦
        rw (write_result, found) (get_elem?-set_other results current k (some (mapper item)) other)
  ]

  pub release-IsServed :
      (worker current k : ℕ) (item : T) (p : Pool R)
      → get_elem? items k ≡ some item
      → length p.results ≡ length items
      → get_elem? p.workers worker ≡ some (some current)
      → IsServed k item p
      → IsServed k item (release worker current p)
  unfolding IsServed
  release-IsServed worker current k item p found full held s = elim (equal_or_not current k) [
    | inl same ↦ inl (rw same (write_result_same k item p.results found full))
    | inr other ↦ elim s [
      | inl mapped ↦ inl (write_result_other current k p.results other ∙ mapped)
      | inr (inl (another, holds)) ↦ inr (
          inl (
            another,
            get_elem?-set_other p.workers worker another none (λ e. other (its_own e holds))
                ∙ holds,
          ))
      | inr (inr later) ↦ inr (inr later)
    ]
  ]
    where
      its_own :
          {another : ℕ}
          → worker ≡ another
          → get_elem? p.workers another ≡ some (some k)
          → current ≡ k
      its_own e holds = let same = ap (get_elem? p.workers) e in cc
