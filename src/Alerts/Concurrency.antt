-- ===== src/Alerts/Concurrency.antt =====
-- `mapWithConcurrency`, packages/obs-collector/src/plugins/alerts-evaluator.ts, for its caller.
use obs_unified.Common.{
  ℕ, zero, suc, ◌+◌, ◌≤◌, ◌<◌, ◌≡◌, ◌⊎◌, refl, sym, ap, ◌∙◌, List, [], ◌∷◌, map, Option, none, some,
  inl, inr, length, get_elem?, lt-length_of_get_elem?, arith,
}
use obs_unified.Alerts.Pool.{Pool, resume, start, proceed, min}
use obs_unified.Alerts.Pool.Laws.{busy, busy-set-none, work, IsServed}
use obs_unified.Alerts.Pool.Runs.{
  IsSound, start-IsLaunched, start-IsSound, resume-IsSound, work-resume, crew-resume,
}

-- Two lists with the same elements at every index
list_ext :
    {A : Type 0} (xs ys : List A)
    → length xs ≡ length ys
    → ((i : ℕ) (y : A) → get_elem? ys i ≡ some y → get_elem? xs i ≡ some y)
    → xs ≡ ys
list_ext [] [] l h = refl
list_ext [] (y ∷ ys) l h = absurd (omega arith)
list_ext (x ∷ xs) [] l h = absurd (omega arith)
list_ext (x ∷ xs) (y ∷ ys) l h =
    let here = h 0 y refl in let rest = list_ext xs ys (omega arith) (λ i z e. h (suc i) z e) in cc

busy_zero : (ws : List (Option ℕ)) (i k : ℕ) → busy ws ≡ 0 → get_elem? ws i ≡ some (some k) → ⊥
busy_zero ws i k z h = omega (arith, busy-set-none ws i k h)

-- Either a worker holds an item, or the first has ended.
busy_or_ended :
    (ws : List (Option ℕ))
    → 1 ≤ length ws
    → ((i : ℕ) × (k : ℕ) × (get_elem? ws i ≡ some (some k)))
      ⊎ ((get_elem? ws 0 ≡ some none) × (busy ws ≡ 0))
unfolding busy
busy_or_ended [] h = absurd (omega arith)
busy_or_ended (some k ∷ ws) h = inl (0, k, refl)
busy_or_ended (none ∷ []) h = inr (refl, refl)
busy_or_ended (none ∷ w ∷ ws) h = elim (busy_or_ended (w ∷ ws) (omega arith)) [
  | inl (i, k, e) ↦ inl (suc i, k, e)
  | inr (e, z) ↦ inr (refl, z)
]

module _ {T R : Type 0} (mapper : T → R) (items : List T) where
  -- An order in which the mapper may answer: only to a worker that awaits it
  unfoldable pub IsOrder : Pool R → List ℕ → Type 0
  IsOrder p [] = Unit
  IsOrder p (worker ∷ order) =
      ((current : ℕ) × (get_elem? p.workers worker ≡ some (some current)))
      × IsOrder (resume mapper items worker p) order

  record Reached (p : Pool R) (steps : ℕ) (q : Pool R) : Type 0 where
    sound : IsSound mapper items q
    left : steps + work mapper items q ≡ work mapper items p
    crew : length q.workers ≡ length p.workers

  proceed-Reached :
      (p : Pool R) (order : List ℕ)
      → IsSound mapper items p
      → IsOrder p order
      → Reached p (length order) (proceed mapper items p order)
  unfolding IsOrder proceed
  proceed-Reached p [] sound o = record { sound = sound; left = omega arith; crew = refl }
  proceed-Reached p (worker ∷ order) sound ((current, held), o) =
      let r =
        proceed-Reached (resume mapper items worker p) order
          (resume-IsSound mapper items worker current p held sound) o in
      record {
        sound = r.sound;
        left = omega (arith, r.left, work-resume mapper items worker current p held);
        crew = r.crew ∙ crew-resume mapper items worker current p held;
      }

  get_elem?-map :
      (ts : List T) (i : ℕ) {y : Option R}
      → get_elem? (map (λ t. some (mapper t)) ts) i ≡ some y
      → (t : T) × ((get_elem? ts i ≡ some t) × (y ≡ some (mapper t)))
  get_elem?-map [] i h = absurd (cc)
  get_elem?-map (t ∷ ts) zero h = (t, (refl, cc))
  get_elem?-map (t ∷ ts) (suc i) h = get_elem?-map ts i h

  length-map : (ts : List T) → length (map (λ t. some (mapper t)) ts) ≡ length ts
  length-map [] = refl
  length-map (t ∷ ts) = ap suc (length-map ts)

  -- However many workers there are and in whatever order the mapper answers, after as many answers as
  -- there are items every result is the mapper's for the item at its place.
  pub proceed-map :
      (concurrency : ℕ) (order : List ℕ)
      → IsOrder (start mapper items concurrency) order
      → length order ≡ length items
      → (proceed mapper items (start mapper items concurrency) order).results
        ≡ map (λ item. some (mapper item)) items
  unfolding work IsServed
  proceed-map concurrency order o all =
      let p = start mapper items concurrency in
      let q = proceed mapper items p order in
      let r = proceed-Reached p order (start-IsSound mapper items concurrency) o in
      let launched = start-IsLaunched mapper items concurrency in
      let none_left : work mapper items q ≡ 0 = omega (arith, r.left, launched.all_left) in
      list_ext q.results _ (r.sound.full ∙ sym (length-map items)) (λ i y e.
        let (item, (found, same)) = get_elem?-map items i e in
        elim (r.sound.served i item found) [
          | inl mapped ↦ mapped ∙ ap some (sym same)
          | inr (inl (worker, holds)) ↦ absurd (busy_zero q.workers worker i (omega arith) holds)
          | inr (inr later) ↦ absurd (omega (arith, lt-length_of_get_elem? items i found))
        ])

  work-le-zero :
      (q : Pool R)
      → IsSound mapper items q
      → get_elem? q.workers 0 ≡ some none
      → busy q.workers ≡ 0
      → work mapper items q ≡ 0
  unfolding work
  work-le-zero q sound idle z = omega (arith, sound.ended 0 idle)

  start-crew :
      (concurrency : ℕ)
      → 1 ≤ concurrency
      → 1 ≤ length items
      → 1 ≤ length (start mapper items concurrency).workers
  start-crew concurrency some_workers some_items =
      omega (arith, (start-IsLaunched mapper items concurrency).size, min_pos)
    where
      min_pos : 1 ≤ min concurrency (length items)
      min_pos = ground arith

  -- With at least one worker, as long as there were fewer answers than items some worker awaits the
  -- mapper, in whatever order it answered.
  pub proceed_goes_on :
      (concurrency : ℕ) (order : List ℕ)
      → 1 ≤ concurrency
      → IsOrder (start mapper items concurrency) order
      → length order < length items
      → (worker : ℕ) × (current : ℕ) × (get_elem?
            (proceed mapper items (start mapper items concurrency) order).workers
            worker
          ≡ some (some current))
  proceed_goes_on concurrency order some_workers o short =
      let p = start mapper items concurrency in
      let q = proceed mapper items p order in
      let r = proceed-Reached p order (start-IsSound mapper items concurrency) o in
      let launched = start-IsLaunched mapper items concurrency in
      elim (busy_or_ended q.workers
        (omega (arith, r.crew, start-crew concurrency some_workers (omega arith)))) [
          | inl found ↦ found
          | inr (idle, z) ↦
              absurd (omega (arith, work-le-zero q r.sound idle z, r.left, launched.all_left))
        ]
