-- ===== src/Alerts/Pool/Runs.antt =====
-- Runs of `mapWithConcurrency`, packages/obs-collector/src/plugins/alerts-evaluator.ts, in any order in
-- which the mapper answers.
use obs_unified.Common.{
  ℕ, zero, suc, ◌≤◌, ◌<◌, ◌≡◌, ◌≢◌, refl, sym, ap, ◌∙◌, List, none, some, inl, inr, length,
  get_elem?, set, replicate, lt-length_of_get_elem?, ltb, ltb-false→le, Bool-cases, arith,
}
use obs_unified.Alerts.Pool.{Pool, take_next, resume, launch, worker_count, start}
use obs_unified.Alerts.Pool.Laws.{
  get_elem?-set_same, get_elem?-set_other, length-set, length-replicate, get_elem?-replicate, busy,
  busy-set-none, equal_or_not, work, work-take_next, IsServed, take_next-IsServed, release,
  length-write_result, release-IsServed,
}

module _ {T R : Type 0} (mapper : T → R) (items : List T) where
  -- At every await: a worker that has ended left no item to be taken.
  pub record IsSound (p : Pool R) : Type 0 where
    pub full : length p.results ≡ length items
    pub served : (k : ℕ) (item : T) → get_elem? items k ≡ some item → IsServed mapper items k item p
    pub ended : (worker : ℕ) → get_elem? p.workers worker ≡ some none → length items ≤ p.next_index

  -- The worker at the loop's test leaves no item either when it ends.
  ended-take_next :
      (worker any : ℕ) (p : Pool R)
      → (worker ≢ any → get_elem? p.workers any ≡ some none → length items ≤ p.next_index)
      → get_elem? p.workers worker ≡ some none
      → get_elem? (take_next mapper items worker p).workers any ≡ some none
      → length items ≤ (take_next mapper items worker p).next_index
  unfolding take_next
  ended-take_next worker any p others idle = elim (Bool-cases (ltb p.next_index (length items))) [
    | inr ended ↦ rw (take_next, ended) (λ h. ltb-false→le p.next_index (length items) ended)
    | inl more ↦
        rw (take_next, more)
          (λ h. elim (equal_or_not worker any) [
            | inl same ↦
                let taken =
                  get_elem?-set_same p.workers worker (some p.next_index)
                    (lt-length_of_get_elem? p.workers worker idle) in
                let here = ap (get_elem? (set p.workers worker (some p.next_index))) same in
                absurd (cc)
            | inr other ↦ omega (
              arith,
              others other
                  (sym (get_elem?-set_other p.workers worker any (some p.next_index) other) ∙ h),
            )
          ])
  ]

  full-take_next :
      (worker : ℕ) (p : Pool R)
      → length (take_next mapper items worker p).results ≡ length p.results
  unfolding take_next
  full-take_next worker p = elim (Bool-cases (ltb p.next_index (length items))) [
    | inl more ↦ rw (take_next, more) refl
    | inr ended ↦ rw (take_next, ended) refl
  ]

  crew-take_next :
      (worker : ℕ) (p : Pool R)
      → length (take_next mapper items worker p).workers ≡ length p.workers
  unfolding take_next
  crew-take_next worker p = elim (Bool-cases (ltb p.next_index (length items))) [
    | inl more ↦ rw (take_next, more) (length-set p.workers worker (some p.next_index))
    | inr ended ↦ rw (take_next, ended) refl
  ]

  module _ (worker current : ℕ) (p : Pool R)
      (held : get_elem? p.workers worker ≡ some (some current)) where
    resume_held :
        resume mapper items worker p
        ≡ take_next mapper items worker (release mapper items worker current p)
    unfolding resume
    resume_held = rw (resume, held)

    idle_then : get_elem? (release mapper items worker current p).workers worker ≡ some none
    idle_then =
        get_elem?-set_same p.workers worker none (lt-length_of_get_elem? p.workers worker held)

    pub work-resume : work mapper items p ≡ suc (work mapper items (resume mapper items worker p))
    unfolding work
    work-resume =
        rw
          (
            resume_held,
            work-take_next mapper items worker (release mapper items worker current p) idle_then,
          )
          (omega (arith, busy-set-none p.workers worker current held))

    pub crew-resume : length (resume mapper items worker p).workers ≡ length p.workers
    crew-resume = rw resume_held (
        crew-take_next worker (release mapper items worker current p)
        ∙ length-set p.workers worker none)

    pub resume-IsSound : IsSound p → IsSound (resume mapper items worker p)
    resume-IsSound sound =
        let q = release mapper items worker current p in
        rw resume_held (record {
          full =
              full-take_next worker q
              ∙ length-write_result mapper items current p.results
              ∙ sound.full;
          served = λ k item found. take_next-IsServed mapper items worker k item q idle_then (
              release-IsServed mapper items worker current k item p found sound.full held
                (sound.served k item found));
          ended = λ any.
              ended-take_next worker any q
                (λ apart h.
                  sound.ended any (sym (get_elem?-set_other p.workers worker any none apart) ∙ h))
                idle_then;
        })

  -- While the workers start: those below `count` are at an await or have ended, the others wait.
  pub record IsLaunched (crew count : ℕ) (p : Pool R) : Type 0 where
    pub full : length p.results ≡ length items
    pub served : (k : ℕ) (item : T) → get_elem? items k ≡ some item → IsServed mapper items k item p
    pub ended :
        (worker : ℕ)
        → worker < count
        → get_elem? p.workers worker ≡ some none
        → length items ≤ p.next_index
    pub waiting :
        (worker : ℕ) → count ≤ worker → worker < crew → get_elem? p.workers worker ≡ some none
    pub size : length p.workers ≡ crew
    pub all_left : work mapper items p ≡ length items

  take_next_other :
      (worker other : ℕ) (p : Pool R)
      → worker ≢ other
      → get_elem? (take_next mapper items worker p).workers other ≡ get_elem? p.workers other
  unfolding take_next
  take_next_other worker other p apart = elim (Bool-cases (ltb p.next_index (length items))) [
    | inl more ↦
        rw (take_next, more) (get_elem?-set_other p.workers worker other (some p.next_index) apart)
    | inr over ↦ rw (take_next, over) refl
  ]

  lt_suc_apart : {worker any : ℕ} → any < suc worker → worker ≢ any → any < worker
  lt_suc_apart below apart = elim (equal_or_not _ _) [
    | inl same ↦ absurd (apart same)
    | inr other ↦ omega arith
  ]

  launch-IsLaunched :
      (crew count : ℕ) (p : Pool R)
      → count ≤ crew
      → IsLaunched crew 0 p
      → IsLaunched crew count (launch mapper items count p)
  unfolding launch
  launch-IsLaunched crew zero p le i = i
  launch-IsLaunched crew (suc worker) p le i =
      let q = launch mapper items worker p in
      let before = launch-IsLaunched crew worker p (omega arith) i in
      let idle = before.waiting worker (omega arith) (omega arith) in
      record {
        full = full-take_next worker q ∙ before.full;
        served = λ k item found.
            take_next-IsServed mapper items worker k item q idle (before.served k item found);
        ended = λ any below.
            ended-take_next worker any q (λ apart. before.ended any (lt_suc_apart below apart))
              idle;
        waiting = λ other past within.
            take_next_other worker other q (λ e. absurd (omega arith))
            ∙ before.waiting other (omega arith) within;
        size = crew-take_next worker q ∙ before.size;
        all_left = work-take_next mapper items worker q idle ∙ before.all_left;
      }

  busy-replicate : (n : ℕ) → busy (replicate n none) ≡ 0
  unfolding busy
  busy-replicate zero = refl
  busy-replicate (suc n) = busy-replicate n

  pub start-IsLaunched :
      (concurrency : ℕ)
      → IsLaunched
          (worker_count mapper items concurrency)
          (worker_count mapper items concurrency)
          (start mapper items concurrency)
  unfolding start work IsServed
  start-IsLaunched concurrency =
      let crew = worker_count mapper items concurrency in
      launch-IsLaunched crew crew _ (omega arith) (record {
        full = length-replicate (length items) none;
        served = λ k item found. inr (inr (omega arith));
        ended = λ worker below h. absurd (omega arith);
        waiting = λ worker past within. get_elem?-replicate crew none worker within;
        size = length-replicate crew none;
        all_left = omega (arith, busy-replicate crew);
      })

  pub start-IsSound : (concurrency : ℕ) → IsSound (start mapper items concurrency)
  start-IsSound concurrency =
      let i = start-IsLaunched concurrency in
      record {
        full = i.full;
        served = i.served;
        ended =
            λ worker h. i.ended worker (omega (arith, i.size, lt-length_of_get_elem? _ worker h)) h;
      }
