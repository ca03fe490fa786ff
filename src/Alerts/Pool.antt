-- ===== src/Alerts/Pool.antt =====
-- `mapWithConcurrency` of packages/obs-collector/src/plugins/alerts-evaluator.ts: workers that share a
-- counter. Between two awaits nothing else runs, so the state changes when a worker's mapper answers.
pub mod Laws
pub mod Runs
mod Tests
use obs_unified.Common.{
  ℕ, zero, suc, List, [], ◌∷◌, Option, none, some, length, get_elem?, set, replicate, ltb,
  if◌then◌else◌,
}

-- A worker that awaits the mapper holds the index of its item; one that has ended holds none. An item
-- of `results` is `none` until it is written.
pub record Pool (R : Type 0) : Type 0 where
  pub results : List (Option R)
  pub next_index : ℕ
  pub workers : List (Option ℕ)

abbrev pub min : ℕ → ℕ → ℕ
min a b = if ltb b a then b else a

module _ {T R : Type 0} (mapper : T → R) (items : List T) where
  -- The loop's test of a worker that holds nothing: it takes the next item, or it ends.
  unfoldable pub take_next : ℕ → Pool R → Pool R
  take_next worker p =
      if ltb p.next_index (length items)
      then record p {
        next_index = suc p.next_index;
        workers = set p.workers worker (some p.next_index);
      }
      else p

  unfoldable pub write_result : ℕ → List (Option R) → List (Option R)
  write_result current results = elim (get_elem? items current) [
    | none ↦ results
    | some item ↦ set results current (some (mapper item))
  ]

  -- The mapper of the worker answers: the result is written, and the loop goes on.
  unfoldable pub resume : ℕ → Pool R → Pool R
  unfolding take_next write_result
  resume worker p = elim (get_elem? p.workers worker) [
    | none ↦ p
    | some holds ↦ elim holds [
      | none ↦ p
      | some current ↦ take_next worker (record p {
        results = write_result current p.results;
        workers = set p.workers worker none;
      })
    ]
  ]

  -- The workers start in their order, each up to its first await.
  unfoldable pub launch : ℕ → Pool R → Pool R
  unfolding take_next
  launch zero p = p
  launch (suc worker) p = take_next worker (launch worker p)

  abbrev pub worker_count : ℕ → ℕ
  worker_count concurrency = min concurrency (length items)

  unfoldable pub start : ℕ → Pool R
  unfolding launch
  start concurrency = launch (worker_count concurrency) (record {
    results = replicate (length items) none;
    next_index = 0;
    workers = replicate (worker_count concurrency) none;
  })

  -- The mappers answer in the order of the workers listed.
  unfoldable pub proceed : Pool R → List ℕ → Pool R
  unfolding resume
  proceed p [] = p
  proceed p (worker ∷ order) = proceed (resume worker p) order
