-- ===== src/Alerts/Pool/Tests.antt =====
-- The theorems about `mapWithConcurrency`, packages/obs-collector/src/plugins/alerts-evaluator.ts, at
-- three items and two workers.
use obs_unified.Common.{ℕ, ◌+◌, ◌≡◌, refl, List, [], ◌∷◌, map, none, some, get_elem?, arith}
use obs_unified.Alerts.Pool.{take_next, write_result, resume, launch, start, proceed}
use obs_unified.Alerts.Evaluator.{Counts}
use obs_unified.Alerts.Concurrency.{IsOrder, proceed-map, proceed_goes_on}

program : Unit {0}
unfolding take_next write_result resume launch start proceed IsOrder
program = tt

abbrev items : List ℕ
items = 30 ∷ 40 ∷ 50 ∷ []

-- The second worker answers first and takes the last item.
abbrev order : List ℕ
order = 1 ∷ 0 ∷ 1 ∷ []

order-IsOrder : IsOrder (λ n. n + 1) items (start (λ n. n + 1) items 2) order
unfolding program
order-IsOrder = ((1, refl), ((0, refl), ((2, refl), tt)))

half : IsOrder (λ n. n + 1) items (start (λ n. n + 1) items 2) (1 ∷ [])
unfolding program
half = ((1, refl), tt)

half_way :
    (proceed (λ n. n + 1) items (start (λ n. n + 1) items 2) (1 ∷ [])).results
    ≡ none ∷ some 41 ∷ none ∷ []
unfolding program
half_way = refl

proceed-map_example :
    (proceed (λ n. n + 1) items (start (λ n. n + 1) items 2) order).results
    ≡ map (λ item. some (item + 1)) items
proceed-map_example = proceed-map (λ n. n + 1) items 2 order order-IsOrder refl

proceed_goes_on_example :
    (worker : ℕ) × (current : ℕ) × (get_elem?
        (proceed (λ n. n + 1) items (start (λ n. n + 1) items 2) (1 ∷ [])).workers
        worker
      ≡ some (some current))
proceed_goes_on_example =
    proceed_goes_on (λ n. n + 1) items 2 (1 ∷ []) (omega arith) half (omega arith)

-- The evaluation of a rule, here a number
abbrev outcome : ℕ → Counts
outcome rule = record { fired = rule; resolved = 1 }
