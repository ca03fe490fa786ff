-- ===== src/Alerts/Batch.antt =====
-- `evaluateRuleBatch` of packages/obs-collector/src/plugins/alerts-evaluator.ts. What the evaluation of a
-- rule returns is the parameter `evaluate`; the order in which the evaluations end is an argument.
use obs_unified.Common.{ℕ, ◌+◌, List, [], ◌∷◌, Option, none, some, length, ltb, if◌then◌else◌}
use obs_unified.Alerts.Evaluator.{Counts}
use obs_unified.Alerts.Pool.{Pool, start, proceed}

pub record Totals : Type 0 where
  pub evaluated : ℕ
  pub fired : ℕ
  pub resolved : ℕ

abbrev pub default_rule_concurrency : ℕ
default_rule_concurrency = 5

-- `options?.concurrency`; a negative number is 0 here.
pub data Requested : Type 0 where
  not_given : Requested
  number : ℕ → Requested
  nan : Requested

abbrev at_least_one : ℕ → ℕ
at_least_one c = if ltb c 1 then 1 else c

-- `Math.max(1, Math.floor(options?.concurrency ?? DEFAULT_RULE_CONCURRENCY))`: of NaN this is NaN, with
-- which `Array.from` makes no worker, as with 0.
unfoldable pub concurrency_of : Requested → ℕ
concurrency_of not_given = at_least_one default_rule_concurrency
concurrency_of (number c) = at_least_one c
concurrency_of nan = 0

-- The two sums: `reduce` skips a result that was never written.
unfoldable pub sum_counts : ℕ → List (Option Counts) → Totals
sum_counts evaluated [] = record { evaluated = evaluated; fired = 0; resolved = 0 }
sum_counts evaluated (none ∷ results) = sum_counts evaluated results
sum_counts evaluated (some counts ∷ results) =
    let totals = sum_counts evaluated results in
    record totals {
      fired = counts.fired + totals.fired;
      resolved = counts.resolved + totals.resolved;
    }

unfoldable pub total_of : {A : Type 0} → (A → ℕ) → List A → ℕ
total_of f [] = 0
total_of f (a ∷ as') = f a + total_of f as'

module _ {A : Type 0} (evaluate : A → Counts) where
  unfoldable pub evaluate_rule_batch : List A → Requested → List ℕ → Totals
  unfolding concurrency_of sum_counts
  evaluate_rule_batch rules concurrency order =
      sum_counts (length rules)
        (proceed evaluate rules (start evaluate rules (concurrency_of concurrency)) order).results
