-- ===== src/Alerts/Tests.antt =====
-- The theorems about packages/obs-collector/src/plugins/alerts-evaluator.ts at concrete inputs, and a
-- run of it, with native numbers for the values.
use obs_unified.Common.{ℕ, ◌+◌, ◌≡◌, refl, true, false, List, [], ◌∷◌, none, some, ltb}
use obs_unified.Common.Text.{Text, lit, text_eq}
use obs_unified.Alerts.Store.{
  is_ok, firing, Rule, gt, spans, compare_value, get_state, upsert_state, transition_state,
  record_evaluation,
}
use obs_unified.Alerts.Evaluator.{
  Answers, World, missing, all_delivered, analysis_attachment, payload_of, fire_channels,
  write_evaluation, change_state, act, evaluate_one_rule,
}
use obs_unified.Alerts.Transitions.{state_in}
use obs_unified.Alerts.Runs.{weight, told_after, told_in, run, tally, tally-run, told-run}

program : Unit {0}
unfolding text_eq compare_value get_state upsert_state transition_state record_evaluation
    all_delivered analysis_attachment payload_of fire_channels write_evaluation change_state act
    evaluate_one_rule told_after run tally
program = tt

abbrev rule_named : Text → Rule ℕ
rule_named id = record {
  id = id;
  project_id = lit "shop";
  name = lit "too many errors";
  signal = spans;
  threshold = 10;
  comparison = gt;
  channels =
      record { url = lit "https://a.example"; headers = [] }
      ∷ record { url = lit "https://b.example"; headers = [] }
      ∷ [];
  analysis_id = none;
}

abbrev answers_with : ℕ → ℕ → Answers ℕ
answers_with now value = record {
  value = some value;
  now = now;
  recorded_at = now + 1;
  random_id = lit "e";
  narrative = missing;
  delivered = λ ch. true;
  get_state_fails = false;
  transition_fails = false;
  record_fails = false;
}

abbrev empty_world : World ℕ
empty_world = record { tables = record { alert_state = []; alert_evaluations = [] }; posted = [] }

-- Two rules by turns: `r` fires, stays and is resolved, and `s` fires.
abbrev evaluations : List (Rule ℕ × Answers ℕ)
evaluations =
    (rule_named (lit "r"), answers_with 1 11)
    ∷ (rule_named (lit "s"), answers_with 2 50)
    ∷ (rule_named (lit "r"), answers_with 3 12)
    ∷ (rule_named (lit "r"), answers_with 4 3)
    ∷ []

tally_of_r : tally ltb (lit "r") empty_world evaluations ≡ record { fired = 1; resolved = 1 }
unfolding program
tally_of_r = refl

told_of_s : told_in ltb (lit "s") (run ltb empty_world evaluations) ≡ firing
unfolding program
told_of_s = refl

-- A failed transition leaves the rule as it was, though the webhooks are posted.
abbrev failed_once : World ℕ
failed_once =
    (evaluate_one_rule ltb (rule_named (lit "r"))
      (record (answers_with 1 11) { transition_fails = true }) empty_world).0

transition_failed : state_in ltb (lit "r") failed_once ≡ is_ok
unfolding program
transition_failed = refl

told_though : told_in ltb (lit "r") failed_once ≡ firing
unfolding program
told_though = refl

tally-run_example :
    (tally ltb (lit "r") empty_world evaluations).fired
      + weight (state_in ltb (lit "r") empty_world)
    ≡ (tally ltb (lit "r") empty_world evaluations).resolved
      + weight (state_in ltb (lit "r") (run ltb empty_world evaluations))
tally-run_example =
    tally-run ltb (lit "r") empty_world evaluations
      ((λ e. refl), ((λ e. refl), ((λ e. refl), ((λ e. refl), tt))))

told-run_example :
    told_in ltb (lit "r") (run ltb empty_world evaluations)
    ≡ state_in ltb (lit "r") (run ltb empty_world evaluations)
unfolding program
told-run_example =
    told-run ltb (lit "r") empty_world evaluations
      (
        (λ e. (refl, λ h. cc)),
        ((λ e. (refl, λ h. cc)), ((λ e. (refl, λ h. cc)), ((λ e. (refl, λ h. cc)), tt))),
      )
      refl
