-- ===== src/Alerts/Evaluator.antt =====
-- `evaluateOneRule` of packages/obs-collector/src/plugins/alerts-evaluator.ts. What the surroundings
-- answer in one evaluation is the argument `Answers`; every webhook that is posted is put on record.
use obs_unified.Common.{
  ℕ, Bool, true, false, ◌&&◌, List, [], ◌∷◌, ◌++◌, map, Option, none, some, if◌then◌else◌,
}
use obs_unified.Common.Text.{Text, truthy}
use obs_unified.Alerts.Store.{
  Comparison, Signal, State, is_ok, firing, Channel, Rule, Tables, compare_value, get_state,
  transition_state, record_evaluation,
}

pub record Attachment : Type 0 where
  pub id : Text
  pub narrative : Option Text
  pub status : Option Text

pub record Payload (Number : Type 0) : Type 0 where
  pub rule_id : Text
  pub rule_name : Text
  pub rule_signal : Signal
  pub value : Number
  pub threshold : Number
  pub comparison : Comparison
  pub state : State
  pub evaluated_at : ℕ
  pub project_id : Text
  pub analysis : Option Attachment

-- The row that `getAnalysisNarrative` reads, if any
pub data NarrativeRow : Type 0 where
  failed missing : NarrativeRow
  found : Option Text → Option Text → NarrativeRow

-- `value` is `none` where the query of the rule throws or does not answer in time; `delivered` says
-- whether the channel's webhook answers with an OK status; the last three, which calls of the database
-- throw. `recorded_at` and `random_id` are the time and the id that `recordEvaluation` draws.
pub record Answers (Number : Type 0) : Type 0 where
  pub value : Option Number
  pub now : ℕ
  pub recorded_at : ℕ
  pub random_id : Text
  pub narrative : NarrativeRow
  pub delivered : Channel → Bool
  pub get_state_fails : Bool
  pub transition_fails : Bool
  pub record_fails : Bool

pub record World (Number : Type 0) : Type 0 where
  pub tables : Tables Number
  pub posted : List (Channel × Payload Number)

pub record Counts : Type 0 where
  pub fired : ℕ
  pub resolved : ℕ

abbrev pub no_counts : Counts
no_counts = record { fired = 0; resolved = 0 }

unfoldable pub all_delivered : (Channel → Bool) → List Channel → Bool
all_delivered delivered [] = true
all_delivered delivered (ch ∷ channels) = delivered ch && all_delivered delivered channels

unfoldable pub analysis_attachment :
    {Number : Type 0} → Rule Number → NarrativeRow → Option Attachment
analysis_attachment rule row =
    if truthy rule.analysis_id
    then elim rule.analysis_id [
      | none ↦ none
      | some id ↦ elim row [
        | failed ↦ none
        | missing ↦ none
        | found narrative status ↦ some (record { id = id; narrative = narrative; status = status })
      ]
    ]
    else none

-- `priorState?.current_state ?? "ok"`
abbrev pub or_ok : Option State → State
or_ok none = is_ok
or_ok (some s) = s

module _ {Number : Type 0} (less : Number → Number → Bool) where
  unfoldable pub payload_of : Rule Number → Answers Number → Number → State → Payload Number
  unfolding analysis_attachment
  payload_of rule a value state = record {
    rule_id = rule.id;
    rule_name = rule.name;
    rule_signal = rule.signal;
    value = value;
    threshold = rule.threshold;
    comparison = rule.comparison;
    state = state;
    evaluated_at = a.now;
    project_id = rule.project_id;
    analysis = analysis_attachment rule a.narrative;
  }

  -- `fireChannels`: every webhook is posted, and the answer is whether all were delivered.
  unfoldable pub fire_channels :
      Rule Number → Answers Number → Payload Number → World Number → World Number × Bool
  unfolding all_delivered
  fire_channels rule a payload w = (
    record w { posted = w.posted ++ map (λ ch. (ch, payload)) rule.channels },
    all_delivered a.delivered rule.channels,
  )

  unfoldable pub write_evaluation :
      Rule Number → Answers Number → Number → State → Bool → World Number → World Number
  write_evaluation rule a value state notified w = if a.record_fails then w else record w {
    tables =
        record_evaluation
          (record {
            id = a.random_id;
            rule_id = rule.id;
            project_id = rule.project_id;
            evaluated_at = a.recorded_at;
            value = value;
            state = state;
            notified = notified;
          })
          w.tables;
  }

  -- The branches in which the state changes: notify, then write the state, then the evaluation. What
  -- throws ends the branch, and what was done before stays.
  unfoldable pub change_state :
      Rule Number → Answers Number → Number → State → Counts → World Number → World Number × Counts
  unfolding payload_of fire_channels write_evaluation
  change_state rule a value state counts w =
      let (w', delivered) = fire_channels rule a (payload_of rule a value state) w in
      if a.transition_fails then (w', no_counts) else (
        write_evaluation rule a value state delivered
            (record w' { tables = transition_state rule.id rule.project_id state a.now w'.tables }),
        if a.record_fails then no_counts else counts,
      )

  abbrev pub next_state : Rule Number → Number → State
  next_state rule value =
      if compare_value less value rule.threshold rule.comparison then firing else is_ok

  abbrev pub previous_state : Rule Number → World Number → State
  previous_state rule w = or_ok (get_state rule.id w.tables.alert_state)

  unfoldable pub act :
      State → State → Rule Number → Answers Number → Number → World Number → World Number × Counts
  unfolding change_state
  act is_ok firing rule a value w =
      change_state rule a value firing (record { fired = 1; resolved = 0 }) w
  act firing is_ok rule a value w =
      change_state rule a value is_ok (record { fired = 0; resolved = 1 }) w
  act is_ok is_ok rule a value w = (write_evaluation rule a value is_ok false w, no_counts)
  act firing firing rule a value w = (write_evaluation rule a value firing false w, no_counts)

  unfoldable pub evaluate_one_rule :
      Rule Number → Answers Number → World Number → World Number × Counts
  unfolding act
  evaluate_one_rule rule a w = elim a.value [
    | none ↦ (w, no_counts)
    | some value ↦
        if a.get_state_fails
        then (w, no_counts)
        else act (previous_state rule w) (next_state rule value) rule a value w
  ]
