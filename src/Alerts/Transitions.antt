-- ===== src/Alerts/Transitions.antt =====
-- One evaluation of packages/obs-collector/src/plugins/alerts-evaluator.ts and the stored state of a
-- rule.
use obs_unified.Common.{
  ℕ, ◌≡◌, refl, ap, Bool, true, false, List, [], ◌∷◌, Option, none, some, inl, inr, Bool-cases,
  if◌then◌else◌,
}
use obs_unified.Common.Text.{Text, text_eq, text_eq_refl, text_eq_iff}
use obs_unified.Alerts.Store.{
  State, is_ok, firing, Rule, StateRow, Tables, get_state, upsert_state, transition_state,
  record_evaluation,
}
use obs_unified.Alerts.Evaluator.{
  Answers, World, Counts, no_counts, fire_channels, write_evaluation, change_state, next_state,
  or_ok, act, evaluate_one_rule,
}

get_state-upsert_same :
    (new : StateRow) (rows : List StateRow)
    → get_state new.rule_id (upsert_state new rows) ≡ some new.current_state
unfolding get_state upsert_state
get_state-upsert_same new [] = rw (text_eq_refl new.rule_id) refl
get_state-upsert_same new (row ∷ rows) = elim (Bool-cases (text_eq row.rule_id new.rule_id)) [
  | inl h ↦ rw (h, get_state, h) refl
  | inr h ↦ rw (h, get_state, h) (get_state-upsert_same new rows)
]

get_state-upsert_other :
    (rule_id : Text) (new : StateRow) (rows : List StateRow)
    → text_eq new.rule_id rule_id ≡ false
    → get_state rule_id (upsert_state new rows) ≡ get_state rule_id rows
unfolding get_state upsert_state
get_state-upsert_other rule_id new [] o = rw o refl
get_state-upsert_other rule_id new (row ∷ rows) o =
    elim (Bool-cases (text_eq row.rule_id new.rule_id)) [
      | inl h ↦
          let other : text_eq row.rule_id rule_id ≡ false =
            rw ((text_eq_iff row.rule_id new.rule_id).0 h) o in
          rw (h, get_state, other) refl
      | inr h ↦ elim (Bool-cases (text_eq row.rule_id rule_id)) [
        | inl k ↦ rw (h, get_state, k) refl
        | inr k ↦ rw (h, get_state, k) (get_state-upsert_other rule_id new rows o)
      ]
    ]

module _ {Number : Type 0} (rule_id project_id : Text) (state : State) (now : ℕ)
    (t : Tables Number) where
  get_state-transition_same :
      get_state rule_id (transition_state rule_id project_id state now t).alert_state ≡ some state
  unfolding transition_state
  get_state-transition_same = get_state-upsert_same _ t.alert_state

  get_state-transition_other :
      (other : Text)
      → text_eq rule_id other ≡ false
      → get_state other (transition_state rule_id project_id state now t).alert_state
        ≡ get_state other t.alert_state
  unfolding transition_state
  get_state-transition_other other o = get_state-upsert_other other _ t.alert_state o

module _ {Number : Type 0} (less : Number → Number → Bool) where
  abbrev pub state_in : Text → World Number → State
  state_in rule_id w = or_ok (get_state rule_id w.tables.alert_state)

  pub state-write_evaluation :
      (rule_id : Text) (rule : Rule Number) (a : Answers Number) (value : Number) (state : State)
      (notified : Bool) (w : World Number)
      → state_in rule_id (write_evaluation less rule a value state notified w) ≡ state_in rule_id w
  unfolding write_evaluation record_evaluation
  state-write_evaluation rule_id rule a value state notified w = elim (Bool-cases a.record_fails) [
    | inl f ↦ rw f refl
    | inr f ↦ rw f refl
  ]

  pub state-change_same :
      (rule : Rule Number) (a : Answers Number) (value : Number) (state : State) (counts : Counts)
      (w : World Number)
      → state_in rule.id (change_state less rule a value state counts w).0
        ≡ (if a.transition_fails then state_in rule.id w else state)
  unfolding change_state fire_channels
  state-change_same rule a value state counts w =
      let t = w.tables in
      elim (Bool-cases a.transition_fails) [
        | inl f ↦ rw f refl
        | inr f ↦
            rw (f, state-write_evaluation)
              (ap or_ok (get_state-transition_same rule.id rule.project_id state a.now t))
      ]

  pub state-change_other :
      (rule_id : Text) (rule : Rule Number) (a : Answers Number) (value : Number) (state : State)
      (counts : Counts) (w : World Number)
      → text_eq rule.id rule_id ≡ false
      → state_in rule_id (change_state less rule a value state counts w).0 ≡ state_in rule_id w
  unfolding change_state fire_channels
  state-change_other rule_id rule a value state counts w o = elim (Bool-cases a.transition_fails) [
    | inl f ↦ rw f refl
    | inr f ↦
        rw (f, state-write_evaluation)
          (ap or_ok
            (get_state-transition_other rule.id rule.project_id state a.now w.tables rule_id o))
  ]

  -- A property of the world after an evaluation, from its parts: nothing is done, or an evaluation is
  -- recorded for a state that stays, or the state changes to the other one.
  module _ (rule : Rule Number) (a : Answers Number) (w : World Number)
      (P : World Number × Counts → Type 0) where
    pub evaluate_cases :
        P (w, no_counts)
        → ((value : Number)
            → P (write_evaluation less rule a value (state_in rule.id w) false w, no_counts))
        → ((value : Number)
            → state_in rule.id w ≡ is_ok
            → P (change_state less rule a value firing (record { fired = 1; resolved = 0 }) w))
        → ((value : Number)
            → state_in rule.id w ≡ firing
            → P (change_state less rule a value is_ok (record { fired = 0; resolved = 1 }) w))
        → P (evaluate_one_rule less rule a w)
    unfolding evaluate_one_rule act
    evaluate_cases nothing same fire resolve = by_answers a.value a.get_state_fails
      where
        by_states :
            (value : Number) (previous next : State)
            → state_in rule.id w ≡ previous
            → P (act less previous next rule a value w)
        by_states value is_ok is_ok e = rw e at same value
        by_states value is_ok firing e = fire value e
        by_states value firing is_ok e = resolve value e
        by_states value firing firing e = rw e at same value

        by_answers :
            (value : Option Number) (fails : Bool)
            → P (elim value [
              | none ↦ (w, no_counts)
              | some v ↦
                  if fails
                  then (w, no_counts)
                  else act less (state_in rule.id w) (next_state less rule v) rule a v w
            ])
        by_answers none fails = nothing
        by_answers (some v) true = nothing
        by_answers (some v) false = by_states v (state_in rule.id w) (next_state less rule v) refl
