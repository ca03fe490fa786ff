-- ===== src/Alerts/Runs.antt =====
-- Runs of packages/obs-collector/src/plugins/alerts-evaluator.ts: any rules, evaluated one after the
-- other in any order, and one rule's state, webhooks and counts over them.
use obs_unified.Common.{
  ℕ, ◌+◌, ◌≡◌, ◌≢◌, refl, sym, ap, subst, ◌∙◌, Bool, true, false, List, [], ◌∷◌, ◌++◌, map, inl,
  inr, All, Bool-cases, arith, if◌then◌else◌,
}
use obs_unified.Common.Text.{Text, text_eq, text_eq_iff}
use obs_unified.Alerts.Store.{State, is_ok, firing, Channel, Rule}
use obs_unified.Alerts.Evaluator.{
  Payload, Answers, World, Counts, no_counts, fire_channels, write_evaluation, change_state,
  payload_of, evaluate_one_rule,
}
use obs_unified.Alerts.Transitions.{
  state_in, state-write_evaluation, state-change_same, state-change_other, evaluate_cases,
}

abbrev pub weight : State → ℕ
weight is_ok = 0
weight firing = 1

-- The state that the last webhook about the rule told, `told` before any
unfoldable pub told_after :
    {Number : Type 0} → Text → State → List (Channel × Payload Number) → State
told_after rule_id told [] = told
told_after rule_id told ((ch, payload) ∷ posted) =
    told_after rule_id (if text_eq payload.rule_id rule_id then payload.state else told) posted

module _ {Number : Type 0} where
  told-append :
      (rule_id : Text) (told : State) (xs ys : List (Channel × Payload Number))
      → told_after rule_id told (xs ++ ys) ≡ told_after rule_id (told_after rule_id told xs) ys
  unfolding told_after
  told-append rule_id told [] ys = refl
  told-append rule_id told ((ch, payload) ∷ xs) ys =
      told-append rule_id (if text_eq payload.rule_id rule_id then payload.state else told) xs ys

  told_stays :
      (rule_id : Text) (payload : Payload Number) (channels : List Channel)
      → text_eq payload.rule_id rule_id ≡ true
      → told_after rule_id payload.state (map (λ ch. (ch, payload)) channels) ≡ payload.state
  unfolding told_after
  told_stays rule_id payload [] e = refl
  told_stays rule_id payload (ch ∷ channels) e =
      rw (told_after, e) (told_stays rule_id payload channels e)

  told_new :
      (rule_id : Text) (told : State) (payload : Payload Number) (channels : List Channel)
      → text_eq payload.rule_id rule_id ≡ true
      → channels ≢ []
      → told_after rule_id told (map (λ ch. (ch, payload)) channels) ≡ payload.state
  unfolding told_after
  told_new rule_id told payload [] e ne = absurd (ne refl)
  told_new rule_id told payload (ch ∷ channels) e ne =
      rw (told_after, e) (told_stays rule_id payload channels e)

  told_other :
      (rule_id : Text) (told : State) (payload : Payload Number) (channels : List Channel)
      → text_eq payload.rule_id rule_id ≡ false
      → told_after rule_id told (map (λ ch. (ch, payload)) channels) ≡ told
  unfolding told_after
  told_other rule_id told payload [] e = refl
  told_other rule_id told payload (ch ∷ channels) e =
      rw (told_after, e) (told_other rule_id told payload channels e)

module _ {Number : Type 0} (less : Number → Number → Bool) where
  unfoldable pub run : World Number → List (Rule Number × Answers Number) → World Number
  run w [] = w
  run w ((rule, a) ∷ es) = run (evaluate_one_rule less rule a w).0 es

  -- What the evaluations of the one rule return, summed up
  unfoldable pub tally : Text → World Number → List (Rule Number × Answers Number) → Counts
  tally rule_id w [] = no_counts
  tally rule_id w ((rule, a) ∷ es) =
      let (w', counts) = evaluate_one_rule less rule a w in
      let rest = tally rule_id w' es in
      if text_eq rule.id rule_id
      then record { fired = counts.fired + rest.fired; resolved = counts.resolved + rest.resolved }
      else rest

  -- An evaluation of another rule leaves the state.
  state_other :
      (rule_id : Text) (rule : Rule Number) (a : Answers Number) (w : World Number)
      → text_eq rule.id rule_id ≡ false
      → state_in less rule_id (evaluate_one_rule less rule a w).0 ≡ state_in less rule_id w
  state_other rule_id rule a w o =
      evaluate_cases less rule a w (λ r. state_in less rule_id r.0 ≡ state_in less rule_id w) refl
        (λ value. state-write_evaluation less rule_id rule a value _ false w)
        (λ value e. state-change_other less rule_id rule a value firing _ w o)
        (λ value e. state-change_other less rule_id rule a value is_ok _ w o)

  counts-change :
      (rule : Rule Number) (a : Answers Number) (value : Number) (state : State) (counts : Counts)
      (w : World Number)
      → a.record_fails ≡ false
      → (change_state less rule a value state counts w).1
        ≡ (if a.transition_fails then no_counts else counts)
  unfolding change_state
  counts-change rule a value state counts w r = elim (Bool-cases a.transition_fails) [
    | inl f ↦ rw f refl
    | inr f ↦ rw (f, r) refl
  ]

  balance_own :
      (rule : Rule Number) (a : Answers Number) (w : World Number)
      → a.record_fails ≡ false
      → (evaluate_one_rule less rule a w).1.fired + weight (state_in less rule.id w)
        ≡ (evaluate_one_rule less rule a w).1.resolved
          + weight (state_in less rule.id (evaluate_one_rule less rule a w).0)
  balance_own rule a w r =
      evaluate_cases less rule a w
        (λ r.
          r.1.fired + weight (state_in less rule.id w)
          ≡ r.1.resolved + weight (state_in less rule.id r.0))
        refl
        (λ value.
          rw (state-write_evaluation less rule.id rule a value (state_in less rule.id w) false w)
            refl)
        (λ value e.
          rw
            (
              counts-change rule a value firing (record { fired = 1; resolved = 0 }) w r,
              state-change_same less rule a value firing (record { fired = 1; resolved = 0 }) w,
              e,
            )
            (elim (Bool-cases a.transition_fails) [ inl t ↦ rw t refl | inr t ↦ rw t refl ]))
        (λ value e.
          rw
            (
              counts-change rule a value is_ok (record { fired = 0; resolved = 1 }) w r,
              state-change_same less rule a value is_ok (record { fired = 0; resolved = 1 }) w,
              e,
            )
            (elim (Bool-cases a.transition_fails) [ inl t ↦ rw t refl | inr t ↦ rw t refl ]))

  balance_named :
      (rule_id : Text) (rule : Rule Number) (a : Answers Number) (w : World Number)
      → rule.id ≡ rule_id
      → a.record_fails ≡ false
      → (evaluate_one_rule less rule a w).1.fired + weight (state_in less rule_id w)
        ≡ (evaluate_one_rule less rule a w).1.resolved
          + weight (state_in less rule_id (evaluate_one_rule less rule a w).0)
  balance_named rule_id rule a w e r =
      subst
        (λ id.
          (evaluate_one_rule less rule a w).1.fired + weight (state_in less id w)
          ≡ (evaluate_one_rule less rule a w).1.resolved
            + weight (state_in less id (evaluate_one_rule less rule a w).0))
        e (balance_own rule a w r)

  -- Over any run of any rules: the number of times that the evaluations of the one rule count it as
  -- fired, with 1 more where it was firing before, is the number of times that they count it as
  -- resolved, with 1 more where it is firing after; where recording an evaluation of the rule never
  -- fails. Values that are not there, failing reads and failing transitions may occur anywhere.
  pub tally-run :
      (rule_id : Text) (w : World Number) (es : List (Rule Number × Answers Number))
      → All (λ e. text_eq e.0.id rule_id ≡ true → e.1.record_fails ≡ false) es
      → (tally rule_id w es).fired + weight (state_in less rule_id w)
        ≡ (tally rule_id w es).resolved + weight (state_in less rule_id (run w es))
  unfolding run tally
  tally-run rule_id w [] ok = refl
  tally-run rule_id w ((rule, a) ∷ es) ok =
      let next = tally-run rule_id (evaluate_one_rule less rule a w).0 es ok.1 in
      elim (Bool-cases (text_eq rule.id rule_id)) [
        | inl own ↦
            let here =
              balance_named rule_id rule a w ((text_eq_iff rule.id rule_id).0 own) (ok.0 own) in
            rw (tally, own) (omega (arith, here, next))
        | inr other ↦ rw (tally, other) (rw (state_other rule_id rule a w other) at next)
      ]

-- Of the told state
module _ {Number : Type 0} (less : Number → Number → Bool) (rule_id : Text) where
  abbrev pub told_in : World Number → State
  told_in w = told_after rule_id is_ok w.posted

  told-write_evaluation :
      (rule : Rule Number) (a : Answers Number) (value : Number) (state : State) (notified : Bool)
      (w : World Number)
      → told_in (write_evaluation less rule a value state notified w) ≡ told_in w
  unfolding write_evaluation
  told-write_evaluation rule a value state notified w = elim (Bool-cases a.record_fails) [
    | inl f ↦ rw f refl
    | inr f ↦ rw f refl
  ]

  told-change :
      (rule : Rule Number) (a : Answers Number) (value : Number) (state : State) (counts : Counts)
      (w : World Number)
      → told_in (change_state less rule a value state counts w).0
        ≡ told_after rule_id
            (told_in w)
            (map (λ ch. (ch, payload_of less rule a value state)) rule.channels)
  unfolding change_state fire_channels
  told-change rule a value state counts w =
      let posted =
        told-append rule_id is_ok w.posted
          (map (λ ch. (ch, payload_of less rule a value state)) rule.channels) in
      elim (Bool-cases a.transition_fails) [
        | inl f ↦ rw f posted
        | inr f ↦ rw (f, told-write_evaluation) posted
      ]

  told_own :
      (rule : Rule Number) (a : Answers Number) (value : Number) (state : State) (counts : Counts)
      (w : World Number)
      → rule.id ≡ rule_id
      → rule.channels ≢ []
      → told_in (change_state less rule a value state counts w).0 ≡ state
  unfolding payload_of
  told_own rule a value state counts w own some_channel =
      told-change rule a value state counts w
      ∙ told_new rule_id (told_in w) (payload_of less rule a value state) rule.channels
          ((text_eq_iff rule.id rule_id).1 own) some_channel

  state_own :
      (rule : Rule Number) (a : Answers Number) (value : Number) (state : State) (counts : Counts)
      (w : World Number)
      → rule.id ≡ rule_id
      → a.transition_fails ≡ false
      → state_in less rule_id (change_state less rule a value state counts w).0 ≡ state
  state_own rule a value state counts w own up =
      subst (λ id. state_in less id (change_state less rule a value state counts w).0 ≡ state) own
        (state-change_same less rule a value state counts w
          ∙ ap (λ b. if b then state_in less rule.id w else state) up)

  told_other_rule :
      (rule : Rule Number) (a : Answers Number) (w : World Number)
      → text_eq rule.id rule_id ≡ false
      → told_in (evaluate_one_rule less rule a w).0 ≡ told_in w
  unfolding payload_of
  told_other_rule rule a w other =
      evaluate_cases less rule a w (λ r. told_in r.0 ≡ told_in w) refl
        (λ value. told-write_evaluation rule a value _ false w)
        (λ value e.
          told-change rule a value firing _ w
          ∙ told_other rule_id (told_in w) (payload_of less rule a value firing) rule.channels
              other)
        (λ value e.
          told-change rule a value is_ok _ w
          ∙ told_other rule_id (told_in w) (payload_of less rule a value is_ok) rule.channels other)

  agree_own :
      (rule : Rule Number) (a : Answers Number) (w : World Number)
      → rule.id ≡ rule_id
      → a.transition_fails ≡ false
      → rule.channels ≢ []
      → told_in w ≡ state_in less rule_id w
      → told_in (evaluate_one_rule less rule a w).0
        ≡ state_in less rule_id (evaluate_one_rule less rule a w).0
  agree_own rule a w own up some_channel agree =
      evaluate_cases less rule a w (λ r. told_in r.0 ≡ state_in less rule_id r.0) agree
        (λ value.
          told-write_evaluation rule a value _ false w
          ∙ agree
          ∙ sym (state-write_evaluation less rule_id rule a value _ false w))
        (λ value e.
          told_own rule a value firing _ w own some_channel
          ∙ sym (state_own rule a value firing _ w own up))
        (λ value e.
          told_own rule a value is_ok _ w own some_channel
          ∙ sym (state_own rule a value is_ok _ w own up))

  -- Over any run of any rules: the state that the last webhook about the one rule told is the state
  -- that is stored for it, where that is so before, where each of its evaluations has a channel, and
  -- where its transitions do not fail. Values that are not there, failing reads and failing records may
  -- occur anywhere.
  pub told-run :
      (w : World Number) (es : List (Rule Number × Answers Number))
      → All
          (λ e.
            text_eq e.0.id rule_id ≡ true → (e.1.transition_fails ≡ false) × (e.0.channels ≢ []))
          es
      → told_in w ≡ state_in less rule_id w
      → told_in (run less w es) ≡ state_in less rule_id (run less w es)
  unfolding run
  told-run w [] ok agree = agree
  told-run w ((rule, a) ∷ es) ok agree =
      told-run (evaluate_one_rule less rule a w).0 es ok.1
        (elim (Bool-cases (text_eq rule.id rule_id)) [
          | inl own ↦
              let (up, some_channel) = ok.0 own in
              agree_own rule a w ((text_eq_iff rule.id rule_id).0 own) up some_channel agree
          | inr other ↦
              told_other_rule rule a w other ∙ agree ∙ sym (state_other less rule_id rule a w other)
        ])
