-- ===== src/Telemetry/Delivery.antt =====
-- What becomes of the requests that the exporter of packages/telemetry-sdk/src/span.ts is given.
use obs_unified.Common.{
  ◌≤◌, ◌≡◌, sym, ap, ap₂, subst, ◌∙◌, Bool, true, false, List, [], ◌∷◌, ◌++◌, length, arith,
}
use mathlib.Core.List.{append-nil, append_assoc, Sublist}
use mathlib.Core.List.Sublist
use obs_unified.Telemetry.Otlp.{OtlpTraceExportRequest}
use obs_unified.Telemetry.Exporter.{Flush, Exporter, new_exporter, Event, step, run}
use obs_unified.Telemetry.KeepLast.{keep_last, keep_last-Sublist, length-keep_last-le}
use obs_unified.Telemetry.Effects.{in_flight, waiting, given, IsAlone, IsSound, Effect, step-Effect}

unfoldable pub all_given : Exporter → List Event → List OtlpTraceExportRequest
unfolding given step
all_given s [] = []
all_given s (e ∷ events) = given e s ++ all_given (step e s) events

module _ (delivers : Bool) (xs : List OtlpTraceExportRequest) (s s' : Exporter)
    (effect : Effect delivers xs s s') where
  Effect-IsSound : IsSound s'
  unfolding IsSound
  Effect-IsSound = (rw effect.kept (length-keep_last-le 200 effect.back), effect.alone)

  waiting-Effect : waiting s' ≡ effect.front ++ keep_last 200 effect.back
  waiting-Effect = ap₂ (λ f b. f ++ b) effect.flying effect.kept

  -- The requests answered and those waiting, before some are dropped
  all-Effect :
      (s.answered ++ effect.taken) ++ (effect.front ++ effect.back)
      ≡ (s.answered ++ waiting s) ++ xs
  all-Effect =
      append_assoc s.answered effect.taken (effect.front ++ effect.back)
      ∙ ap (λ l. s.answered ++ l) (sym effect.whole)
      ∙ sym (append_assoc s.answered (waiting s) xs)

  Sublist-Effect : Sublist (s'.answered ++ waiting s') ((s.answered ++ waiting s) ++ xs)
  Sublist-Effect =
      subst (λ l. Sublist l ((s.answered ++ waiting s) ++ xs))
        (sym (ap₂ (λ d w. d ++ w) effect.answered_taken waiting-Effect))
        (subst
          (Sublist ((s.answered ++ effect.taken) ++ (effect.front ++ keep_last 200 effect.back)))
          all-Effect
          (Sublist.append (Sublist.refl (s.answered ++ effect.taken))
            (Sublist.append (Sublist.refl effect.front) (keep_last-Sublist 200 effect.back))))

run-Sublist :
    (s : Exporter) (events : List Event)
    → IsSound s
    → IsSound (run s events)
      × Sublist
          ((run s events).answered ++ waiting (run s events))
          ((s.answered ++ waiting s) ++ all_given s events)
unfolding run all_given
run-Sublist s [] sound =
    (sound, subst (Sublist (s.answered ++ waiting s)) (sym (append-nil _)) (Sublist.refl _))
run-Sublist s (e ∷ events) sound =
    let effect = step-Effect e s sound in
    let (kept, rest) = run-Sublist (step e s) events (Effect-IsSound _ _ _ _ effect) in
    let before = s.answered ++ waiting s in
    (
      kept,
      subst (Sublist _) (append_assoc before (given e s) (all_given (step e s) events)) (
          Sublist.trans rest (
            Sublist.append (Sublist-Effect _ _ _ _ effect)
              (Sublist.refl (all_given (step e s) events)))),
    )

-- What holds of an exporter that was given the requests
pub record IsFaithful (requests : List OtlpTraceExportRequest) (s : Exporter) : Type 0 where
  pub bound : length s.buffer ≤ 200
  pub at_most_one : length s.awaiting ≤ 1
  pub in_order : Sublist (s.answered ++ waiting s) requests

new_exporter-IsSound : IsSound new_exporter
unfolding IsSound IsAlone
new_exporter-IsSound = (omega arith, tt)

length-le_of_alone :
    (flag : Bool) (awaiting : List Flush) → IsAlone flag awaiting → length awaiting ≤ 1
unfolding IsAlone
length-le_of_alone flag [] alone = omega arith
length-le_of_alone flag (f ∷ []) alone = omega arith
length-le_of_alone true (f ∷ g ∷ awaiting) alone = absurd alone
length-le_of_alone false (f ∷ g ∷ awaiting) alone = absurd alone

-- Whatever happens to a new exporter, at most 200 requests are buffered, at most one flush is under way,
-- and the requests whose post was answered, with whatever HTTP status, with those waiting behind them are
-- some of those that it was given while it was set up, in their order and none twice.
pub run-IsFaithful :
    (events : List Event) → IsFaithful (all_given new_exporter events) (run new_exporter events)
unfolding IsSound in_flight
run-IsFaithful events =
    let (sound, order) = run-Sublist new_exporter events new_exporter-IsSound in
    let s = run new_exporter events in
    record {
      bound = sound.0;
      at_most_one = length-le_of_alone s.in_progress s.awaiting sound.1;
      in_order = order;
    }

-- At no event do more than 200 requests wait.
unfoldable pub IsRoomy : Exporter → List Event → Type 0
unfolding given step
IsRoomy s [] = Unit
IsRoomy s (e ∷ events) = (length (waiting s ++ given e s) ≤ 200) × IsRoomy (step e s) events
