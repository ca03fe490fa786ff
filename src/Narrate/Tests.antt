-- ===== src/Narrate/Tests.antt =====
-- The theorems about packages/obs-collector/src/lib/narrate-gate.ts at concrete inputs, and runs of it.
-- The numbers are native, written as that many characters `1`.
use obs_unified.Common.{ℕ, ◌≡◌, refl, true, List, [], ◌∷◌, some, length, replicate, ltb, leb, ◌==◌}
use obs_unified.Common.Text.{Text, lit, text_eq, is_space, trim, trim_end}
use obs_unified.Narrate.Gate.{
  Doubles, call, reuse, op_lt, Atom, delta_pct, status_changed, always, ok, unknown_atom,
  AnalysisResult, strip_whitespace, split_at, parse_delta, parse_atom, parse_atoms, parse_groups,
  parse_predicate, compare_op, eval_atom, every_atom, evaluate_conjunctions, is_cached,
  by_predicate, evaluate_gate,
}
use obs_unified.Narrate.Parse.{
  join_twice, print_atom, print_group, print_predicate, parse_predicate-print_predicate,
}
use obs_unified.Narrate.Fallback.{evaluate_gate_fallback}

program : Unit {0}
unfolding text_eq is_space strip_whitespace trim trim_end split_at parse_delta parse_atom
    parse_atoms parse_groups parse_predicate compare_op eval_atom every_atom evaluate_conjunctions
    is_cached by_predicate evaluate_gate join_twice print_atom print_group print_predicate
program = tt

abbrev tallies : Doubles ℕ
tallies = record {
  to_number = length;
  is_finite = λ n. true;
  abs = λ n. n;
  less = ltb;
  less_eq = leb;
  equal = λ a b. a == b;
}

abbrev to_tally : ℕ → Text
to_tally n = replicate n b'1'

abbrev conjunctions : List (List (Atom ℕ))
conjunctions = (status_changed ∷ delta_pct op_lt 2 ∷ []) ∷ (always ∷ []) ∷ []

printed : print_predicate tallies to_tally conjunctions ≡ lit "status_changed&&delta_pct<11||always"
unfolding program
printed = refl

abbrev result : Text → AnalysisResult ℕ
result status = record {
  status = status;
  delta_pct = some 5;
  narrative = some (lit "fine");
  narrative_signature = some status;
}

by_delta :
    evaluate_gate tallies
      (some (lit " delta_pct >= 111 "))
      (result (lit "ok"))
      (some (result (lit "bad")))
    ≡ call
unfolding program
by_delta = refl

unchanged :
    evaluate_gate tallies (some (lit "always")) (result (lit "ok")) (some (result (lit "ok")))
    ≡ reuse
unfolding program
unchanged = refl

parse_predicate-print_predicate_example :
    parse_predicate tallies (print_predicate tallies to_tally conjunctions) ≡ ok conjunctions
unfolding program
parse_predicate-print_predicate_example =
    parse_predicate-print_predicate tallies to_tally conjunctions (λ h. cc)
      (
        (
          λ h. cc,
          (
            tt,
            (
              record {
                read = refl;
                finite = refl;
                unspaced = refl;
                no_or = (refl, (refl, tt));
                no_and = (refl, (refl, tt));
                no_equals = refl;
              },
              tt,
            ),
          ),
        ),
        ((λ h. cc, (tt, tt)), tt),
      )

evaluate_gate_fallback_example :
    evaluate_gate tallies (some (lit " oops ")) (result (lit "ok")) (some (result (lit "bad")))
    ≡ evaluate_gate tallies
        (some (lit "status_changed"))
        (result (lit "ok"))
        (some (result (lit "bad")))
unfolding program
evaluate_gate_fallback_example =
    evaluate_gate_fallback tallies (lit " oops ") (unknown_atom (lit "oops")) (result (lit "ok"))
      (some (result (lit "bad"))) refl refl
