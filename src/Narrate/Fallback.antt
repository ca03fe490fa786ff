-- ===== src/Narrate/Fallback.antt =====
-- The gate of packages/obs-collector/src/lib/narrate-gate.ts on a malformed predicate.
use obs_unified.Common.{◌≡◌, refl, false, [], Option, none, some, inl, inr, Bool-cases}
use obs_unified.Common.Text.{Text, lit, text_eq, text_eq_iff, is_space, trim, trim_end}
use obs_unified.Narrate.Gate.{
  Doubles, ParseError, error, AnalysisResult, strip_whitespace, split_at, parse_delta, parse_atom,
  parse_atoms, parse_groups, parse_predicate, with_previous, by_predicate, evaluate_gate,
}

module _ {Number : Type 0} (doubles : Doubles Number) where
  by_predicate_fallback :
      (expr : Text) {e : ParseError} (current previous : AnalysisResult Number)
      → parse_predicate doubles expr ≡ error e
      → by_predicate doubles expr current previous
        ≡ by_predicate doubles (lit "status_changed") current previous
  unfolding by_predicate parse_predicate parse_groups parse_atoms parse_atom parse_delta split_at
      strip_whitespace text_eq is_space
  by_predicate_fallback expr current previous bad = rw (by_predicate, bad) refl

  with_previous_fallback :
      (expr : Text) {e : ParseError} (current : AnalysisResult Number)
      (previous : Option (AnalysisResult Number))
      → parse_predicate doubles expr ≡ error e
      → with_previous doubles expr current previous
        ≡ with_previous doubles (lit "status_changed") current previous
  with_previous_fallback expr current none bad = refl
  with_previous_fallback expr current (some previous) bad =
      rw (by_predicate_fallback expr current previous bad) refl

  never_parses : {e : ParseError} → parse_predicate doubles (lit "never") ≡ error e → ⊥
  unfolding parse_predicate parse_groups parse_atoms parse_atom parse_delta split_at
      strip_whitespace text_eq is_space
  never_parses bad = cc

  -- A predicate that does not parse and is not blank decides as `status_changed` does, for every pair of
  -- results.
  pub evaluate_gate_fallback :
      (predicate : Text) (e : ParseError) (current : AnalysisResult Number)
      (previous : Option (AnalysisResult Number))
      → text_eq (trim predicate) [] ≡ false
      → parse_predicate doubles (trim predicate) ≡ error e
      → evaluate_gate doubles (some predicate) current previous
        ≡ evaluate_gate doubles (some (lit "status_changed")) current previous
  unfolding evaluate_gate trim trim_end text_eq is_space
  evaluate_gate_fallback predicate e current previous filled bad =
      elim (Bool-cases (text_eq (trim predicate) (lit "never"))) [
        | inl is_never ↦
            absurd
              (never_parses (rw ((text_eq_iff (trim predicate) (lit "never")).0 is_never) at bad))
        | inr other ↦
            rw (filled, other) (with_previous_fallback (trim predicate) current previous bad)
      ]
