-- ===== src/Sql/Tests.antt =====
-- The theorem about packages/obs-collector/src/lib/sql-db-postgres.ts at a concrete input, and a run.
use obs_unified.Common.{ℕ, ◌+◌, ◌≡◌, refl, List, [], ◌∷◌}
use obs_unified.Common.Text.{Text, lit}
use obs_unified.Sql.Placeholders.{
  rewrite_from, rewrite_question_marks, Piece, placeholder, literal, other, IsPiece, print_d1,
  print_postgres, rewrite_question_marks-print_d1,
}

program : Unit {0}
unfolding rewrite_from rewrite_question_marks IsPiece print_d1 print_postgres
program = tt

abbrev digit : ℕ → Text
digit n = (48 + n) ∷ []

abbrev pieces : List Piece
pieces = other b'a' ∷ placeholder ∷ literal (lit "x?") ∷ other b'=' ∷ placeholder ∷ []

rewritten : rewrite_question_marks digit (lit "a?'x?'=?") ≡ lit "a$1'x?'=$2"
unfolding program
rewritten = refl

rewrite_question_marks-print_d1_example :
    rewrite_question_marks digit (print_d1 pieces) ≡ print_postgres digit 0 pieces
unfolding program
rewrite_question_marks-print_d1_example =
    rewrite_question_marks-print_d1 digit pieces
      ((refl, refl), (tt, ((refl, (refl, tt)), ((refl, refl), (tt, tt)))))
