-- ===== src/Sql/Placeholders.antt =====
-- `rewriteQuestionMarks` of packages/obs-collector/src/lib/sql-db-postgres.ts. The text of a number in a
-- template is a parameter.
use obs_unified.Common.{
  ℕ, suc, ◌≡◌, refl, ap, ap₂, ◌∙◌, Bool, true, false, not, ◌&&◌, List, [], ◌∷◌, ◌++◌, All, ◌==◌,
}
use obs_unified.Common.Text.{Text}

-- `'`
abbrev pub quote : ℕ
quote = 39

module _ (number_text : ℕ → Text) where
  -- The loop, with `inString` and the number of placeholders met
  unfoldable pub rewrite_from : Bool → ℕ → Text → Text
  rewrite_from in_string n [] = []
  rewrite_from in_string n (ch ∷ sql) = elim (ch == quote) [
    | true ↦ ch ∷ rewrite_from (not in_string) n sql
    | false ↦ elim ((ch == b'?') && not in_string) [
      | true ↦ b'$' ∷ (number_text (suc n) ++ rewrite_from in_string (suc n) sql)
      | false ↦ ch ∷ rewrite_from in_string n sql
    ]
  ]

  unfoldable pub rewrite_question_marks : Text → Text
  unfolding rewrite_from
  rewrite_question_marks sql = rewrite_from false 0 sql

-- A statement as its author sees it: placeholders, string literals, and other characters
pub data Piece : Type 0 where
  placeholder : Piece
  literal : Text → Piece
  other : ℕ → Piece

-- A literal's text has no quote; another character is neither a quote nor a question mark.
unfoldable pub IsPiece : Piece → Type 0
IsPiece placeholder = Unit
IsPiece (literal s) = All (λ c. (c == quote) ≡ false) s
IsPiece (other c) = ((c == quote) ≡ false) × ((c == b'?') ≡ false)

unfoldable pub print_d1 : List Piece → Text
print_d1 [] = []
print_d1 (placeholder ∷ pieces) = b'?' ∷ print_d1 pieces
print_d1 (literal s ∷ pieces) = quote ∷ (s ++ quote ∷ print_d1 pieces)
print_d1 (other c ∷ pieces) = c ∷ print_d1 pieces

module _ (number_text : ℕ → Text) where
  unfoldable pub print_postgres : ℕ → List Piece → Text
  print_postgres n [] = []
  print_postgres n (placeholder ∷ pieces) =
      b'$' ∷ (number_text (suc n) ++ print_postgres (suc n) pieces)
  print_postgres n (literal s ∷ pieces) = quote ∷ (s ++ quote ∷ print_postgres n pieces)
  print_postgres n (other c ∷ pieces) = c ∷ print_postgres n pieces

  -- A character that is kept as it is
  rewrite_from_kept :
      (in_string : Bool) (n c : ℕ) (sql : Text)
      → (c == quote) ≡ false
      → ((c == b'?') && not in_string) ≡ false
      → rewrite_from number_text in_string n (c ∷ sql)
        ≡ c ∷ rewrite_from number_text in_string n sql
  unfolding rewrite_from
  rewrite_from_kept in_string n c sql no_quote no_mark =
      let result : Bool → Bool → Text = λ is_quote is_mark. elim is_quote [
        | true ↦ c ∷ rewrite_from number_text (not in_string) n sql
        | false ↦ elim is_mark [
          | true ↦ b'$' ∷ (number_text (suc n) ++ rewrite_from number_text in_string (suc n) sql)
          | false ↦ c ∷ rewrite_from number_text in_string n sql
        ]
      ] in
      ap₂ result no_quote no_mark

  not_a_mark : (b : Bool) → (b && false) ≡ false
  not_a_mark true = refl
  not_a_mark false = refl

  rewrite_from-literal :
      (n : ℕ) (s rest : Text)
      → All (λ c. (c == quote) ≡ false) s
      → rewrite_from number_text true n (s ++ quote ∷ rest)
        ≡ s ++ quote ∷ rewrite_from number_text false n rest
  unfolding rewrite_from
  rewrite_from-literal n [] rest h = refl
  rewrite_from-literal n (c ∷ s) rest (plain, h) =
      rewrite_from_kept true n c (s ++ quote ∷ rest) plain (not_a_mark (c == b'?'))
      ∙ ap (λ l. c ∷ l) (rewrite_from-literal n s rest h)

  rewrite_from-print_d1 :
      (n : ℕ) (pieces : List Piece)
      → All IsPiece pieces
      → rewrite_from number_text false n (print_d1 pieces) ≡ print_postgres n pieces
  unfolding rewrite_from print_d1 print_postgres IsPiece
  rewrite_from-print_d1 n [] h = refl
  rewrite_from-print_d1 n (placeholder ∷ pieces) (here, h) =
      ap (λ l. b'$' ∷ (number_text (suc n) ++ l)) (rewrite_from-print_d1 (suc n) pieces h)
  rewrite_from-print_d1 n (literal s ∷ pieces) (here, h) =
      ap (λ l. quote ∷ l)
        (rewrite_from-literal n s (print_d1 pieces) here
          ∙ ap (λ l. s ++ quote ∷ l) (rewrite_from-print_d1 n pieces h))
  rewrite_from-print_d1 n (other c ∷ pieces) ((no_quote, no_mark), h) =
      rewrite_from_kept false n c (print_d1 pieces) no_quote (ap (λ b. b && true) no_mark)
      ∙ ap (λ l. c ∷ l) (rewrite_from-print_d1 n pieces h)

  -- In a statement made of placeholders, string literals and other characters, the placeholders become
  -- $1, $2 and so on in their order, and nothing else changes, question marks in literals included.
  pub rewrite_question_marks-print_d1 :
      (pieces : List Piece)
      → All IsPiece pieces
      → rewrite_question_marks number_text (print_d1 pieces) ≡ print_postgres 0 pieces
  unfolding rewrite_question_marks
  rewrite_question_marks-print_d1 pieces h = rewrite_from-print_d1 0 pieces h
