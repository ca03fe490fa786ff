-- ===== src/Telemetry/Texts.antt =====
-- Texts that `trim` and `split` of packages/telemetry-sdk/src/span.ts and mcp.ts leave whole, and the
-- fields of an object after some were set.
use obs_unified.Common.{
  ℕ, ◌≡◌, ◌≤◌, inl, inr, refl, sym, subst, Bool, true, false, not, ◌&&◌, [], ◌∷◌, ◌++◌, some, All,
  All_mono, leb, ◌==◌, Bool-cases, arith,
}
use obs_unified.Common.Text.{
  Text, text_eq, text_eq_refl, text_eq_iff, is_space, trim, trim_end, split_on,
}
use obs_unified.Common.Json.{Json, Fields, end, field, set_field, get_field}
use obs_unified.Telemetry.Headers.{every, is_lower_hex, is_crockford}

-- Neither a space, nor a separator of headers
pub record IsPlain (c : ℕ) : Type 0 where
  pub no_space : is_space c ≡ false
  pub no_comma : (c == b',') ≡ false
  pub no_equals : (c == b'=') ≡ false

pub every-All : (test : ℕ → Bool) (s : Text) → every test s ≡ true → All (λ c. test c ≡ true) s
unfolding every
every-All test [] h = tt
every-All test (c ∷ s) h = elim (Bool-cases (test c)) [
  | inl holds ↦ (holds, every-All test s (rw holds at h))
  | inr fails ↦ cc (rw fails at h)
]

module _ (c : ℕ) where
  crockford_bounds : is_crockford c ≡ true → (48 ≤ c) × (c ≤ 90) × ((c == b'=') ≡ false)
  crockford_bounds h = ground arith

  IsPlain-of_bounds : 45 ≤ c → c ≤ 122 → (c == b'=') ≡ false → IsPlain c
  unfolding is_space
  IsPlain-of_bounds low high e = record {
    no_space = ground arith;
    no_comma = ground arith;
    no_equals = e;
  }

  crockford-IsPlain : is_crockford c ≡ true → IsPlain c
  crockford-IsPlain h =
      let (low, high, e) = crockford_bounds h in
      IsPlain-of_bounds (omega (arith, low)) (omega (arith, high)) e

  hex_bounds : is_lower_hex c ≡ true → (48 ≤ c) × (c ≤ 102) × ((c == b'=') ≡ false)
  hex_bounds h = ground arith

  hex-IsPlain : is_lower_hex c ≡ true → IsPlain c
  hex-IsPlain h =
      let (low, high, e) = hex_bounds h in
      IsPlain-of_bounds (omega (arith, low)) (omega (arith, high)) e

pub dash-IsPlain : IsPlain b'-'
unfolding is_space
dash-IsPlain = record { no_space = refl; no_comma = refl; no_equals = refl }

pub digit-IsPlain : (IsPlain b'0') × IsPlain b'1'
unfolding is_space
digit-IsPlain = (
  record { no_space = refl; no_comma = refl; no_equals = refl },
  record { no_space = refl; no_comma = refl; no_equals = refl },
)

pub every_crockford-IsPlain : (s : Text) → every is_crockford s ≡ true → All IsPlain s
every_crockford-IsPlain s h =
    All_mono (λ c. is_crockford c ≡ true) IsPlain s crockford-IsPlain (every-All is_crockford s h)

pub every_hex-IsPlain : (s : Text) → every is_lower_hex s ≡ true → All IsPlain s
every_hex-IsPlain s h =
    All_mono (λ c. is_lower_hex c ≡ true) IsPlain s hex-IsPlain (every-All is_lower_hex s h)

trim_end_spaceless : (s : Text) → All (λ c. is_space c ≡ false) s → trim_end s ≡ s
unfolding trim_end
trim_end_spaceless [] h = refl
trim_end_spaceless (c ∷ []) (visible, h) = rw visible refl
trim_end_spaceless (c ∷ d ∷ s) (visible, h) = rw (trim_end_spaceless (d ∷ s) h) refl

pub trim_spaceless : (s : Text) → All (λ c. is_space c ≡ false) s → trim s ≡ s
unfolding trim
trim_spaceless [] h = refl
trim_spaceless (c ∷ s) (visible, h) = rw visible (trim_end_spaceless (c ∷ s) (visible, h))

pub spaceless : (s : Text) → All IsPlain s → All (λ c. is_space c ≡ false) s
spaceless s h = All_mono IsPlain (λ c. is_space c ≡ false) s (λ c plain. plain.no_space) h

pub commaless : (s : Text) → All IsPlain s → All (λ c. (c == b',') ≡ false) s
commaless s h = All_mono IsPlain (λ c. (c == b',') ≡ false) s (λ c plain. plain.no_comma) h

pub equalless : (s : Text) → All IsPlain s → All (λ c. (c == b'=') ≡ false) s
equalless s h = All_mono IsPlain (λ c. (c == b'=') ≡ false) s (λ c plain. plain.no_equals) h

pub trim_plain : (s : Text) → All IsPlain s → trim s ≡ s
trim_plain s h = trim_spaceless s (spaceless s h)

-- From - to z, without =
abbrev pub is_visible : ℕ → Bool
is_visible c = leb 45 c && leb c 122 && not (c == b'=')

pub every_visible-IsPlain : (s : Text) → every is_visible s ≡ true → All IsPlain s
every_visible-IsPlain s h =
    All_mono (λ c. is_visible c ≡ true) IsPlain s
      (λ c v. IsPlain-of_bounds c (ground arith) (ground arith) (ground arith))
      (every-All is_visible s h)

pub split_on_plain :
    (sep : ℕ) (s : Text) → All (λ c. (c == sep) ≡ false) s → split_on sep s ≡ s ∷ []
unfolding split_on
split_on_plain sep [] h = refl
split_on_plain sep (c ∷ s) (other, h) = rw (split_on_plain sep s h) (rw other refl)

pub split_on_at :
    (sep : ℕ) (a b : Text)
    → All (λ c. (c == sep) ≡ false) a
    → All (λ c. (c == sep) ≡ false) b
    → split_on sep (a ++ sep ∷ b) ≡ a ∷ b ∷ []
unfolding split_on
split_on_at sep [] b h k =
    let here : (sep == sep) ≡ true = ground arith in rw (split_on_plain sep b k) (rw here refl)
split_on_at sep (c ∷ a) b (other, h) k = rw (split_on_at sep a b h k) (rw other refl)

pub get_field-set_field :
    (key : Text) (value : Json) (fields : Fields)
    → get_field key (set_field key value fields) ≡ some value
unfolding get_field set_field
get_field-set_field key value end = rw (text_eq_refl key) refl
get_field-set_field key value (field other old fields) = elim (Bool-cases (text_eq other key)) [
  | inl same ↦ rw same (rw same refl)
  | inr differs ↦ rw differs (rw differs (get_field-set_field key value fields))
]

pub get_field-set_field_other :
    (wanted key : Text) (value : Json) (fields : Fields)
    → text_eq key wanted ≡ false
    → get_field wanted (set_field key value fields) ≡ get_field wanted fields
unfolding get_field set_field
get_field-set_field_other wanted key value end apart = rw apart refl
get_field-set_field_other wanted key value (field other old fields) apart =
    elim (Bool-cases (text_eq other key)) [
      | inl same ↦
          let differs =
            subst (λ k. text_eq k wanted ≡ false) (sym ((text_eq_iff other key).0 same)) apart in
          rw same (rw differs refl)
      | inr differs ↦ rw differs (elim (Bool-cases (text_eq other wanted)) [
        | inl here ↦ rw here refl
        | inr there ↦ rw there (get_field-set_field_other wanted key value fields apart)
      ])
    ]
