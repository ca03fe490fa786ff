-- ===== src/Telemetry/Trace.antt =====
-- `parseTraceparent` of packages/telemetry-sdk/src/span.ts: what it accepts, and what it gives.
use obs_unified.Common.{
  ℕ, zero, suc, ◌≡◌, inl, inr, refl, sym, ap, subst, ◌∙◌, Bool, true, false, ◌||◌, [], ◌∷◌, ◌++◌,
  Option, none, some, All, All-append, length, ◌==◌, Bool-cases, Option-cases, arith,
}
use obs_unified.Common.Text.{Text, lit, trim}
use obs_unified.Telemetry.Headers.{
  every, is_lower_hex, all_zero, take_hex, hex_then, dash_then, end_then, context_of,
  match_traceparent, after_version, after_trace, after_parent, IncomingTraceContext,
  parse_traceparent,
}
use obs_unified.Telemetry.Texts.{
  IsPlain, dash-IsPlain, digit-IsPlain, every_hex-IsPlain, trim_plain,
}

-- An id of `n` lower-case hexadecimal digits
pub record IsHex (n : ℕ) (s : Text) : Type 0 where
  pub long : length s ≡ n
  pub digits : every is_lower_hex s ≡ true

-- The header that carries two ids
abbrev pub traceparent : Text → Text → Text
traceparent trace_id span_id = lit "00-" ++ (trace_id ++ b'-' ∷ (span_id ++ lit "-01"))

every_head :
    (test : ℕ → Bool) (c : ℕ) (s : Text)
    → every test (c ∷ s) ≡ true
    → (test c ≡ true) × (every test s ≡ true)
unfolding every
every_head test c s h = elim (Bool-cases (test c)) [
  | inl holds ↦ (holds, rw holds at h)
  | inr fails ↦ cc (rw fails at h)
]

take_hex-append :
    (n : ℕ) (a behind : Text) → IsHex n a → take_hex n (a ++ behind) ≡ some (a, behind)
unfolding take_hex
take_hex-append zero [] behind h = refl
take_hex-append zero (c ∷ a) behind h = absurd (omega (arith, h.long))
take_hex-append (suc n) [] behind h = absurd (omega (arith, h.long))
take_hex-append (suc n) (c ∷ a) behind h =
    let (here, rest) = every_head is_lower_hex c a h.digits in
    rw here (
      rw (take_hex-append n a behind (record { long = omega (arith, h.long); digits = rest })) refl)

take_hex-IsHex : (n : ℕ) (s a behind : Text) → take_hex n s ≡ some (a, behind) → IsHex n a
unfolding take_hex every
take_hex-IsHex zero s a behind h =
    let e : a ≡ [] = sym (cc h) in subst (IsHex 0) (sym e) (record { long = refl; digits = refl })
take_hex-IsHex (suc n) [] a behind h = cc h
take_hex-IsHex (suc n) (c ∷ s) a behind h = elim (Bool-cases (is_lower_hex c)) [
  | inr other ↦ cc (rw other at h)
  | inl digit ↦ elim (Option-cases (take_hex n s)) [
    | inl stops ↦ cc (rw (digit, stops) at h)
    | inr ((digits, rest), found) ↦
        let e : c ∷ digits ≡ a = cc (rw (digit, found) at h) in
        let ih = take_hex-IsHex n s digits rest found in
        subst (IsHex (suc n)) e
          (record { long = omega (arith, ih.long); digits = rw digit ih.digits })
  ]
]

module _ {A : Type 0} where
  hex_then-some :
      (n : ℕ) (s : Text) (next : Text → Text → Option A) (result : A)
      → hex_then n s next ≡ some result
      → (a : Text) × (behind : Text) × IsHex n a × (next a behind ≡ some result)
  unfolding hex_then
  hex_then-some n s next result h = elim (Option-cases (take_hex n s)) [
    | inl stops ↦ cc (rw (stops, hex_then) at h)
    | inr ((a, behind), found) ↦
        (a, behind, take_hex-IsHex n s a behind found, rw (found, hex_then) at h)
  ]

  dash_then-some :
      (s : Text) (next : Text → Option A) (result : A)
      → dash_then s next ≡ some result
      → (behind : Text) × (next behind ≡ some result)
  unfolding dash_then
  dash_then-some [] next result h = cc h
  dash_then-some (c ∷ s) next result h = elim (Bool-cases (c == b'-')) [
    | inl dash ↦ (s, rw dash at h)
    | inr other ↦ cc (rw other at h)
  ]

  end_then-some : (behind : Text) (a result : A) → end_then behind a ≡ some result → a ≡ result
  unfolding end_then
  end_then-some [] a result h = cc h
  end_then-some (c ∷ behind) a result h = cc h

  hex_then-append :
      (n : ℕ) (a behind : Text) (next : Text → Text → Option A)
      → IsHex n a
      → hex_then n (a ++ behind) next ≡ next a behind
  unfolding hex_then
  hex_then-append n a behind next h = rw (take_hex-append n a behind h, hex_then) refl

match_traceparent-IsHex :
    (s trace_id parent_span_id : Text)
    → match_traceparent s ≡ some (trace_id, parent_span_id)
    → IsHex 32 trace_id × IsHex 16 parent_span_id
unfolding match_traceparent after_version after_trace after_parent
match_traceparent-IsHex s trace_id parent_span_id h =
    let (version, s₁, _, h₁) = hex_then-some 2 s _ (trace_id, parent_span_id) h in
    let (s₂, h₂) = dash_then-some s₁ _ (trace_id, parent_span_id) h₁ in
    let (t, s₃, t_hex, h₃) = hex_then-some 32 s₂ _ (trace_id, parent_span_id) h₂ in
    let (s₄, h₄) = dash_then-some s₃ _ (trace_id, parent_span_id) h₃ in
    let (p, s₅, p_hex, h₅) = hex_then-some 16 s₄ _ (trace_id, parent_span_id) h₄ in
    let (s₆, h₆) = dash_then-some s₅ _ (trace_id, parent_span_id) h₅ in
    let (flags, behind, _, h₇) = hex_then-some 2 s₆ _ (trace_id, parent_span_id) h₆ in
    let same = end_then-some behind (t, p) (trace_id, parent_span_id) h₇ in
    (subst (IsHex 32) (ap (λ x. x.0) same) t_hex, subst (IsHex 16) (ap (λ x. x.1) same) p_hex)

match_traceparent-traceparent :
    (trace_id span_id : Text)
    → IsHex 32 trace_id
    → IsHex 16 span_id
    → match_traceparent (traceparent trace_id span_id) ≡ some (trace_id, span_id)
unfolding match_traceparent after_version after_trace after_parent dash_then end_then every
match_traceparent-traceparent trace_id span_id t p =
    hex_then-append 2 (lit "00") (b'-' ∷ (trace_id ++ b'-' ∷ (span_id ++ lit "-01"))) after_version
      (record { long = refl; digits = refl })
    ∙ hex_then-append 32 trace_id (b'-' ∷ (span_id ++ lit "-01")) after_trace t
    ∙ hex_then-append 16 span_id (lit "-01") (after_parent trace_id) p
    ∙ hex_then-append 2 (lit "01") [] (λ flags behind. end_then behind (trace_id, span_id))
        (record { long = refl; digits = refl })

traceparent-IsPlain :
    (trace_id span_id : Text)
    → IsHex 32 trace_id
    → IsHex 16 span_id
    → All IsPlain (traceparent trace_id span_id)
traceparent-IsPlain trace_id span_id t p =
    let (zero_plain, one_plain) = digit-IsPlain in
    let back =
      All-append IsPlain span_id (lit "-01") (every_hex-IsPlain span_id p.digits)
        (dash-IsPlain, (zero_plain, (one_plain, tt))) in
    let ids =
      All-append IsPlain trace_id (b'-' ∷ (span_id ++ lit "-01"))
        (every_hex-IsPlain trace_id t.digits) (dash-IsPlain, back) in
    (zero_plain, (zero_plain, (dash-IsPlain, ids)))

context_of-IsHex :
    (found : Option (Text × Text)) (context : IncomingTraceContext)
    → ((t p : Text) → found ≡ some (t, p) → IsHex 32 t × IsHex 16 p)
    → context_of found ≡ some context
    → IsHex 32 context.trace_id
      × IsHex 16 context.parent_span_id
      × ((all_zero context.trace_id || all_zero context.parent_span_id) ≡ false)
unfolding context_of
context_of-IsHex none context hex h = cc h
context_of-IsHex (some (t, p)) context hex h = elim (Bool-cases (all_zero t || all_zero p)) [
  | inl zeros ↦ cc (rw zeros at h)
  | inr nonzero ↦
      let e : record { trace_id = t; parent_span_id = p } ≡ context = cc (rw nonzero at h) in
      let (t_hex, p_hex) = hex t p refl in
      subst
        (λ (k : IncomingTraceContext).
          IsHex 32 k.trace_id
          × IsHex 16 k.parent_span_id
          × ((all_zero k.trace_id || all_zero k.parent_span_id) ≡ false))
        e (t_hex, p_hex, nonzero)
]

module _ (to_lower : Text → Text) where
  -- Ids written into a traceparent header are read back.
  pub parse_traceparent-traceparent :
      (trace_id span_id : Text)
      → IsHex 32 trace_id
      → IsHex 16 span_id
      → all_zero trace_id ≡ false
      → all_zero span_id ≡ false
      → to_lower (traceparent trace_id span_id) ≡ traceparent trace_id span_id
      → parse_traceparent to_lower (some (traceparent trace_id span_id))
        ≡ some (record { trace_id = trace_id; parent_span_id = span_id })
  unfolding parse_traceparent context_of
  parse_traceparent-traceparent trace_id span_id t p t_nonzero p_nonzero lower =
      ap (λ s. context_of (match_traceparent (to_lower s)))
        (trim_plain (traceparent trace_id span_id) (traceparent-IsPlain trace_id span_id t p))
      ∙ ap (λ s. context_of (match_traceparent s)) lower
      ∙ ap context_of (match_traceparent-traceparent trace_id span_id t p)
      ∙ rw t_nonzero (rw p_nonzero refl)

  -- Whatever header is read, a context that it gives has a trace id of 32 and a parent's id of 16
  -- lower-case hexadecimal digits, and neither is zero throughout.
  pub parse_traceparent-IsHex :
      (header : Option Text) (context : IncomingTraceContext)
      → parse_traceparent to_lower header ≡ some context
      → IsHex 32 context.trace_id
        × IsHex 16 context.parent_span_id
        × ((all_zero context.trace_id || all_zero context.parent_span_id) ≡ false)
  unfolding parse_traceparent
  parse_traceparent-IsHex none context h = cc h
  parse_traceparent-IsHex (some []) context h = cc h
  parse_traceparent-IsHex (some (c ∷ header)) context h =
      let s = to_lower (trim (c ∷ header)) in
      context_of-IsHex (match_traceparent s) context
        (λ t p found. match_traceparent-IsHex s t p found) h
