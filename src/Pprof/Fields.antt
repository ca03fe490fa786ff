-- ===== src/Pprof/Fields.antt =====
-- The field loop that the decoders of packages/pprof-decoder/src/index.ts share, on the bytes that the
-- encoders write.
use Prim.Native.Nat.{bit_or}
use native.Mathlib.Nat.{add-zero}
use mathlib.Core.List.{append-nil, append_assoc}
use obs_unified.Common.{
  ℕ, zero, suc, ◌+◌, ◌*◌, ◌/◌, ◌%◌, ◌^◌, ◌≤◌, ◌<◌, ◌≡◌, refl, ◌∙◌, ap, true, List, [], ◌∷◌, ◌++◌,
  inl, inr, length, length-append, flat_map, Bool-cases, arith, ltb, lt→ltb, ltb-false, ◌==◌,
}
use obs_unified.Pprof.Double.{precise, add, add_exact}
use obs_unified.Pprof.Reader.{
  Read, Result, ok, err, pure, resume, ◌>>=◌, read_varint, read_field, fields_loop, read_message,
  wire_varint, wire_length_delimited,
}
use obs_unified.Pprof.Encode.{write_varint, write_tag, write_nonzero, write_length_delimited}
use obs_unified.Pprof.Varint.{
  Holds, Holds-le, Holds-append, read_varint-write_varint, write_varint_nonempty, passes_below,
  passes_at, eq_of_==,
}

tag_table :
    passes_below 16 (λ n. passes_below 8 (λ w. bit_or (n * 8 % 2 ^ 32) w == n * 8 + w)) ≡ true
unfolding passes_below
tag_table = refl

tag_value : (n w : ℕ) → n < 16 → w < 8 → bit_or (n * 8 % 2 ^ 32) w ≡ n * 8 + w
tag_value n w hn hw = eq_of_== _ _ (passes_at 8 _ w hw (passes_at 16 _ n hn tag_table))

resume_mono :
    {A B : Type 0} (x : Result (A × ℕ)) (k k' : A → Read B) (buf : List ℕ) {r : B × ℕ}
    → ((a : A) (p : ℕ) → k a buf p ≡ ok r → k' a buf p ≡ ok r)
    → resume x k buf ≡ ok r
    → resume x k' buf ≡ ok r
resume_mono (ok (a, p)) k k' buf h e = h a p e
resume_mono (err e) k k' buf h e' = cc

module _ {M : Type 0} (on_field : M → ℕ → ℕ → Read M) (buf : List ℕ) where
  -- What more fuel does not change.
  pub fields_mono :
      (f g end : ℕ) (m : M) (p : ℕ) {r : M × ℕ}
      → f ≤ g
      → fields_loop on_field f end m buf p ≡ ok r
      → fields_loop on_field g end m buf p ≡ ok r
  unfolding fields_loop
  fields_mono zero g end m p le h = cc
  fields_mono (suc f) zero end m p le h = absurd (omega arith)
  fields_mono (suc f) (suc g) end m p {r} le h = elim (Bool-cases (ltb p end)) [
    | inl more ↦ rw more (
        resume_mono (read_field on_field m buf p) _ _ buf
          (λ m' p' e. fields_mono f g end m' p' (omega arith) e) (rw more at h))
    | inr done ↦ rw done (rw done at h)
  ]

  -- From the message `m` the loop reads the bytes and has the message `m'`: where it ends well from
  -- there, it ends so from here.
  pub record Parses (bs : List ℕ) (m m' : M) : Type 0 where
    pub run :
        (p end fuel : ℕ) (r : M × ℕ)
        → Holds buf p bs
        → p + length bs ≤ end
        → fields_loop on_field fuel end m' buf (p + length bs) ≡ ok r
        → fields_loop on_field (length bs + fuel) end m buf p ≡ ok r

  pub Parses-nil : (m : M) → Parses [] m m
  Parses-nil m = record {
    run = λ p end fuel r h le e. let z : 0 + fuel ≡ fuel = omega arith in rw z (rw add-zero at e);
  }

  pub Parses-append :
      {xs ys : List ℕ} {m m' m'' : M} → Parses xs m m' → Parses ys m' m'' → Parses (xs ++ ys) m m''
  Parses-append {xs} {ys} {m} {m'} {m''} f g = record {
    run = λ p end fuel r h le e.
        let (hx, hy) = Holds-append buf p xs ys h in
        let len = length-append xs ys in
        let at_end : p + length (xs ++ ys) ≡ p + length xs + length ys = omega (arith, len) in
        let room : length (xs ++ ys) + fuel ≡ length xs + (length ys + fuel) = omega (arith, len) in
        rw room (
          f.run p end (length ys + fuel) r hx (omega (arith, len))
            (g.run (p + length xs) end fuel r hy (omega (arith, len)) (rw at_end at e)));
  }

  -- One field is one round.
  pub Parses-field :
      (bs : List ℕ) (m m' : M)
      → 0 < length bs
      → ((p : ℕ) → Holds buf p bs → read_field on_field m buf p ≡ ok (m', p + length bs))
      → Parses bs m m'
  unfolding fields_loop
  Parses-field [] m m' pos h = absurd (omega arith)
  Parses-field (b ∷ bs) m m' pos h = record {
    run = λ p end fuel r holds le e.
        let round : length (b ∷ bs) + fuel ≡ suc (length bs + fuel) = omega arith in
        rw (round, lt→ltb p end (omega arith), h p holds)
          (fields_mono fuel (length bs + fuel) end m' (p + length (b ∷ bs)) (omega arith) e);
  }

  -- A `for` loop that writes a field for each element of `whole`, read by a branch that appends
  -- the element to what the message `build` holds.
  module _ {A : Type 0} (bytes : A → List ℕ) (build : List A → M) (whole : List A)
      (one : (done : List A) (a : A) (rest : List A)
        → done ++ a ∷ rest ≡ whole
        → Parses (bytes a) (build done) (build (done ++ a ∷ []))) where
    Parses-rest :
        (done rest : List A)
        → done ++ rest ≡ whole
        → Parses (flat_map bytes rest) (build done) (build whole)
    Parses-rest done [] e = rw (← e, append-nil) (Parses-nil (build done))
    Parses-rest done (a ∷ rest) e =
        Parses-append (one done a rest e)
          (Parses-rest (done ++ a ∷ []) rest (append_assoc done (a ∷ []) rest ∙ e))

    pub Parses-flat_map : Parses (flat_map bytes whole) (build []) (build whole)
    Parses-flat_map = Parses-rest [] whole refl

  module _ (fits : length buf < precise) where
    read_field-write_tag :
        (m : M) (n w p : ℕ)
        → n < 16
        → w < 8
        → Holds buf p (write_tag n w)
        → read_field on_field m buf p ≡ on_field m n w buf (p + length (write_tag n w))
    unfolding read_field write_tag
    read_field-write_tag m n w p hn hw h =
        let e = tag_value n w hn hw in
        let number : (n * 8 + w) % 2 ^ 32 / 8 ≡ n = omega arith in
        let wire : (n * 8 + w) % 8 ≡ w = omega arith in
        let h' : Holds buf p (write_varint (n * 8 + w)) = rw e at h in
        rw (e, read_varint-write_varint (n * 8 + w) buf p (omega arith) h', number, wire)

    Parses-tagged :
        (n w : ℕ) (bs : List ℕ) (m m' : M)
        → n < 16
        → w < 8
        → ((p : ℕ) → Holds buf p bs → on_field m n w buf p ≡ ok (m', p + length bs))
        → Parses (write_tag n w ++ bs) m m'
    unfolding write_tag
    Parses-tagged n w bs m m' hn hw h =
        let len = length-append (write_tag n w) bs in
        let pos = write_varint_nonempty (bit_or (n * 8 % 2 ^ 32) w) in
        Parses-field (write_tag n w ++ bs) m m' (omega (arith, len, pos)) λ p holds.
          let (ht, hx) = Holds-append buf p (write_tag n w) bs holds in
          read_field-write_tag m n w p hn hw ht
          ∙ h (p + length (write_tag n w)) hx
          ∙ ap (λ q. ok (m', q)) (omega (arith, len))

    -- `if (m.field) { writeTag(n, 0); writeVarint(m.field) }`, read by a branch that sets the field
    pub Parses-nonzero :
        (n v : ℕ) (m : M) (put : ℕ → M)
        → n < 16
        → v < precise
        → ((p : ℕ) → on_field m n wire_varint buf p ≡ (do x ← read_varint; pure (put x)) buf p)
        → put 0 ≡ m
        → Parses (write_nonzero n v) m (put v)
    unfolding write_nonzero
    Parses-nonzero n v m put hn hv branch unset = elim (Bool-cases (v == 0)) [
      | inl is_zero ↦ let e : v ≡ 0 = eq_of_== v 0 is_zero in rw (e, unset) (Parses-nil m)
      | inr is_set ↦ rw is_set (
          Parses-tagged n wire_varint (write_varint v) m (put v) hn (omega arith)
            λ p h. branch p ∙ rw (read_varint-write_varint v buf p hv h))
    ]

    -- a field of known length, read by a branch that reads the length and then the content
    pub Parses-delimited :
        (n : ℕ) (bytes : List ℕ) (m m' : M) (content : ℕ → Read M)
        → n < 16
        → ((p : ℕ) → on_field m n wire_length_delimited buf p ≡ (read_varint >>= content) buf p)
        → ((p : ℕ) → Holds buf p bytes → content (length bytes) buf p ≡ ok (m', p + length bytes))
        → Parses (write_length_delimited n bytes) m m'
    unfolding write_length_delimited
    Parses-delimited n bytes m m' content hn branch inner =
        let size = write_varint (length bytes) in
        Parses-tagged n wire_length_delimited (size ++ bytes) m m' hn (omega arith) λ p h.
          let (hs, hb) = Holds-append buf p size bytes h in
          let le = Holds-le buf (p + length size) bytes hb in
          branch p
          ∙ rw (read_varint-write_varint (length bytes) buf p (omega arith) hs) (
              inner (p + length size) hb
              ∙ ap (λ q. ok (m', q)) (omega (arith, length-append size bytes)))

    -- The loop over a message of the length that was announced
    pub read_message-Parses :
        (bs : List ℕ) (m m' : M) (p : ℕ)
        → Parses bs m m'
        → Holds buf p bs
        → read_message on_field (length bs) m buf p ≡ ok (m', p + length bs)
    unfolding read_message fields_loop
    read_message-Parses bs m m' p parses h =
        let le = Holds-le buf p bs h in
        let end : add p (length bs) ≡ p + length bs = add_exact p (length bs) (omega arith) in
        rw end (
          fields_mono (length bs + 1) (suc (length buf)) (p + length bs) m p (omega arith) (
            parses.run p (p + length bs) 1 (m', p + length bs) h (omega arith)
              (rw (ltb-false (p + length bs) (p + length bs) (omega arith)) refl)))
