-- ===== src/Pprof/Safe.antt =====
-- The loops of the readers in packages/pprof-decoder/src/index.ts and the fuel they are given.
use obs_unified.Common.{
  ℕ, zero, suc, ◌+◌, ◌-◌, ◌*◌, ◌/◌, ◌%◌, ◌^◌, ◌≤◌, ◌<◌, ◌≢◌, Bool, true, false, List, ◌∷◌, length,
  get_elem?, inl, inr, Bool-cases, Option-cases, lt-length_of_get_elem?, arith, ltb, ltb-false→le,
  ◌==◌, if◌then◌else◌,
}
use Prim.Native.Nat.{min}
use obs_unified.Pprof.Double.{precise, add, le-add}
use obs_unified.Pprof.Reader.{
  Result, Read, ok, err, out_of_fuel, unsupported_wire_type, pure, throw, resume, ◌>>=◌,
  varint_loop, read_varint, read_bytes, advance, skip_field, read_field, fields_loop, read_message,
  packed_loop, decode_packed_varints,
}
use obs_unified.Pprof.Decode.{skip}

-- An answer of a reader that started at `p`: the fuel was enough, and the position has not gone back.
-- (Beyond 2 ^ 53 positions are rounded, and stay beyond.)
abbrev pub Safe : {A : Type 0} → ℕ → Result (A × ℕ) → Type 0
Safe p (ok (a, q)) = min p precise ≤ q
Safe p (err e) = e ≢ out_of_fuel

Safe-weaken : {A : Type 0} (p q : ℕ) (r : Result (A × ℕ)) → min p precise ≤ q → Safe q r → Safe p r
Safe-weaken p q (ok (a, s)) h k = omega arith
Safe-weaken p q (err e) h k = k

module _ (buf : List ℕ) where
  pub record IsSafe {A : Type 0} (m : Read A) : Type 0 where
    pub at : (p : ℕ) → Safe p (m buf p)

  module _ {A : Type 0} where
    pub IsSafe-pure : (a : A) → IsSafe (pure a)
    IsSafe-pure a = record { at = λ p. omega arith }

    pub IsSafe-if : (b : Bool) (m n : Read A) → IsSafe m → IsSafe n → IsSafe (if b then m else n)
    IsSafe-if true m n hm hn = hm
    IsSafe-if false m n hm hn = hn

  pub IsSafe-throw : {A : Type 0} (w : ℕ) → IsSafe {A = A} (throw (unsupported_wire_type w))
  IsSafe-throw w = record { at = λ p e. cc }

  module _ {A B : Type 0} where
    resume-Safe :
        (p : ℕ) (r : Result (A × ℕ)) (f : A → Read B)
        → Safe p r
        → ((a : A) → IsSafe (f a))
        → Safe p (resume r f buf)
    resume-Safe p (ok (a, q)) f h k = Safe-weaken p q _ h ((k a).at q)
    resume-Safe p (err e) f h k = h

    pub IsSafe-bind :
        (m : Read A) (f : A → Read B) → IsSafe m → ((a : A) → IsSafe (f a)) → IsSafe (m >>= f)
    IsSafe-bind m f hm hf = record { at = λ p. resume-Safe p (m buf p) f (hm.at p) hf }

  pub IsSafe-advance : (len : ℕ) → IsSafe (advance len)
  unfolding advance
  IsSafe-advance len = record { at = λ p. le-add p len }

  -- A varint that is read lies in the buffer, and is not empty.
  abbrev InBuffer : ℕ → Result (ℕ × ℕ) → Type 0
  InBuffer p (ok (a, q)) = (p < q) × (q ≤ length buf)
  InBuffer p (err e) = e ≢ out_of_fuel

  InBuffer-weaken : (p : ℕ) (r : Result (ℕ × ℕ)) → InBuffer (p + 1) r → InBuffer p r
  InBuffer-weaken p (ok (a, q)) h = omega arith
  InBuffer-weaken p (err e) h = h

  varint_loop-InBuffer :
      (fuel result shift p : ℕ)
      → 63 < shift + 7 * fuel
      → shift ≤ 63
      → InBuffer p (varint_loop fuel result shift buf p)
  unfolding varint_loop
  varint_loop-InBuffer zero result shift p f s = absurd (omega arith)
  varint_loop-InBuffer (suc fuel) result shift p f s = elim (Option-cases (get_elem? buf p)) [
    | inl off ↦ rw (off, varint_loop) (λ e. cc)
    | inr (byte, here) ↦
        let inside = lt-length_of_get_elem? buf p here in
        elim (Bool-cases (byte / 128 % 2 == 0)) [
          | inl last ↦ rw (here, varint_loop, last) (omega arith, omega arith)
          | inr more ↦ elim (Bool-cases (ltb 63 (shift + 7))) [
            | inl long ↦ rw (here, varint_loop, more, long) (λ e. cc)
            | inr room ↦
                rw (here, varint_loop, more, room)
                  (InBuffer-weaken p _ (
                    varint_loop-InBuffer fuel (add result (byte % 128 * 2 ^ shift)) (shift + 7)
                      (p + 1) (omega arith) (ltb-false→le _ _ room)))
          ]
        ]
  ]

  read_varint-InBuffer : (p : ℕ) → InBuffer p (read_varint buf p)
  unfolding read_varint
  read_varint-InBuffer p = varint_loop-InBuffer 10 0 0 p (omega arith) (omega arith)

  Safe-of_InBuffer : (p : ℕ) (r : Result (ℕ × ℕ)) → InBuffer p r → Safe p r
  Safe-of_InBuffer p (ok (a, q)) h = omega arith
  Safe-of_InBuffer p (err e) h = h

  pub IsSafe-read_varint : IsSafe read_varint
  IsSafe-read_varint = record { at = λ p. Safe-of_InBuffer p _ (read_varint-InBuffer p) }

  pub IsSafe-read_bytes : (len : ℕ) → IsSafe (read_bytes len)
  unfolding read_bytes
  IsSafe-read_bytes len = record {
    at = λ p. elim (Bool-cases (ltb (length buf) (add p len))) [
      | inl out ↦ rw out (λ e. cc)
      | inr fits ↦ rw fits (le-add p len)
    ];
  }

  pub ruleset safe_rules =
      (IsSafe-pure, IsSafe-if, IsSafe-throw, IsSafe-bind, IsSafe-advance, IsSafe-read_varint)

  IsSafe-skip_field : (w : ℕ) → IsSafe (skip_field w)
  unfolding skip_field
  IsSafe-skip_field w = search safe_rules depth 12

  module _ {M : Type 0} (on_field : M → ℕ → ℕ → Read M)
      (body : (m : M) (n w : ℕ) → IsSafe (on_field m n w)) (fits : length buf < precise) where
    -- One round that goes on takes a byte off what is left.
    again :
        (fuel end p : ℕ) (r : Result (ℕ × ℕ)) (f : ℕ → Read M)
        → InBuffer p r
        → ((tag : ℕ) → IsSafe (f tag))
        → length buf - p < suc fuel
        → ((m : M) (q : ℕ) → length buf - q < fuel → Safe q (fields_loop on_field fuel end m buf q))
        → Safe p (resume (resume r f buf) (fields_loop on_field fuel end) buf)
    again fuel end p (err e) f h body left ih = h
    again fuel end p (ok (tag, q)) f h body left ih = after (f tag buf q) ((body tag).at q)
      where
        after :
            (r : Result (M × ℕ)) → Safe q r → Safe p (resume r (fields_loop on_field fuel end) buf)
        after (err e) k = k
        after (ok (m, s)) k = Safe-weaken p s _ (omega arith) (ih m s (omega arith))

    pub fields_loop-Safe :
        (fuel end p : ℕ) (m : M)
        → length buf - p < fuel
        → Safe p (fields_loop on_field fuel end m buf p)
    unfolding fields_loop read_field
    fields_loop-Safe zero end p m left = absurd (omega arith)
    fields_loop-Safe (suc fuel) end p m left = elim (Bool-cases (ltb p end)) [
      | inl more ↦ rw more (
          again fuel end p (read_varint buf p) _ (read_varint-InBuffer p)
            (λ tag. body m (tag % 2 ^ 32 / 8) (tag % 8)) left
            (λ m' q k. fields_loop-Safe fuel end q m' k))
      | inr done ↦ rw done (omega arith)
    ]

    pub IsSafe-read_message : (len : ℕ) (m : M) → IsSafe (read_message on_field len m)
    unfolding read_message
    IsSafe-read_message len m = record {
      at = λ p. fields_loop-Safe (suc (length buf)) (add p len) p m (omega arith);
    }

  module _ (fits : length buf < precise) where
    packed_again :
        (fuel end p : ℕ) (r : Result (ℕ × ℕ))
        → InBuffer p r
        → length buf - p < suc fuel
        → ((q : ℕ) → length buf - q < fuel → Safe q (packed_loop fuel end buf q))
        → Safe p (resume r (λ v. do vs ← packed_loop fuel end; pure (v ∷ vs)) buf)
    packed_again fuel end p (err e) h left ih = h
    packed_again fuel end p (ok (v, q)) h left ih = Safe-weaken p q _ (omega arith) (
        resume-Safe q (packed_loop fuel end buf q) _ (ih q (omega arith))
          (λ vs. IsSafe-pure (v ∷ vs)))

    packed_loop-Safe :
        (fuel end p : ℕ) → length buf - p < fuel → Safe p (packed_loop fuel end buf p)
    unfolding packed_loop
    packed_loop-Safe zero end p left = absurd (omega arith)
    packed_loop-Safe (suc fuel) end p left = elim (Bool-cases (ltb p end)) [
      | inl more ↦ rw more (
          packed_again fuel end p (read_varint buf p) (read_varint-InBuffer p) left
            (λ q k. packed_loop-Safe fuel end q k))
      | inr done ↦ rw done (omega arith)
    ]

    pub IsSafe-decode_packed_varints : (len : ℕ) → IsSafe (decode_packed_varints len)
    unfolding decode_packed_varints
    IsSafe-decode_packed_varints len = record {
      at = λ p. packed_loop-Safe (suc (length buf)) (add p len) p (omega arith);
    }

    pub IsSafe-skip : {M : Type 0} (m : M) (w : ℕ) → IsSafe (skip m w)
    unfolding skip
    IsSafe-skip m w = IsSafe-bind _ _ (IsSafe-skip_field w) (λ _. IsSafe-pure m)
