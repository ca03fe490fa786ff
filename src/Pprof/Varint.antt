-- ===== src/Pprof/Varint.antt =====
-- Variable-length numbers: what `writeVarint` writes and `readVarint` reads, in
-- packages/pprof-decoder/src/index.ts.
use Prim.Native.Nat.{bit_or}
use mathlib.Core.Path.{ap₂}
use native.Mathlib.Nat.{pow-suc, add-suc, add-zero}
use native.Mathlib.Numerals.{add-one, towards_suc}
use obs_unified.Common.{
  ℕ, zero, suc, ◌+◌, ◌-◌, ◌*◌, ◌/◌, ◌%◌, ◌^◌, ◌≤◌, ◌<◌, ◌≡◌, refl, ◌∙◌, ap, Bool, true, false, List,
  [], ◌∷◌, ◌++◌, inl, inr, length, get_elem?, Bool-cases, some, arith, leb, ltb-false, ◌==◌,
  if◌then◌else◌,
}
use obs_unified.Pprof.Double.{precise, add_exact}
use obs_unified.Pprof.Reader.{ok, varint_loop, read_varint}
use obs_unified.Pprof.Encode.{varint_bytes, write_varint}

-- The buffer holds the bytes from the position on.
abbrev pub Holds : List ℕ → ℕ → List ℕ → Type 0
Holds buf p [] = p ≤ length buf
Holds buf p (b ∷ bs) = (get_elem? buf p ≡ some b) × Holds buf (p + 1) bs

pub Holds-le : (buf : List ℕ) (p : ℕ) (bs : List ℕ) → Holds buf p bs → p + length bs ≤ length buf
Holds-le buf p [] h = omega arith
Holds-le buf p (b ∷ bs) h = omega (arith, Holds-le buf (p + 1) bs h.1)

pub Holds-append :
    (buf : List ℕ) (p : ℕ) (xs ys : List ℕ)
    → Holds buf p (xs ++ ys)
    → Holds buf p xs × Holds buf (p + length xs) ys
Holds-append buf p [] ys h = (omega (arith, Holds-le buf p ys h), rw add-zero h)
Holds-append buf p (x ∷ xs) ys h =
    let (hx, hy) = Holds-append buf (p + 1) xs ys h.1 in
    let e : p + 1 + length xs ≡ p + suc (length xs) = omega arith in ((h.0, hx), rw (← e) hy)

Holds-cons :
    (x : ℕ) (buf : List ℕ) (p : ℕ) (bs : List ℕ) → Holds buf p bs → Holds (x ∷ buf) (p + 1) bs
Holds-cons x buf p [] h = omega arith
Holds-cons x buf p (b ∷ bs) h = (rw add-one h.0, Holds-cons x buf (p + 1) bs h.1)

-- A buffer holds itself.
pub Holds-self : (buf : List ℕ) → Holds buf 0 buf
Holds-self [] = omega arith
Holds-self (x ∷ buf) = (refl, Holds-cons x buf 0 buf (Holds-self buf))

-- A test passes at every number below the bound, by evaluation.
unfoldable pub passes_below : ℕ → (ℕ → Bool) → Bool
passes_below zero test = true
passes_below (suc k) test = if test k then passes_below k test else false

pub passes_at :
    (bound : ℕ) (test : ℕ → Bool) (i : ℕ)
    → i < bound
    → passes_below bound test ≡ true
    → test i ≡ true
unfolding passes_below
passes_at zero test i below all = elim below [ ]
passes_at (suc k) test i below all = ground (arith, passes_at k test i)

high_bit_table : passes_below 128 (λ x. bit_or x 0x80 == x + 128) ≡ true
unfolding passes_below
high_bit_table = refl

pub eq_of_== : (a b : ℕ) → (a == b) ≡ true → a ≡ b
eq_of_== a b h = ground arith

pub bit_or-high_bit : (x : ℕ) → x < 128 → bit_or x 0x80 ≡ x + 128
bit_or-high_bit x h = eq_of_== _ _ (passes_at 128 _ x h high_bit_table)

varint_bytes_fuel : (f g v : ℕ) → v ≤ f → v ≤ g → varint_bytes f v ≡ varint_bytes g v
unfolding varint_bytes
varint_bytes_fuel zero zero v p q = refl
varint_bytes_fuel zero (suc g) v p q = ground arith
varint_bytes_fuel (suc f) zero v p q = ground arith
varint_bytes_fuel (suc f) (suc g) v p q = ground (arith, varint_bytes_fuel f g (v / 128))

-- The loop ends by its own test, and the number of rounds given does not show.
pub write_varint_lem :
    (v : ℕ)
    → write_varint v
      ≡ (if leb 0x80 v then (v % 128 + 128) ∷ write_varint (v / 128) else v % 128 ∷ [])
unfolding write_varint
write_varint_lem zero = refl
write_varint_lem (suc v) = rw (
  varint_bytes_fuel v (suc v / 128) (suc v / 128) (omega arith) (omega arith),
  bit_or-high_bit (suc v % 128) (omega arith),
)

div_mod : (v : ℕ) → v ≡ v % 128 + v / 128 * 128
div_mod v = omega arith

pow2_add7 : (s : ℕ) → 2 ^ (s + 7) ≡ 128 * 2 ^ s
pow2_add7 s = simp towards_suc (omega arith)

pow2_mono : (a b : ℕ) → 2 ^ a ≤ 2 ^ (a + b)
pow2_mono a zero = rw add-zero (omega arith)
pow2_mono a (suc b) = rw (add-suc, pow-suc) (omega (arith, pow2_mono a b))

lt_of_leb-false : (v : ℕ) → leb 0x80 v ≡ false → v < 128
lt_of_leb-false v h = ground arith

le_of_leb-true : (v : ℕ) → leb 0x80 v ≡ true → 128 ≤ v
le_of_leb-true v h = ground arith

write_varint_more :
    (v : ℕ) → leb 0x80 v ≡ true → write_varint v ≡ (v % 128 + 128) ∷ write_varint (v / 128)
write_varint_more v h = rw (write_varint_lem v, h)

write_varint_last : (v : ℕ) → leb 0x80 v ≡ false → write_varint v ≡ v ∷ []
write_varint_last v h = rw (write_varint_lem v, h) (ap (λ x. x ∷ []) (ground arith))

module _ (fuel result shift : ℕ) (buf : List ℕ) (p x : ℕ) (low : x < 128)
    (small : result + x * 2 ^ shift < precise) where
  loop_last :
      get_elem? buf p ≡ some x
      → varint_loop (suc fuel) result shift buf p ≡ ok (result + x * 2 ^ shift, p + 1)
  unfolding varint_loop
  loop_last h =
      let e : x % 128 ≡ x = omega arith in
      let top : x / 128 % 2 ≡ 0 = omega arith in rw (h, varint_loop, e, top, add_exact _ _ small)

  loop_more :
      get_elem? buf p ≡ some (x + 128)
      → shift + 7 ≤ 63
      → varint_loop (suc fuel) result shift buf p
        ≡ varint_loop fuel (result + x * 2 ^ shift) (shift + 7) buf (p + 1)
  unfolding varint_loop
  loop_more h s =
      let e : (x + 128) % 128 ≡ x = omega arith in
      let top : (x + 128) / 128 % 2 ≡ 1 = omega arith in
      rw (h, varint_loop, e, top, add_exact _ _ small, ltb-false 63 (shift + 7) s)

-- A number of 128 or more under 2 ^ 53 stands at a shift below 46.
shift_room : (v shift : ℕ) → 128 ≤ v → v * 2 ^ shift < precise → shift + 7 ≤ 63
shift_room v shift big small = elim (Bool-cases (leb shift 56)) [
  | inl fits ↦ ground arith
  | inr over ↦
      let k : shift ≡ 57 + (shift - 57) = ground arith in
      let mono : 2 ^ 57 ≤ 2 ^ shift = rw k (pow2_mono 57 (shift - 57)) in
      absurd (grind (arith, mono))
]

-- The loop from any state: what has been read stands in `result`.
varint_loop-write_varint :
    (fuel v shift result : ℕ) (buf : List ℕ) (p : ℕ)
    → 63 < shift + 7 * fuel
    → shift ≤ 63
    → result + v * 2 ^ shift < precise
    → Holds buf p (write_varint v)
    → varint_loop fuel result shift buf p ≡ ok (result + v * 2 ^ shift, p + length (write_varint v))
varint_loop-write_varint zero v shift result buf p f s small h = absurd (omega arith)
varint_loop-write_varint (suc fuel) v shift result buf p f s small h =
    elim (Bool-cases (leb 0x80 v)) [
      | inl more ↦
          let e = write_varint_more v more in
          let h' : Holds buf p ((v % 128 + 128) ∷ write_varint (v / 128)) = rw e at h in
          let split : v * 2 ^ shift ≡ v % 128 * 2 ^ shift + v / 128 * 2 ^ (shift + 7) =
            rw (pow2_add7 shift) (omega (arith, ap (λ (t : ℕ). t * 2 ^ shift) (div_mod v))) in
          let room = shift_room v shift (le_of_leb-true v more) (omega arith) in
          loop_more fuel result shift buf p (v % 128) (omega arith) (omega arith) h'.0 room
          ∙ varint_loop-write_varint fuel (v / 128) (shift + 7) (result + v % 128 * 2 ^ shift) buf
              (p + 1) (omega arith) room (omega arith) h'.1
          ∙ rw e (ap₂ (λ a b. ok (a, b)) (omega arith) (omega arith))
      | inr last ↦
          let e = write_varint_last v last in
          let h' : Holds buf p (v ∷ []) = rw e at h in
          rw e (loop_last fuel result shift buf p v (lt_of_leb-false v last) small h'.0)
    ]

-- `readVarint` reads back what `writeVarint` wrote, for every number that a double holds exactly.
pub read_varint-write_varint :
    (v : ℕ) (buf : List ℕ) (p : ℕ)
    → v < precise
    → Holds buf p (write_varint v)
    → read_varint buf p ≡ ok (v, p + length (write_varint v))
unfolding read_varint
read_varint-write_varint v buf p small h =
    let e : 0 + v * 2 ^ 0 ≡ v = omega arith in
    varint_loop-write_varint 10 v 0 0 buf p (omega arith) (omega arith) (omega arith) h ∙ rw e

pub write_varint_nonempty : (v : ℕ) → 0 < length (write_varint v)
write_varint_nonempty v = elim (Bool-cases (leb 0x80 v)) [
  | inl more ↦ rw (write_varint_more v more) (omega arith)
  | inr last ↦ rw (write_varint_last v last) (omega arith)
]
