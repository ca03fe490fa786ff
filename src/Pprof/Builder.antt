-- ===== src/Pprof/Builder.antt =====
-- `ByteBuilder` of packages/pprof-decoder/src/index.ts: an array that grows, and the bytes pushed onto
-- it.
use obs_unified.Common.{
  ℕ, zero, suc, ◌+◌, ◌%◌, ◌≤◌, ◌<◌, ◌≡◌, refl, ◌∙◌, List, [], ◌∷◌, ◌++◌, map, inl, inr, length, set,
  take, replicate, length-append, Bool-cases, arith, leb, ap,
}
use mathlib.Core.List.{append_assoc, append-nil}
use obs_unified.Pprof.Encode.{new_builder, ByteBuilder, grow, push, push_all, to_array}

pub record IsValid (b : ByteBuilder) : Type 0 where
  pub capacity : 0 < length b.buf
  pub room : b.len ≤ length b.buf

length-replicate : (n : ℕ) → length (replicate n (let z : ℕ = 0 in z)) ≡ n
length-replicate zero = refl
length-replicate (suc n) = ap suc (length-replicate n)

length-set : (xs : List ℕ) (i v : ℕ) → length (set xs i v) ≡ length xs
length-set [] i v = refl
length-set (x ∷ xs) zero v = refl
length-set (x ∷ xs) (suc i) v = ap suc (length-set xs i v)

take-set : (xs : List ℕ) (i v : ℕ) → i < length xs → take (suc i) (set xs i v) ≡ take i xs ++ v ∷ []
take-set [] i v h = absurd (omega arith)
take-set (x ∷ xs) zero v h = refl
take-set (x ∷ xs) (suc i) v h = ap (λ l. x ∷ l) (take-set xs i v (omega arith))

take-append : (n : ℕ) (xs ys : List ℕ) → n ≤ length xs → take n (xs ++ ys) ≡ take n xs
take-append zero xs ys h = refl
take-append (suc n) [] ys h = absurd (omega arith)
take-append (suc n) (x ∷ xs) ys h = ap (λ l. x ∷ l) (take-append n xs ys (omega arith))

module _ (b : ByteBuilder) (v : IsValid b) where
  grow_room : b.len < length (grow b)
  unfolding grow
  grow_room = elim (Bool-cases (leb (length b.buf) b.len)) [
    | inl full ↦ rw full (
        omega (
          arith,
          length-append b.buf (replicate (length b.buf) 0),
          length-replicate (length b.buf),
          v.capacity,
          v.room,
        ))
    | inr free ↦ rw free (ground arith)
  ]

  take-grow : take b.len (grow b) ≡ take b.len b.buf
  unfolding grow
  take-grow = elim (Bool-cases (leb (length b.buf) b.len)) [
    | inl full ↦ rw full (take-append b.len b.buf _ v.room)
    | inr free ↦ rw free refl
  ]

  push-IsValid : (x : ℕ) → IsValid (push b x)
  unfolding push
  push-IsValid x = record {
    capacity = omega (arith, length-set (grow b) b.len (x % 256), grow_room);
    room = omega (arith, length-set (grow b) b.len (x % 256), grow_room);
  }

  to_array-push : (x : ℕ) → to_array (push b x) ≡ to_array b ++ x % 256 ∷ []
  unfolding push to_array
  to_array-push x =
      let e : b.len + 1 ≡ suc b.len = omega arith in
      rw (e, take-set (grow b) b.len (x % 256) grow_room, take-grow)

-- The builder refines the list of the bytes pushed so far, each stored modulo 256, whether or not it
-- has grown on the way.
pub new_builder-IsValid : IsValid new_builder × (to_array new_builder ≡ [])
unfolding new_builder to_array
new_builder-IsValid =
    (record { capacity = rw (length-replicate 16384) (omega arith); room = omega arith }, refl)

pub to_array-push_all :
    (xs : List ℕ) (b : ByteBuilder)
    → IsValid b
    → IsValid (push_all b xs) × (to_array (push_all b xs) ≡ to_array b ++ map (λ x. x % 256) xs)
unfolding push_all
to_array-push_all [] b v = (v, rw append-nil)
to_array-push_all (x ∷ xs) b v =
    let (v', e) = to_array-push_all xs (push b x) (push-IsValid b v x) in
    (v', e ∙ rw (to_array-push b v x, append_assoc))
