-- ===== src/Common/Lists.antt =====
-- Lists measured and indexed by native numbers, under the library's names.
use Prim.Native.Nat.{ℕ, zero, suc, ◌+◌, ◌<◌}
use mathlib.Core.Path.{◌≡◌}
use mathlib.Core.List.{List, [], ◌∷◌, ◌++◌}
use mathlib.Core.Logic.{◌⊎◌}
use mathlib.Core.Option.{Option, none, some}
use native.Mathlib.Omega.{arith}

module _ {ℓ} {A : Type ℓ} where
  abbrev pub length : List A → ℕ
  length [] = 0
  length (x ∷ xs) = suc (length xs)

  abbrev pub get_elem? : List A → ℕ → Option A
  get_elem? [] i = none
  get_elem? (x ∷ xs) zero = some x
  get_elem? (x ∷ xs) (suc i) = get_elem? xs i

  -- A write out of bounds changes nothing.
  abbrev pub set : List A → ℕ → A → List A
  set [] i v = []
  set (x ∷ xs) zero v = v ∷ xs
  set (x ∷ xs) (suc i) v = x ∷ set xs i v

  abbrev pub take : ℕ → List A → List A
  take zero xs = []
  take (suc n) [] = []
  take (suc n) (x ∷ xs) = x ∷ take n xs

  abbrev pub drop : ℕ → List A → List A
  drop zero xs = xs
  drop (suc n) [] = []
  drop (suc n) (x ∷ xs) = drop n xs

  -- The bodies of a `for` loop over a list, one after the other.
  abbrev pub flat_map {κ} : {B : Type κ} → (A → List B) → List A → List B
  flat_map f [] = []
  flat_map f (x ∷ xs) = f x ++ flat_map f xs

  abbrev pub replicate : ℕ → A → List A
  replicate zero a = []
  replicate (suc n) a = a ∷ replicate n a

module _ {ℓ} {A : Type ℓ} where
  pub length-append : (xs ys : List A) → length (xs ++ ys) ≡ length xs + length ys
  length-append [] ys = omega arith
  length-append (x ∷ xs) ys = omega (arith, length-append xs ys)

  pub lt-length_of_get_elem? :
      (xs : List A) (i : ℕ) {a : A} → get_elem? xs i ≡ some a → i < length xs
  lt-length_of_get_elem? [] i h = cc
  lt-length_of_get_elem? (x ∷ xs) zero h = omega arith
  lt-length_of_get_elem? (x ∷ xs) (suc i) h = omega (arith, lt-length_of_get_elem? xs i h)

-- What each element satisfies, as a nested tuple.
abbrev pub All {ℓ κ} : {E : Type ℓ} (Holds : E → Type κ) (l : List E) → Type κ
All Holds [] = Unit
All Holds (e ∷ l) = Holds e × All Holds l

module _ {ℓ κ} {E : Type ℓ} (Holds : E → Type κ) where
  pub All-append :
      (front back : List E) → All Holds front → All Holds back → All Holds (front ++ back)
  All-append [] back f b = b
  All-append (e ∷ front) back (f, fs) b = (f, All-append front back fs b)

pub All_mono {ℓ κ μ} :
    {E : Type ℓ} (P : E → Type κ) (Q : E → Type μ) (l : List E)
    → ((e : E) → P e → Q e)
    → All P l
    → All Q l
All_mono P Q [] f h = tt
All_mono P Q (e ∷ l) f (here, h) = (f e here, All_mono P Q l f h)

-- Every two elements, the earlier one first
abbrev pub AllPairs {ℓ κ} : {A : Type ℓ} → (A → A → Type κ) → List A → Type κ
AllPairs R [] = Unit
AllPairs R (x ∷ l) = All (R x) l × AllPairs R l

pub AllPairs-append {ℓ κ} :
    {A : Type ℓ} (R : A → A → Type κ) (xs ys : List A)
    → AllPairs R xs
    → AllPairs R ys
    → All (λ x. All (R x) ys) xs
    → AllPairs R (xs ++ ys)
AllPairs-append R [] ys p q across = q
AllPairs-append R (x ∷ xs) ys (here, p) q (far, across) =
    (All-append (R x) xs ys here far, AllPairs-append R xs ys p q across)

-- An element of a list
abbrev pub In : {A : Type 0} → A → List A → Type 0
In x [] = ⊥
In x (y ∷ l) = (x ≡ y) ⊎ In x l

-- The second list holds exactly the elements of the first with the property, in their order.
pub data Selects {ℓ κ} {A : Type ℓ} (P : A → Type κ) : List A → List A → Type (ℓ ⊔ κ) where
  ended : Selects P [] []
  taken : {a : A} {l kept : List A} → P a → Selects P l kept → Selects P (a ∷ l) (a ∷ kept)
  left_out : {a : A} {l kept : List A} → (P a → ⊥) → Selects P l kept → Selects P (a ∷ l) kept
