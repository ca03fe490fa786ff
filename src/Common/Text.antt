-- ===== src/Common/Text.antt =====
-- JavaScript strings as the lists of their UTF-16 code units.
use Prim.Native.Nat.{ℕ}
use Prim.Native.Char.{code}
use Prim.Native.String.{String}
use mathlib.Core.Path.{◌≡◌, refl, ap₂}
use mathlib.Core.Logic.{◌↔◌}
use mathlib.Core.Bool.{Bool, true, false, ◌&&◌, ◌||◌}
use mathlib.Core.Option.{Option, none, some}
use mathlib.Core.List.{List, [], ◌∷◌}
use native.Mathlib.Omega.{arith}
use obs_unified.Common.Tests.{◌==◌, leb, if◌then◌else◌}

abbrev pub Text : Type 0
Text = List ℕ

-- An ASCII literal
abbrev pub lit : String → Text
lit String.[] = []
lit (String.◌∷◌ c rest) = code c ∷ lit rest

-- `===` on strings
unfoldable pub text_eq : Text → Text → Bool
text_eq [] [] = true
text_eq (a ∷ s) (b ∷ t) = a == b && text_eq s t
text_eq _ _ = false

text_eq_sound : (s t : Text) → text_eq s t ≡ true → s ≡ t
unfolding text_eq
text_eq_sound [] [] h = refl
text_eq_sound [] (b ∷ t) h = cc
text_eq_sound (a ∷ s) [] h = cc
text_eq_sound (a ∷ s) (b ∷ t) h =
    ap₂ (λ x l. x ∷ l) (ground arith) (text_eq_sound s t (ground arith))

pub text_eq_refl : (s : Text) → text_eq s s ≡ true
unfolding text_eq
text_eq_refl [] = refl
text_eq_refl (a ∷ s) = ground (arith, text_eq_refl s)

pub text_eq_iff : (s t : Text) → (text_eq s t ≡ true) ↔ (s ≡ t)
text_eq_iff s t = (text_eq_sound s t, λ e. rw e (text_eq_refl t))

-- `!!s`: the empty string is false, as is an absent one.
abbrev pub truthy : Option Text → Bool
truthy none = false
truthy (some []) = false
truthy (some (c ∷ s)) = true

-- `a || b`
abbrev pub or_else : Option Text → Option Text → Option Text
or_else (some (c ∷ s)) b = some (c ∷ s)
or_else _ b = b

-- `\s` of a regular expression
unfoldable pub is_space : ℕ → Bool
is_space c =
    c == 0x20
    || (leb 9 c && leb c 13)
    || c == 0xa0
    || c == 0x1680
    || (leb 0x2000 c && leb c 0x200a)
    || c == 0x2028
    || c == 0x2029
    || c == 0x202f
    || c == 0x205f
    || c == 0x3000
    || c == 0xfeff

-- `s.trim()`
unfoldable pub trim_end : Text → Text
unfolding is_space
trim_end [] = []
trim_end (c ∷ s) = elim (trim_end s) [
  | [] ↦ if is_space c then [] else c ∷ []
  | d ∷ rest ↦ c ∷ d ∷ rest
]

unfoldable pub trim : Text → Text
unfolding trim_end is_space
trim [] = []
trim (c ∷ s) = if is_space c then trim s else trim_end (c ∷ s)

unfoldable pub ends_with : Text → Text → Bool
unfolding text_eq
ends_with [] suffix = text_eq [] suffix
ends_with (c ∷ s) suffix = text_eq (c ∷ s) suffix || ends_with s suffix

-- `s.split(c)` at a separator of one code
unfoldable pub split_on : ℕ → Text → List Text
split_on c [] = [] ∷ []
split_on c (a ∷ s) = elim (split_on c s) [
  | [] ↦ []
  | part ∷ parts ↦ if a == c then [] ∷ part ∷ parts else (a ∷ part) ∷ parts
]

-- `parts.filter(Boolean)`
unfoldable pub drop_empty : List Text → List Text
drop_empty [] = []
drop_empty (s ∷ parts) = if truthy (some s) then s ∷ drop_empty parts else drop_empty parts
