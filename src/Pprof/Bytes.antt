-- ===== src/Pprof/Bytes.antt =====
-- The array that `encodePprof` of packages/pprof-decoder/src/index.ts returns, and the bytes that it
-- pushed.
use obs_unified.Common.{
  Bool, true, ◌&&◌, ℕ, zero, suc, ◌/◌, ◌%◌, ◌<◌, ◌≡◌, refl, ◌∙◌, List, [], ◌∷◌, ◌++◌, inl, inr,
  length, map, flat_map, All, All-append, Bool-cases, arith, leb, ◌==◌,
}
use mathlib.Core.List.{append-nil, append_assoc}
use mathlib.Core.Bool.{false}
use obs_unified.Pprof.Decode.{
  Label, Sample, Line, Location, Function, ValueType, byte_at, Profile, is_gzip,
}
use obs_unified.Pprof.Encode.{
  new_builder, varint_bytes, write_varint, write_tag, write_length_delimited, write_packed_varints,
  write_nonzero, write_string, encode_label, encode_sample, encode_value_type, encode_line,
  encode_location, encode_function, profile_bytes, encode_pprof,
}
use obs_unified.Pprof.Varint.{bit_or-high_bit}
use obs_unified.Pprof.Builder.{to_array-push_all, new_builder-IsValid}

abbrev pub AreBytes : List ℕ → Type 0
AreBytes = All (λ b. b < 256)

append-AreBytes : (xs ys : List ℕ) → AreBytes xs → AreBytes ys → AreBytes (xs ++ ys)
append-AreBytes xs ys = All-append (λ b. b < 256) xs ys

flat_map-AreBytes :
    {A : Type 0} (f : A → List ℕ) (xs : List A)
    → ((a : A) → AreBytes (f a))
    → AreBytes (flat_map f xs)
flat_map-AreBytes f [] h = tt
flat_map-AreBytes f (x ∷ xs) h =
    append-AreBytes (f x) (flat_map f xs) (h x) (flat_map-AreBytes f xs h)

varint_bytes-AreBytes : (fuel v : ℕ) → AreBytes (varint_bytes fuel v)
unfolding varint_bytes
varint_bytes-AreBytes zero v = (omega arith, tt)
varint_bytes-AreBytes (suc fuel) v = elim (Bool-cases (leb 0x80 v)) [
  | inl more ↦
      rw (more, bit_or-high_bit (v % 128) (omega arith))
        (omega arith, varint_bytes-AreBytes fuel (v / 128))
  | inr last ↦ rw last (omega arith, tt)
]

write_varint-AreBytes : (v : ℕ) → AreBytes (write_varint v)
unfolding write_varint
write_varint-AreBytes v = varint_bytes-AreBytes v v

write_tag-AreBytes : (n w : ℕ) → AreBytes (write_tag n w)
unfolding write_tag
write_tag-AreBytes n w = write_varint-AreBytes _

delimited-AreBytes :
    (n : ℕ) (bytes : List ℕ) → AreBytes bytes → AreBytes (write_length_delimited n bytes)
unfolding write_length_delimited
delimited-AreBytes n bytes h =
    append-AreBytes _ _ (write_tag-AreBytes n 2)
      (append-AreBytes _ _ (write_varint-AreBytes (length bytes)) h)

nonzero-AreBytes : (n v : ℕ) → AreBytes (write_nonzero n v)
unfolding write_nonzero
nonzero-AreBytes n v = elim (Bool-cases (v == 0)) [
  | inl e ↦ rw e tt
  | inr e ↦ rw e (append-AreBytes _ _ (write_tag-AreBytes n 0) (write_varint-AreBytes v))
]

packed-AreBytes : (n : ℕ) (vs : List ℕ) → AreBytes (write_packed_varints n vs)
unfolding write_packed_varints
packed-AreBytes n [] = tt
packed-AreBytes n (v ∷ vs) =
    delimited-AreBytes n _ (flat_map-AreBytes write_varint (v ∷ vs) write_varint-AreBytes)

ruleset byte_rules = (append-AreBytes, nonzero-AreBytes, packed-AreBytes, delimited-AreBytes)

label-AreBytes : (label : Label) → AreBytes (encode_label label)
unfolding encode_label
label-AreBytes label = search byte_rules

sample-AreBytes : (sample : Sample) → AreBytes (encode_sample sample)
unfolding encode_sample
sample-AreBytes sample = append-AreBytes _ _ (packed-AreBytes 1 _) (
    append-AreBytes _ _ (packed-AreBytes 2 _)
      (flat_map-AreBytes _ sample.labels (λ label. delimited-AreBytes 3 _ (label-AreBytes label))))

value_type-AreBytes : (vt : ValueType) → AreBytes (encode_value_type vt)
unfolding encode_value_type
value_type-AreBytes vt = search byte_rules

line-AreBytes : (l : Line) → AreBytes (encode_line l)
unfolding encode_line
line-AreBytes l = search byte_rules

location-AreBytes : (loc : Location) → AreBytes (encode_location loc)
unfolding encode_location
location-AreBytes loc =
    append-AreBytes _ _ (nonzero-AreBytes 1 loc.id)
      (flat_map-AreBytes _ loc.lines (λ l. delimited-AreBytes 4 _ (line-AreBytes l)))

function-AreBytes : (fn : Function) → AreBytes (encode_function fn)
unfolding encode_function
function-AreBytes fn = search byte_rules

module _ {Text : Type 0} (encode_text : Text → List ℕ) where
  texts-AreBytes :
      (texts : List Text)
      → All (λ s. AreBytes (encode_text s)) texts
      → AreBytes (flat_map (write_string encode_text 6) texts)
  unfolding write_string
  texts-AreBytes [] h = tt
  texts-AreBytes (s ∷ texts) h =
      append-AreBytes _ _ (delimited-AreBytes 6 (encode_text s) h.0) (texts-AreBytes texts h.1)

  profile-AreBytes :
      (profile : Profile Text)
      → All (λ s. AreBytes (encode_text s)) profile.string_table
      → AreBytes (profile_bytes encode_text profile)
  unfolding profile_bytes
  profile-AreBytes profile h =
      append-AreBytes _ _
        (flat_map-AreBytes _ profile.sample_types
          (λ vt. delimited-AreBytes 1 _ (value_type-AreBytes vt)))
        (append-AreBytes _ _
          (flat_map-AreBytes _ profile.samples (λ s. delimited-AreBytes 2 _ (sample-AreBytes s)))
          (append-AreBytes _ _
            (flat_map-AreBytes _ profile.locations
              (λ e. delimited-AreBytes 4 _ (location-AreBytes e.1)))
            (append-AreBytes _ _
              (flat_map-AreBytes _ profile.functions
                (λ e. delimited-AreBytes 5 _ (function-AreBytes e.1)))
              (texts-AreBytes profile.string_table h))))

  stored : (xs : List ℕ) → AreBytes xs → map (λ x. x % 256) xs ≡ xs
  stored [] h = refl
  stored (x ∷ xs) h = let e : x % 256 ≡ x = omega arith in rw (e, stored xs h.1)

  -- What comes out of the growing array is what was pushed into it, for every profile whose texts are
  -- encoded to bytes.
  pub encode_pprof-profile_bytes :
      (profile : Profile Text)
      → All (λ s. AreBytes (encode_text s)) profile.string_table
      → encode_pprof encode_text profile ≡ profile_bytes encode_text profile
  unfolding encode_pprof
  encode_pprof-profile_bytes profile h =
      let (valid, empty) = new_builder-IsValid in
      let bytes = profile_bytes encode_text profile in
      (to_array-push_all bytes new_builder valid).1
      ∙ rw (empty, stored bytes (profile-AreBytes profile h))

and_false : (b : Bool) → (b && false) ≡ false
and_false true = refl
and_false false = refl

-- A list of bytes that does not begin with the first gzip magic byte
record IsPlain (bytes : List ℕ) : Type 0 where
  first : byte_at bytes 0 0x1f ≡ false

flat_map-IsPlain :
    {A : Type 0} (f : A → List ℕ) (xs : List A) (ys : List ℕ)
    → ((a : A) (rest : List ℕ) → IsPlain (f a ++ rest))
    → IsPlain ys
    → IsPlain (flat_map f xs ++ ys)
flat_map-IsPlain f [] ys h hy = hy
flat_map-IsPlain f (x ∷ xs) ys h hy = rw append_assoc (h x (flat_map f xs ++ ys))

module _ {Text : Type 0} (encode_text : Text → List ℕ) (profile : Profile Text) where
  profile_bytes-IsPlain : IsPlain (profile_bytes encode_text profile)
  unfolding profile_bytes write_string write_length_delimited write_tag write_varint
  profile_bytes-IsPlain =
      flat_map-IsPlain (λ vt. write_length_delimited 1 (encode_value_type vt)) profile.sample_types
        _ (λ vt rest. record { first = refl })
        (flat_map-IsPlain (λ s. write_length_delimited 2 (encode_sample s)) profile.samples _
          (λ sample rest. record { first = refl })
          (flat_map-IsPlain (λ e. write_length_delimited 4 (encode_location e.1)) profile.locations
            _ (λ e rest. record { first = refl })
            (flat_map-IsPlain (λ e. write_length_delimited 5 (encode_function e.1))
              profile.functions _ (λ e rest. record { first = refl })
              (rw append-nil at (
                flat_map-IsPlain (write_string encode_text 6) profile.string_table []
                  (λ s rest. record { first = refl }) (record { first = refl }))))))

  pub is_gzip-profile_bytes : is_gzip (profile_bytes encode_text profile) ≡ false
  unfolding is_gzip
  is_gzip-profile_bytes = let plain = profile_bytes-IsPlain.first in rw plain (and_false _)
