-- ===== src/Pprof/RoundTrip.antt =====
-- A whole profile through encoder and decoder, in packages/pprof-decoder/src/index.ts.
use obs_unified.Common.{
  ℕ, zero, suc, ◌+◌, ◌<◌, ◌≡◌, refl, ◌∙◌, sym, ap, Bool, false, ◌||◌, List, [], ◌∷◌, ◌++◌, length,
  take, drop, get_elem?, flat_map, All, arith, ltb-false, ◌==◌, some,
}
use obs_unified.Pprof.Double.{precise, add_exact}
use obs_unified.Pprof.Reader.{ok, read_bytes, fields_loop}
use obs_unified.Pprof.Decode.{
  Location, Function, Profile, map_set, read_string, profile_field, decode_pprof, empty_profile,
}
use obs_unified.Pprof.Encode.{
  encode_sample, write_string, write_length_delimited, encode_location, encode_function,
  encode_value_type, profile_bytes,
}
use obs_unified.Pprof.Varint.{Holds, Holds-le, Holds-self}
use obs_unified.Pprof.Fields.{Parses, Parses-append, Parses-delimited, Parses-flat_map}
use obs_unified.Pprof.Messages.{
  SampleFits, LocationFits, FunctionFits, ValueTypeFits, All-middle, decode_sample-encode_sample,
  decode_location-encode_location, decode_function-encode_function,
  decode_value_type-encode_value_type,
}

-- The entries of a `Map`: no key twice.
abbrev pub has_key : {V : Type 0} → ℕ → List (ℕ × V) → Bool
has_key k [] = false
has_key k ((j, v) ∷ m) = j == k || has_key k m

abbrev pub IsMap : {V : Type 0} → List (ℕ × V) → Type 0
IsMap [] = Unit
IsMap ((k, v) ∷ m) = (has_key k m ≡ false) × IsMap m

has_key-middle :
    {V : Type 0} (j k : ℕ) (v : V) (xs ys : List (ℕ × V))
    → has_key j (xs ++ (k, v) ∷ ys) ≡ false
    → (j == k) ≡ false
has_key-middle j k v [] ys h = ground arith
has_key-middle j k v ((i, w) ∷ xs) ys h = has_key-middle j k v xs ys (ground arith)

-- A key that is not there is added at the end.
map_set_new :
    {V : Type 0} (k : ℕ) (v : V) (done rest : List (ℕ × V))
    → IsMap (done ++ (k, v) ∷ rest)
    → map_set k v done ≡ done ++ (k, v) ∷ []
unfolding map_set
map_set_new k v [] rest h = refl
map_set_new k v ((j, w) ∷ done) rest h =
    rw (has_key-middle j k v done rest h.0, map_set_new k v done rest h.1)

drop_cons :
    (buf : List ℕ) (p : ℕ) {b : ℕ} → get_elem? buf p ≡ some b → drop p buf ≡ b ∷ drop (p + 1) buf
drop_cons [] p h = cc
drop_cons (x ∷ buf) zero h = cc
drop_cons (x ∷ buf) (suc p) h =
    rw (drop_cons buf p h) (let e : suc p + 1 ≡ suc (p + 1) = omega arith in rw e refl)

take-drop-Holds :
    (buf : List ℕ) (p : ℕ) (bs : List ℕ) → Holds buf p bs → take (length bs) (drop p buf) ≡ bs
take-drop-Holds buf p [] h = refl
take-drop-Holds buf p (b ∷ bs) h =
    rw (drop_cons buf p h.0) (ap (λ l. b ∷ l) (take-drop-Holds buf (p + 1) bs h.1))

abbrev LocationEntryFits : ℕ × Location → Type 0
LocationEntryFits e = (e.0 ≡ e.1.id) × LocationFits e.1

abbrev FunctionEntryFits : ℕ × Function → Type 0
FunctionEntryFits e = (e.0 ≡ e.1.id) × FunctionFits e.1

module _ {Text : Type 0} (decode_text : List ℕ → Text) (encode_text : Text → List ℕ) where
  abbrev TextFits : Text → Type 0
  TextFits s = decode_text (encode_text s) ≡ s

  -- What the encoder keeps: numbers that a double holds exactly, maps from each entry's own number,
  -- and texts that the platform's UTF-8 functions give back.
  pub record ProfileFits (profile : Profile Text) : Type 0 where
    pub sample_types : All ValueTypeFits profile.sample_types
    pub samples : All SampleFits profile.samples
    pub locations : All LocationEntryFits profile.locations
    pub location_keys : IsMap profile.locations
    pub functions : All FunctionEntryFits profile.functions
    pub function_keys : IsMap profile.functions
    pub texts : All TextFits profile.string_table
    pub text_bytes : All (λ s. All (λ b. b < 256) (encode_text s)) profile.string_table

  module _ (profile : Profile Text) (buf : List ℕ) (fits : length buf < precise)
      (v : ProfileFits profile) where
    read_string-encode_text :
        (s : Text) (p : ℕ)
        → decode_text (encode_text s) ≡ s
        → Holds buf p (encode_text s)
        → read_string decode_text (length (encode_text s)) buf p
          ≡ ok (s, p + length (encode_text s))
    unfolding read_string read_bytes
    read_string-encode_text s p same h =
        let le = Holds-le buf p (encode_text s) h in
        rw (
          add_exact p (length (encode_text s)) (omega arith),
          ltb-false (length buf) (p + length (encode_text s)) le,
          take-drop-Holds buf p (encode_text s) h,
          same,
        )

    abbrev Reads : List ℕ → Profile Text → Profile Text → Type 0
    Reads = Parses (profile_field decode_text) buf

    value_types :
        Reads
          (flat_map (λ vt. write_length_delimited 1 (encode_value_type vt)) profile.sample_types)
          empty_profile
          (record empty_profile { sample_types = profile.sample_types })
    unfolding profile_field
    value_types =
        Parses-flat_map (profile_field decode_text) buf _
          (λ xs. record empty_profile { sample_types = xs }) profile.sample_types
          λ done vt rest whole.
            Parses-delimited (profile_field decode_text) buf fits 1 (encode_value_type vt) _ _ _
              (omega arith) (λ q. refl)
              λ p h. rw (
                decode_value_type-encode_value_type buf fits vt p
                  (All-middle ValueTypeFits done vt rest (rw whole v.sample_types)) h)

    samples :
        Reads
          (flat_map (λ sample. write_length_delimited 2 (encode_sample sample)) profile.samples)
          (record empty_profile { sample_types = profile.sample_types })
          (record empty_profile { sample_types = profile.sample_types; samples = profile.samples })
    unfolding profile_field
    samples =
        Parses-flat_map (profile_field decode_text) buf _
          (λ xs. record empty_profile { sample_types = profile.sample_types; samples = xs })
          profile.samples
          λ done sample rest whole.
            Parses-delimited (profile_field decode_text) buf fits 2 (encode_sample sample) _ _ _
              (omega arith) (λ q. refl)
              λ p h. rw (
                decode_sample-encode_sample buf fits sample p
                  (All-middle SampleFits done sample rest (rw whole v.samples)) h)

    locations :
        Reads
          (flat_map (λ e. write_length_delimited 4 (encode_location e.1)) profile.locations)
          (record profile { locations = []; functions = []; string_table = [] })
          (record profile { functions = []; string_table = [] })
    unfolding profile_field
    locations =
        Parses-flat_map (profile_field decode_text) buf _
          (λ xs. record profile { locations = xs; functions = []; string_table = [] })
          profile.locations
          λ done e rest whole.
            let (key, small) = All-middle LocationEntryFits done e rest (rw whole v.locations) in
            let new : map_set e.1.id e.1 done ≡ done ++ e ∷ [] =
              ap (λ k. map_set k e.1 done) (sym key)
              ∙ map_set_new e.0 e.1 done rest (rw whole v.location_keys) in
            Parses-delimited (profile_field decode_text) buf fits 4 (encode_location e.1) _ _ _
              (omega arith) (λ q. refl)
              λ p h. rw (decode_location-encode_location buf fits e.1 p small h, new)

    functions :
        Reads
          (flat_map (λ e. write_length_delimited 5 (encode_function e.1)) profile.functions)
          (record profile { functions = []; string_table = [] })
          (record profile { string_table = [] })
    unfolding profile_field
    functions =
        Parses-flat_map (profile_field decode_text) buf _
          (λ xs. record profile { functions = xs; string_table = [] }) profile.functions
          λ done e rest whole.
            let (key, small) = All-middle FunctionEntryFits done e rest (rw whole v.functions) in
            let new : map_set e.1.id e.1 done ≡ done ++ e ∷ [] =
              ap (λ k. map_set k e.1 done) (sym key)
              ∙ map_set_new e.0 e.1 done rest (rw whole v.function_keys) in
            Parses-delimited (profile_field decode_text) buf fits 5 (encode_function e.1) _ _ _
              (omega arith) (λ q. refl)
              λ p h. rw (decode_function-encode_function buf fits e.1 p small h, new)

    texts :
        Reads
          (flat_map (write_string encode_text 6) profile.string_table)
          (record profile { string_table = [] })
          profile
    unfolding profile_field write_string
    texts =
        Parses-flat_map (profile_field decode_text) buf _
          (λ xs. record profile { string_table = xs }) profile.string_table
          λ done s rest whole.
            Parses-delimited (profile_field decode_text) buf fits 6 (encode_text s) _ _ _
              (omega arith) (λ q. refl)
              λ p h.
                rw (
                  read_string-encode_text s p (All-middle TextFits done s rest (rw whole v.texts))
                    h)

    Parses-profile_bytes : Reads (profile_bytes encode_text profile) empty_profile profile
    unfolding profile_bytes
    Parses-profile_bytes =
        let on_field = profile_field decode_text in
        Parses-append on_field buf value_types (
          Parses-append on_field buf samples
            (Parses-append on_field buf locations (Parses-append on_field buf functions texts)))

  pub decode_pprof-profile_bytes :
      (profile : Profile Text)
      → ProfileFits profile
      → length (profile_bytes encode_text profile) < precise
      → decode_pprof decode_text (profile_bytes encode_text profile) ≡ ok profile
  unfolding decode_pprof fields_loop
  decode_pprof-profile_bytes profile v fits =
      let buf = profile_bytes encode_text profile in
      let parsed =
        (Parses-profile_bytes profile buf fits v).run 0 (length buf) 1 (profile, 0 + length buf)
          (Holds-self buf) (omega arith)
          (rw (ltb-false (0 + length buf) (length buf) (omega arith)) refl) in
      let rounds : length buf + 1 ≡ suc (length buf) = omega arith in
      rw (decode_pprof, rw rounds at parsed)
