-- ===== src/Pprof/Tests.antt =====
-- The theorems about packages/pprof-decoder/src/index.ts at concrete inputs, and runs of the code.
use obs_unified.Common.{
  ℕ, ◌+◌, ◌^◌, ◌<◌, ◌≡◌, ◌≢◌, refl, List, [], ◌∷◌, ◌++◌, length, replicate, Option, none, some,
  arith, true,
}
use obs_unified.Pprof.Double.{precise, to_double, add}
use obs_unified.Pprof.Reader.{
  ok, err, out_of_fuel, varint_end_of_buffer, varint_too_long, unsupported_wire_type, varint_loop,
  read_varint, read_bytes, advance, skip_field, read_field, fields_loop, read_message, packed_loop,
  decode_packed_varints,
}
use obs_unified.Pprof.Decode.{
  Profile, empty_profile, label_field, decode_label, sample_field, decode_sample, line_field,
  decode_line, location_field, decode_location, function_field, decode_function, value_type_field,
  decode_value_type, skip, map_set, read_string, profile_field, decode_pprof, decode_pprof_blob,
  is_gzip,
}
use obs_unified.Pprof.Encode.{
  ByteBuilder, builder_of_capacity, new_builder, grow, push, push_all, to_array, varint_bytes,
  write_varint, write_tag, write_length_delimited, write_packed_varints, write_nonzero,
  encode_label, encode_sample, encode_value_type, encode_line, encode_location, encode_function,
  write_string, profile_bytes, encode_pprof,
}
use obs_unified.Pprof.Varint.{read_varint-write_varint}
use obs_unified.Pprof.Builder
use obs_unified.Pprof.Builder.{to_array-push_all}
use obs_unified.Pprof.RoundTrip.{ProfileFits}
use obs_unified.Pprof.Bytes.{encode_pprof-profile_bytes}
use obs_unified.Pprof.Blob.{decode_pprof-encode_pprof, decode_pprof_blob-encode_pprof}
use obs_unified.Pprof.Total.{decode_pprof-ne-out_of_fuel}

-- Texts are their bytes here.
abbrev text : List ℕ → List ℕ
text s = s

abbrev profile : Profile (List ℕ)
profile = record {
  sample_types = record { type_idx = 1; unit_idx = 2 } ∷ [];
  samples =
      record {
        location_ids = 7 ∷ 300 ∷ [];
        values = 12345 ∷ [];
        labels = record { key_idx = 3; str_idx = 4; num = 0 } ∷ [];
      }
      ∷ [];
  locations =
      (
        7,
        record {
          id = 7;
          lines = record { function_id = 9; line = 40 } ∷ [];
          function_ids = 9 ∷ [];
        },
      )
      ∷ (300, record { id = 300; lines = []; function_ids = [] })
      ∷ [];
  functions = (9, record { id = 9; name_idx = 1; filename_idx = 2 }) ∷ [];
  string_table = [] ∷ (b'c' ∷ b'p' ∷ b'u' ∷ []) ∷ [];
}

profile-ProfileFits : ProfileFits text text profile
profile-ProfileFits = record {
  sample_types = (record { type_idx = omega arith; unit_idx = omega arith }, tt);
  samples = (
    record {
      location_ids = omega arith;
      values = omega arith;
      labels = (record { key_idx = omega arith; str_idx = omega arith; num = omega arith }, tt);
    },
    tt,
  );
  locations = (
    (
      refl,
      record {
        id = omega arith;
        lines = (record { function_id = omega arith; line = omega arith }, tt);
        function_ids = refl;
      },
    ),
    ((refl, record { id = omega arith; lines = tt; function_ids = refl }), tt),
  );
  location_keys = (refl, (refl, tt));
  functions =
      ((refl, record { id = omega arith; name_idx = omega arith; filename_idx = omega arith }), tt);
  function_keys = (refl, tt);
  texts = (refl, (refl, tt));
  text_bytes = (tt, (omega arith, tt));
}

program : Unit {0}
unfolding to_double add varint_loop read_varint read_bytes advance skip_field read_field fields_loop
    read_message packed_loop decode_packed_varints label_field decode_label sample_field
    decode_sample line_field decode_line location_field decode_location function_field
    decode_function value_type_field decode_value_type skip map_set read_string profile_field
    decode_pprof decode_pprof_blob is_gzip new_builder grow push push_all to_array varint_bytes
    write_varint write_tag write_length_delimited write_packed_varints write_nonzero encode_label
    encode_sample encode_value_type encode_line encode_location encode_function write_string
    profile_bytes encode_pprof
program = tt

decode_after_encode : decode_pprof text (encode_pprof text profile) ≡ ok profile
unfolding program
decode_after_encode = refl

-- A varint that is cut short, and one of eleven bytes
malformed :
    (decode_pprof text (0x08 ∷ 0x80 ∷ []) ≡ err varint_end_of_buffer)
    × (decode_pprof text (replicate 11 0xff) ≡ err varint_too_long)
    × (decode_pprof text (0x0b ∷ []) ≡ err (unsupported_wire_type 3))
unfolding program
malformed = (refl, refl, refl)

-- Beyond 2 ^ 53 a varint is read as the nearest double.
rounded : to_double (2 ^ 53 + 1) ≡ 2 ^ 53
unfolding program
rounded = refl

-- A field of known length that ends behind the buffer is skipped without an error.
truncated_mapping : decode_pprof text (0x1a ∷ 0x05 ∷ []) ≡ ok empty_profile
unfolding program
truncated_mapping = refl

profile_size : length (encode_pprof text profile) < precise
unfolding program
profile_size = omega arith

decode_pprof-encode_pprof_example : decode_pprof text (encode_pprof text profile) ≡ ok profile
decode_pprof-encode_pprof_example =
    decode_pprof-encode_pprof text text profile profile-ProfileFits profile_size

-- A toy compression: the magic bytes before the content
abbrev gzip : List ℕ → List ℕ
gzip bytes = 0x1f ∷ 0x8b ∷ bytes

abbrev gunzip : List ℕ → Option (List ℕ)
gunzip (a ∷ b ∷ bytes) = some bytes
gunzip _ = none

gzip-is_gzip : (bytes : List ℕ) → is_gzip (gzip bytes) ≡ true
unfolding is_gzip
gzip-is_gzip bytes = ground arith

decode_pprof_blob-encode_pprof_example :
    (decode_pprof_blob text gunzip (encode_pprof text profile) ≡ some (ok profile))
    × (decode_pprof_blob text gunzip (gzip (encode_pprof text profile)) ≡ some (ok profile))
decode_pprof_blob-encode_pprof_example =
    decode_pprof_blob-encode_pprof text text profile profile-ProfileFits profile_size gunzip gzip
      gzip-is_gzip (λ bytes. refl)

decode_pprof-ne-out_of_fuel_example :
    decode_pprof text (0x12 ∷ 0x7f ∷ 0x0a ∷ 0x01 ∷ []) ≢ err out_of_fuel
decode_pprof-ne-out_of_fuel_example =
    decode_pprof-ne-out_of_fuel text (0x12 ∷ 0x7f ∷ 0x0a ∷ 0x01 ∷ []) (omega arith)

-- A builder that is full grows at the next byte.
abbrev small_builder : ByteBuilder
small_builder = builder_of_capacity 2

to_array-push_all_example :
    Builder.IsValid (push_all small_builder (1 ∷ 2 ∷ 300 ∷ []))
    × (to_array (push_all small_builder (1 ∷ 2 ∷ 300 ∷ []))
        ≡ to_array small_builder ++ 1 ∷ 2 ∷ 44 ∷ [])
to_array-push_all_example =
    to_array-push_all (1 ∷ 2 ∷ 300 ∷ []) small_builder
      (record { capacity = omega arith; room = omega arith })

read_varint-write_varint_example :
    read_varint (172 ∷ 2 ∷ []) 0 ≡ ok (300, 0 + length (write_varint 300))
unfolding program
read_varint-write_varint_example =
    read_varint-write_varint 300 (172 ∷ 2 ∷ []) 0 (omega arith) (refl, (refl, omega arith))

encode_pprof-profile_bytes_example : encode_pprof text profile ≡ profile_bytes text profile
encode_pprof-profile_bytes_example = encode_pprof-profile_bytes text profile (tt, (omega arith, tt))
