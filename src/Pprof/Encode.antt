-- ===== src/Pprof/Encode.antt =====
-- The encoders of packages/pprof-decoder/src/index.ts. A writer that is given a `ByteSink` and pushes
-- bytes onto it is the list of the bytes that it pushes; `encode_pprof` pushes them onto the growing
-- array.
use obs_unified.Common.{
  ℕ, zero, suc, ◌+◌, ◌*◌, ◌/◌, ◌%◌, ◌^◌, List, [], ◌∷◌, ◌++◌, length, set, take, replicate,
  flat_map, leb, ◌==◌, if◌then◌else◌,
}
use Prim.Native.Nat.{bit_or}
use obs_unified.Pprof.Reader.{wire_varint, wire_length_delimited}
use obs_unified.Pprof.Decode.{Label, Sample, Line, Location, Function, ValueType, Profile}

-- `ByteBuilder`: `len` bytes of `buf` are in use.
pub record ByteBuilder : Type 0 where
  pub buf : List ℕ
  pub len : ℕ

abbrev pub builder_of_capacity : ℕ → ByteBuilder
builder_of_capacity n = record { buf = replicate n 0; len = 0 }

-- 16 KB initial capacity
unfoldable pub new_builder : ByteBuilder
new_builder = builder_of_capacity (1024 * 16)

-- `Uint8Array.set` of a full buffer into one of twice its length: the old bytes, and zeros
unfoldable pub grow : ByteBuilder → List ℕ
grow b = if leb (length b.buf) b.len then b.buf ++ replicate (length b.buf) 0 else b.buf

-- A number is stored in a `Uint8Array` modulo 256.
unfoldable pub push : ByteBuilder → ℕ → ByteBuilder
unfolding grow
push b byte = record { buf = set (grow b) b.len (byte % 256); len = b.len + 1 }

unfoldable pub push_all : ByteBuilder → List ℕ → ByteBuilder
push_all b [] = b
push_all b (x ∷ xs) = push_all (push b x) xs

unfoldable pub to_array : ByteBuilder → List ℕ
to_array b = take b.len b.buf

-- The `while (value >= 0x80)` loop. A value falls below 128 before its own number of rounds is over.
unfoldable pub varint_bytes : ℕ → ℕ → List ℕ
varint_bytes zero value = value % 128 ∷ []
varint_bytes (suc fuel) value =
    let rest = varint_bytes fuel (value / 128) in
    if leb 0x80 value then bit_or (value % 128) 0x80 ∷ rest else value % 128 ∷ []

unfoldable pub write_varint : ℕ → List ℕ
unfolding varint_bytes
write_varint value = varint_bytes value value

unfoldable pub write_tag : ℕ → ℕ → List ℕ
write_tag field_num wire_type = write_varint (bit_or (field_num * 8 % 2 ^ 32) wire_type)

unfoldable pub write_length_delimited : ℕ → List ℕ → List ℕ
write_length_delimited field_num bytes =
    write_tag field_num wire_length_delimited ++ (write_varint (length bytes) ++ bytes)

unfoldable pub write_packed_varints : ℕ → List ℕ → List ℕ
write_packed_varints field_num [] = []
write_packed_varints field_num (v ∷ vs) =
    write_length_delimited field_num (flat_map write_varint (v ∷ vs))

-- `if (value) { writeTag(…); writeVarint(…) }`
unfoldable pub write_nonzero : ℕ → ℕ → List ℕ
write_nonzero field_num value =
    if value == 0 then [] else write_tag field_num wire_varint ++ write_varint value

unfoldable pub encode_label : Label → List ℕ
encode_label label =
    write_nonzero 1 label.key_idx ++ (write_nonzero 2 label.str_idx ++ write_nonzero 3 label.num)

unfoldable pub encode_sample : Sample → List ℕ
unfolding encode_label
encode_sample sample =
    write_packed_varints 1 sample.location_ids
    ++ (write_packed_varints 2 sample.values
        ++ flat_map (λ label. write_length_delimited 3 (encode_label label)) sample.labels)

unfoldable pub encode_value_type : ValueType → List ℕ
encode_value_type vt = write_nonzero 1 vt.type_idx ++ write_nonzero 2 vt.unit_idx

unfoldable pub encode_line : Line → List ℕ
encode_line l = write_nonzero 1 l.function_id ++ write_nonzero 2 l.line

-- `loc.lines` is an array, so the alternative `functionIds` is never taken.
unfoldable pub encode_location : Location → List ℕ
unfolding encode_line
encode_location loc =
    write_nonzero 1 loc.id ++ flat_map (λ l. write_length_delimited 4 (encode_line l)) loc.lines

unfoldable pub encode_function : Function → List ℕ
encode_function fn =
    write_nonzero 1 fn.id ++ (write_nonzero 2 fn.name_idx ++ write_nonzero 4 fn.filename_idx)

-- `TextEncoder.encode`, a function of the platform, is the parameter `encode_text`.
module _ {Text : Type 0} (encode_text : Text → List ℕ) where
  unfoldable pub write_string : ℕ → Text → List ℕ
  write_string field_num str = write_length_delimited field_num (encode_text str)

  unfoldable pub profile_bytes : Profile Text → List ℕ
  profile_bytes profile =
      flat_map (λ vt. write_length_delimited 1 (encode_value_type vt)) profile.sample_types
      ++ (flat_map (λ sample. write_length_delimited 2 (encode_sample sample)) profile.samples
          ++ (flat_map (λ e. write_length_delimited 4 (encode_location e.1)) profile.locations
              ++ (flat_map (λ e. write_length_delimited 5 (encode_function e.1)) profile.functions
                  ++ flat_map (write_string 6) profile.string_table)))

  unfoldable pub encode_pprof : Profile Text → List ℕ
  encode_pprof profile = to_array (push_all new_builder (profile_bytes profile))
