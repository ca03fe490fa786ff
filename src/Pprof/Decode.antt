-- ===== src/Pprof/Decode.antt =====
-- The messages of a pprof profile and their decoders, of packages/pprof-decoder/src/index.ts.
use mathlib.Core.Option
use obs_unified.Common.{
  ℕ, suc, List, [], ◌∷◌, ◌++◌, Bool, false, ◌&&◌, Option, none, some, length, get_elem?, leb, ◌==◌,
  if◌then◌else◌,
}
use obs_unified.Pprof.Reader.{
  Read, Result, result_of, pure, ◌>>=◌, read_varint, read_bytes, skip_field, read_message,
  fields_loop, decode_packed_varints, wire_varint, wire_length_delimited,
}

pub record Label : Type 0 where
  pub key_idx : ℕ
  pub str_idx : ℕ
  pub num : ℕ

pub record Sample : Type 0 where
  pub location_ids : List ℕ
  pub values : List ℕ
  pub labels : List Label

pub record Line : Type 0 where
  pub function_id : ℕ
  pub line : ℕ

pub record Location : Type 0 where
  pub id : ℕ
  pub lines : List Line
  pub function_ids : List ℕ

pub record Function : Type 0 where
  pub id : ℕ
  pub name_idx : ℕ
  pub filename_idx : ℕ

pub record ValueType : Type 0 where
  pub type_idx : ℕ
  pub unit_idx : ℕ

-- A `Map` is its entries in the order of insertion.
pub record Profile (Text : Type 0) : Type 0 where
  pub sample_types : List ValueType
  pub samples : List Sample
  pub locations : List (ℕ × Location)
  pub functions : List (ℕ × Function)
  pub string_table : List Text

-- `map.set(key, value)`: a key that is there keeps its place.
unfoldable pub map_set : {V : Type 0} → ℕ → V → List (ℕ × V) → List (ℕ × V)
map_set key value [] = (key, value) ∷ []
map_set key value ((other, old) ∷ entries) =
    if other == key then (key, value) ∷ entries else (other, old) ∷ map_set key value entries

abbrev pub is_field : ℕ → ℕ → ℕ → ℕ → Bool
is_field field_num wire n w = field_num == n && wire == w

-- the last branch of every decoder
unfoldable pub skip : {M : Type 0} → M → ℕ → Read M
skip m wire = do _ ← skip_field wire; pure m

abbrev pub empty_label : Label
empty_label = record { key_idx = 0; str_idx = 0; num = 0 }

unfoldable pub label_field : Label → ℕ → ℕ → Read Label
unfolding skip
label_field label field_num wire =
    if is_field field_num wire 1 wire_varint
    then (do v ← read_varint; pure (record label { key_idx = v }))
    else if is_field field_num wire 2 wire_varint
    then (do v ← read_varint; pure (record label { str_idx = v }))
    else if is_field field_num wire 3 wire_varint
    then (do v ← read_varint; pure (record label { num = v }))
    else skip label wire

unfoldable pub decode_label : ℕ → Read Label
unfolding label_field read_message
decode_label len = read_message label_field len empty_label

abbrev pub empty_sample : Sample
empty_sample = record { location_ids = []; values = []; labels = [] }

-- A repeated number may come packed or alone.
unfoldable pub sample_field : Sample → ℕ → ℕ → Read Sample
unfolding skip
sample_field sample field_num wire =
    if field_num == 1
    then (if wire == wire_length_delimited
        then (do
          sub_len ← read_varint
          vs ← decode_packed_varints sub_len
          pure (record sample { location_ids = sample.location_ids ++ vs }))
        else if wire == wire_varint
        then (do
          v ← read_varint
          pure (record sample { location_ids = sample.location_ids ++ v ∷ [] }))
        else skip sample wire)
    else if field_num == 2
    then (if wire == wire_length_delimited
        then (do
          sub_len ← read_varint
          vs ← decode_packed_varints sub_len
          pure (record sample { values = sample.values ++ vs }))
        else if wire == wire_varint
        then (do v ← read_varint; pure (record sample { values = sample.values ++ v ∷ [] }))
        else skip sample wire)
    else if is_field field_num wire 3 wire_length_delimited
    then (do
      sub_len ← read_varint
      label ← decode_label sub_len
      pure (record sample { labels = sample.labels ++ label ∷ [] }))
    else skip sample wire

unfoldable pub decode_sample : ℕ → Read Sample
unfolding sample_field read_message decode_packed_varints decode_label
decode_sample len = read_message sample_field len empty_sample

abbrev pub empty_line : Line
empty_line = record { function_id = 0; line = 0 }

unfoldable pub line_field : Line → ℕ → ℕ → Read Line
unfolding skip
line_field l field_num wire =
    if is_field field_num wire 1 wire_varint
    then (do v ← read_varint; pure (record l { function_id = v }))
    else if is_field field_num wire 2 wire_varint
    then (do v ← read_varint; pure (record l { line = v }))
    else skip l wire

unfoldable pub decode_line : ℕ → Read Line
unfolding line_field read_message
decode_line len = read_message line_field len empty_line

abbrev pub empty_location : Location
empty_location = record { id = 0; lines = []; function_ids = [] }

unfoldable pub location_field : Location → ℕ → ℕ → Read Location
unfolding skip
location_field loc field_num wire =
    if is_field field_num wire 1 wire_varint
    then (do v ← read_varint; pure (record loc { id = v }))
    else if is_field field_num wire 4 wire_length_delimited
    then (do
      sub_len ← read_varint
      l ← decode_line sub_len
      pure (record loc {
        lines = loc.lines ++ l ∷ [];
        function_ids = loc.function_ids ++ l.function_id ∷ [];
      }))
    else skip loc wire

unfoldable pub decode_location : ℕ → Read Location
unfolding location_field read_message decode_line
decode_location len = read_message location_field len empty_location

abbrev pub empty_function : Function
empty_function = record { id = 0; name_idx = 0; filename_idx = 0 }

unfoldable pub function_field : Function → ℕ → ℕ → Read Function
unfolding skip
function_field fn field_num wire =
    if is_field field_num wire 1 wire_varint
    then (do v ← read_varint; pure (record fn { id = v }))
    else if is_field field_num wire 2 wire_varint
    then (do v ← read_varint; pure (record fn { name_idx = v }))
    else if is_field field_num wire 4 wire_varint
    then (do v ← read_varint; pure (record fn { filename_idx = v }))
    else skip fn wire

unfoldable pub decode_function : ℕ → Read Function
unfolding function_field read_message
decode_function len = read_message function_field len empty_function

abbrev pub empty_value_type : ValueType
empty_value_type = record { type_idx = 0; unit_idx = 0 }

unfoldable pub value_type_field : ValueType → ℕ → ℕ → Read ValueType
unfolding skip
value_type_field vt field_num wire =
    if is_field field_num wire 1 wire_varint
    then (do v ← read_varint; pure (record vt { type_idx = v }))
    else if is_field field_num wire 2 wire_varint
    then (do v ← read_varint; pure (record vt { unit_idx = v }))
    else skip vt wire

unfoldable pub decode_value_type : ℕ → Read ValueType
unfolding value_type_field read_message
decode_value_type len = read_message value_type_field len empty_value_type

abbrev pub empty_profile : {Text : Type 0} → Profile Text
empty_profile = record {
  sample_types = [];
  samples = [];
  locations = [];
  functions = [];
  string_table = [];
}

-- `TextDecoder("utf-8").decode`, a function of the platform, is the parameter `decode_text`.
module _ {Text : Type 0} (decode_text : List ℕ → Text) where
  unfoldable pub read_string : ℕ → Read Text
  read_string len = do bytes ← read_bytes len; pure (decode_text bytes)

  unfoldable pub profile_field : Profile Text → ℕ → ℕ → Read (Profile Text)
  unfolding skip read_string
  profile_field profile field_num wire =
      if is_field field_num wire 1 wire_length_delimited
      then (do
        len ← read_varint
        vt ← decode_value_type len
        pure (record profile { sample_types = profile.sample_types ++ vt ∷ [] }))
      else if is_field field_num wire 2 wire_length_delimited
      then (do
        len ← read_varint
        sample ← decode_sample len
        pure (record profile { samples = profile.samples ++ sample ∷ [] }))
      else if is_field field_num wire 4 wire_length_delimited
      then (do
        len ← read_varint
        loc ← decode_location len
        pure (record profile { locations = map_set loc.id loc profile.locations }))
      else if is_field field_num wire 5 wire_length_delimited
      then (do
        len ← read_varint
        fn ← decode_function len
        pure (record profile { functions = map_set fn.id fn profile.functions }))
      else if is_field field_num wire 6 wire_length_delimited
      then (do
        len ← read_varint
        str ← read_string len
        pure (record profile { string_table = profile.string_table ++ str ∷ [] }))
      else skip profile wire

  -- `while (!r.eof)` is the loop whose end is the end of the buffer.
  unfoldable pub decode_pprof : List ℕ → Result (Profile Text)
  unfolding profile_field fields_loop
  decode_pprof raw =
      result_of (fields_loop profile_field (suc (length raw)) (length raw) empty_profile raw 0)

-- The gzip magic bytes are sniffed.
abbrev pub byte_at : List ℕ → ℕ → ℕ → Bool
byte_at buf i b = elim (get_elem? buf i) [ none ↦ false | some c ↦ c == b ]

unfoldable pub is_gzip : List ℕ → Bool
is_gzip buf = leb 2 (length buf) && (byte_at buf 0 0x1f && byte_at buf 1 0x8b)

-- `DecompressionStream("gzip")` of the platform is the parameter `gunzip`: `none` for a stream that
-- it rejects, whose error `decodePprofBlob` passes on.
unfoldable pub decode_pprof_blob :
    {Text : Type 0}
    → (List ℕ → Text)
    → (List ℕ → Option (List ℕ))
    → List ℕ
    → Option (Result (Profile Text))
unfolding is_gzip decode_pprof
decode_pprof_blob decode_text gunzip buf =
    if is_gzip buf
    then Option.map (decode_pprof decode_text) (gunzip buf)
    else some (decode_pprof decode_text buf)
