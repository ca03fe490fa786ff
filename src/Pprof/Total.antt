-- ===== src/Pprof/Total.antt =====
-- `decodePprof` of packages/pprof-decoder/src/index.ts on every input, well formed or not.
use obs_unified.Common.{ℕ, suc, ◌<◌, ◌≢◌, List, length, arith}
use obs_unified.Pprof.Double.{precise}
use obs_unified.Pprof.Reader.{Result, ok, err, result_of, out_of_fuel}
use obs_unified.Pprof.Decode.{
  Label, Sample, Line, Location, Function, ValueType, Profile, label_field, decode_label,
  empty_label, sample_field, decode_sample, empty_sample, line_field, decode_line, empty_line,
  location_field, decode_location, empty_location, function_field, decode_function, empty_function,
  value_type_field, decode_value_type, empty_value_type, read_string, profile_field, decode_pprof,
  empty_profile,
}
use obs_unified.Pprof.Safe.{
  Safe, IsSafe, safe_rules, IsSafe-bind, IsSafe-pure, IsSafe-skip, IsSafe-decode_packed_varints,
  IsSafe-read_bytes, IsSafe-read_message, fields_loop-Safe,
}

module _ (buf : List ℕ) (fits : length buf < precise) where
  ruleset field_rules = (safe_rules, IsSafe-skip, IsSafe-decode_packed_varints)

  IsSafe-label_field : (m : Label) (n w : ℕ) → IsSafe buf (label_field m n w)
  unfolding label_field
  IsSafe-label_field m n w = search field_rules depth 12

  IsSafe-decode_label : (len : ℕ) → IsSafe buf (decode_label len)
  unfolding decode_label
  IsSafe-decode_label len =
      IsSafe-read_message buf label_field IsSafe-label_field fits len empty_label

  IsSafe-sample_field : (m : Sample) (n w : ℕ) → IsSafe buf (sample_field m n w)
  unfolding sample_field
  IsSafe-sample_field m n w = search (field_rules, IsSafe-decode_label) depth 16

  IsSafe-decode_sample : (len : ℕ) → IsSafe buf (decode_sample len)
  unfolding decode_sample
  IsSafe-decode_sample len =
      IsSafe-read_message buf sample_field IsSafe-sample_field fits len empty_sample

  IsSafe-line_field : (m : Line) (n w : ℕ) → IsSafe buf (line_field m n w)
  unfolding line_field
  IsSafe-line_field m n w = search field_rules depth 12

  IsSafe-decode_line : (len : ℕ) → IsSafe buf (decode_line len)
  unfolding decode_line
  IsSafe-decode_line len = IsSafe-read_message buf line_field IsSafe-line_field fits len empty_line

  IsSafe-location_field : (m : Location) (n w : ℕ) → IsSafe buf (location_field m n w)
  unfolding location_field
  IsSafe-location_field m n w = search (field_rules, IsSafe-decode_line) depth 16

  IsSafe-decode_location : (len : ℕ) → IsSafe buf (decode_location len)
  unfolding decode_location
  IsSafe-decode_location len =
      IsSafe-read_message buf location_field IsSafe-location_field fits len empty_location

  IsSafe-function_field : (m : Function) (n w : ℕ) → IsSafe buf (function_field m n w)
  unfolding function_field
  IsSafe-function_field m n w = search field_rules depth 12

  IsSafe-decode_function : (len : ℕ) → IsSafe buf (decode_function len)
  unfolding decode_function
  IsSafe-decode_function len =
      IsSafe-read_message buf function_field IsSafe-function_field fits len empty_function

  IsSafe-value_type_field : (m : ValueType) (n w : ℕ) → IsSafe buf (value_type_field m n w)
  unfolding value_type_field
  IsSafe-value_type_field m n w = search field_rules depth 12

  IsSafe-decode_value_type : (len : ℕ) → IsSafe buf (decode_value_type len)
  unfolding decode_value_type
  IsSafe-decode_value_type len =
      IsSafe-read_message buf value_type_field IsSafe-value_type_field fits len empty_value_type

  module _ {Text : Type 0} (decode_text : List ℕ → Text) where
    IsSafe-read_string : (len : ℕ) → IsSafe buf (read_string decode_text len)
    unfolding read_string
    IsSafe-read_string len =
        IsSafe-bind buf _ _ (IsSafe-read_bytes buf len)
          (λ bytes. IsSafe-pure buf (decode_text bytes))

    IsSafe-profile_field :
        (m : Profile Text) (n w : ℕ) → IsSafe buf (profile_field decode_text m n w)
    unfolding profile_field
    IsSafe-profile_field m n w =
        search
          (
            field_rules, IsSafe-decode_value_type, IsSafe-decode_sample, IsSafe-decode_location,
            IsSafe-decode_function, IsSafe-read_string,
          )
          depth 20

result_of-ne : {A : Type 0} (r : Result (A × ℕ)) → Safe 0 r → result_of r ≢ err out_of_fuel
result_of-ne (ok (a, q)) h e = cc
result_of-ne (err e) h e' = h cc

-- The rounds that the loops are given are enough: on every input of fewer than 2 ^ 53 bytes the decoder
-- returns a profile or throws one of its own errors.
pub decode_pprof-ne-out_of_fuel :
    {Text : Type 0} (decode_text : List ℕ → Text) (raw : List ℕ)
    → length raw < precise
    → decode_pprof decode_text raw ≢ err out_of_fuel
unfolding decode_pprof
decode_pprof-ne-out_of_fuel decode_text raw fits = result_of-ne _ (
    fields_loop-Safe raw (profile_field decode_text) (IsSafe-profile_field raw fits decode_text)
      fits (suc (length raw)) (length raw) 0 empty_profile (omega arith))
