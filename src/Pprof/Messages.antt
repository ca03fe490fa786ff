-- ===== src/Pprof/Messages.antt =====
-- Each message of a pprof profile through encoder and decoder, in packages/pprof-decoder/src/index.ts.
use mathlib.Core.List.{map-append}
use obs_unified.Common.{
  ℕ, zero, suc, ◌+◌, ◌<◌, ◌≡◌, refl, ap, List, [], ◌∷◌, ◌++◌, map, length, length-append, flat_map,
  All, arith, lt→ltb, ltb-false,
}
use obs_unified.Pprof.Double.{precise, add_exact}
use obs_unified.Pprof.Reader.{
  Read, wire_length_delimited, ok, pure, ◌>>=◌, read_varint, packed_loop, decode_packed_varints,
}
use obs_unified.Pprof.Decode.{
  Label, Sample, Line, Location, Function, ValueType, label_field, decode_label, empty_label,
  sample_field, decode_sample, empty_sample, line_field, decode_line, empty_line, location_field,
  decode_location, empty_location, empty_function, empty_value_type, function_field,
  decode_function, value_type_field, decode_value_type,
}
use obs_unified.Pprof.Encode.{
  write_varint, write_packed_varints, write_length_delimited, encode_label, encode_sample,
  encode_line, encode_location, encode_function, encode_value_type,
}
use obs_unified.Pprof.Varint.{
  Holds, Holds-le, Holds-append, read_varint-write_varint, write_varint_nonempty,
}
use obs_unified.Pprof.Fields.{
  Parses, Parses-nil, Parses-append, Parses-nonzero, Parses-delimited, Parses-flat_map,
  read_message-Parses,
}

abbrev pub IsSmall : ℕ → Type 0
IsSmall v = v < precise

pub record LabelFits (label : Label) : Type 0 where
  pub key_idx : IsSmall label.key_idx
  pub str_idx : IsSmall label.str_idx
  pub num : IsSmall label.num

pub record SampleFits (sample : Sample) : Type 0 where
  pub location_ids : All IsSmall sample.location_ids
  pub values : All IsSmall sample.values
  pub labels : All LabelFits sample.labels

pub record LineFits (l : Line) : Type 0 where
  pub function_id : IsSmall l.function_id
  pub line : IsSmall l.line

-- The decoder keeps the functions of the lines beside the lines.
pub record LocationFits (loc : Location) : Type 0 where
  pub id : IsSmall loc.id
  pub lines : All LineFits loc.lines
  pub function_ids : loc.function_ids ≡ map (λ l. l.function_id) loc.lines

pub record FunctionFits (fn : Function) : Type 0 where
  pub id : IsSmall fn.id
  pub name_idx : IsSmall fn.name_idx
  pub filename_idx : IsSmall fn.filename_idx

pub record ValueTypeFits (vt : ValueType) : Type 0 where
  pub type_idx : IsSmall vt.type_idx
  pub unit_idx : IsSmall vt.unit_idx

pub All-middle {ℓ} :
    {A : Type 0} (P : A → Type ℓ) (xs : List A) (a : A) (ys : List A) → All P (xs ++ a ∷ ys) → P a
All-middle P [] a ys h = h.0
All-middle P (x ∷ xs) a ys h = All-middle P xs a ys h.1

module _ (buf : List ℕ) (fits : length buf < precise) where
  packed_loop-flat_map :
      (vs : List ℕ) (fuel end p : ℕ)
      → All IsSmall vs
      → length (flat_map write_varint vs) < fuel
      → Holds buf p (flat_map write_varint vs)
      → end ≡ p + length (flat_map write_varint vs)
      → packed_loop fuel end buf p ≡ ok (vs, end)
  unfolding packed_loop
  packed_loop-flat_map vs zero end p small f h e = absurd (omega arith)
  packed_loop-flat_map [] (suc fuel) end p small f h e =
      rw (ltb-false p end (omega arith)) (ap (λ q. ok ([], q)) (omega arith))
  packed_loop-flat_map (v ∷ vs) (suc fuel) end p small f h e =
      let (hv, hvs) = Holds-append buf p (write_varint v) (flat_map write_varint vs) h in
      let pos = write_varint_nonempty v in
      let len = length-append (write_varint v) (flat_map write_varint vs) in
      rw (
        lt→ltb p end (omega (arith, len, pos)),
        read_varint-write_varint v buf p small.0 hv,
        packed_loop-flat_map vs fuel end (p + length (write_varint v)) small.1
            (omega (arith, len, pos)) hvs (omega (arith, len)),
      )

  decode_packed_varints-flat_map :
      (vs : List ℕ) (p : ℕ)
      → All IsSmall vs
      → Holds buf p (flat_map write_varint vs)
      → decode_packed_varints (length (flat_map write_varint vs)) buf p
        ≡ ok (vs, p + length (flat_map write_varint vs))
  unfolding decode_packed_varints
  decode_packed_varints-flat_map vs p small h =
      let le = Holds-le buf p (flat_map write_varint vs) h in
      rw (add_exact p (length (flat_map write_varint vs)) (omega arith))
        (packed_loop-flat_map vs (suc (length buf)) _ p small (omega arith) h refl)

  pub decode_label-encode_label :
      (label : Label) (p : ℕ)
      → LabelFits label
      → Holds buf p (encode_label label)
      → decode_label (length (encode_label label)) buf p
        ≡ ok (label, p + length (encode_label label))
  unfolding decode_label encode_label
  decode_label-encode_label label p small h =
      read_message-Parses label_field buf fits (encode_label label) empty_label label p
        (Parses-append label_field buf
          (Parses-nonzero label_field buf fits 1 label.key_idx empty_label
            (λ v. record empty_label { key_idx = v }) (omega arith) small.key_idx (λ q. refl) refl)
          (Parses-append label_field buf
            (Parses-nonzero label_field buf fits 2 label.str_idx _
              (λ v. record empty_label { key_idx = label.key_idx; str_idx = v }) (omega arith)
              small.str_idx (λ q. refl) refl)
            (Parses-nonzero label_field buf fits 3 label.num _ (λ v. record label { num = v })
              (omega arith) small.num (λ q. refl) refl)))
        h

  decode_line-encode_line :
      (l : Line) (p : ℕ)
      → LineFits l
      → Holds buf p (encode_line l)
      → decode_line (length (encode_line l)) buf p ≡ ok (l, p + length (encode_line l))
  unfolding decode_line encode_line
  decode_line-encode_line l p small h =
      read_message-Parses line_field buf fits (encode_line l) empty_line l p
        (Parses-append line_field buf
          (Parses-nonzero line_field buf fits 1 l.function_id empty_line
            (λ v. record empty_line { function_id = v }) (omega arith) small.function_id (λ q. refl)
            refl)
          (Parses-nonzero line_field buf fits 2 l.line _ (λ v. record l { line = v }) (omega arith)
            small.line (λ q. refl) refl))
        h

  pub decode_function-encode_function :
      (fn : Function) (p : ℕ)
      → FunctionFits fn
      → Holds buf p (encode_function fn)
      → decode_function (length (encode_function fn)) buf p
        ≡ ok (fn, p + length (encode_function fn))
  unfolding decode_function encode_function
  decode_function-encode_function fn p small h =
      read_message-Parses function_field buf fits (encode_function fn) empty_function fn p
        (Parses-append function_field buf
          (Parses-nonzero function_field buf fits 1 fn.id empty_function
            (λ v. record empty_function { id = v }) (omega arith) small.id (λ q. refl) refl)
          (Parses-append function_field buf
            (Parses-nonzero function_field buf fits 2 fn.name_idx _
              (λ v. record empty_function { id = fn.id; name_idx = v }) (omega arith) small.name_idx
              (λ q. refl) refl)
            (Parses-nonzero function_field buf fits 4 fn.filename_idx _
              (λ v. record fn { filename_idx = v }) (omega arith) small.filename_idx (λ q. refl)
              refl)))
        h

  pub decode_value_type-encode_value_type :
      (vt : ValueType) (p : ℕ)
      → ValueTypeFits vt
      → Holds buf p (encode_value_type vt)
      → decode_value_type (length (encode_value_type vt)) buf p
        ≡ ok (vt, p + length (encode_value_type vt))
  unfolding decode_value_type encode_value_type
  decode_value_type-encode_value_type vt p small h =
      read_message-Parses value_type_field buf fits (encode_value_type vt) empty_value_type vt p
        (Parses-append value_type_field buf
          (Parses-nonzero value_type_field buf fits 1 vt.type_idx empty_value_type
            (λ v. record empty_value_type { type_idx = v }) (omega arith) small.type_idx (λ q. refl)
            refl)
          (Parses-nonzero value_type_field buf fits 2 vt.unit_idx _
            (λ v. record vt { unit_idx = v }) (omega arith) small.unit_idx (λ q. refl) refl))
        h

  -- A packed field is left out when it is empty.
  Parses-packed :
      {M : Type 0} (on_field : M → ℕ → ℕ → Read M) (n : ℕ) (vs : List ℕ) (m : M) (put : List ℕ → M)
      → n < 16
      → All IsSmall vs
      → ((p : ℕ)
          → on_field m n wire_length_delimited buf p
            ≡ (do len ← read_varint; xs ← decode_packed_varints len; pure (put xs)) buf p)
      → put [] ≡ m
      → Parses on_field buf (write_packed_varints n vs) m (put vs)
  unfolding write_packed_varints
  Parses-packed on_field n [] m put hn small branch empty = rw empty (Parses-nil on_field buf m)
  Parses-packed on_field n (v ∷ vs) m put hn small branch empty =
      Parses-delimited on_field buf fits n (flat_map write_varint (v ∷ vs)) m (put (v ∷ vs)) _ hn
        branch λ p h. rw (decode_packed_varints-flat_map (v ∷ vs) p small h)

  sample_labels :
      (sample : Sample)
      → All LabelFits sample.labels
      → Parses sample_field buf
          (flat_map (λ label. write_length_delimited 3 (encode_label label)) sample.labels)
          (record sample { labels = [] })
          sample
  unfolding sample_field
  sample_labels sample small =
      Parses-flat_map sample_field buf _ (λ ls. record sample { labels = ls }) sample.labels
        λ done label rest whole.
          Parses-delimited sample_field buf fits 3 (encode_label label) _ _ _ (omega arith)
            (λ q. refl)
            λ p h. rw (
              decode_label-encode_label label p
                (All-middle LabelFits done label rest (rw whole small)) h)

  pub decode_sample-encode_sample :
      (sample : Sample) (p : ℕ)
      → SampleFits sample
      → Holds buf p (encode_sample sample)
      → decode_sample (length (encode_sample sample)) buf p
        ≡ ok (sample, p + length (encode_sample sample))
  unfolding decode_sample encode_sample
  decode_sample-encode_sample sample p small h =
      read_message-Parses sample_field buf fits (encode_sample sample) empty_sample sample p
        (Parses-append sample_field buf
          (Parses-packed sample_field 1 sample.location_ids empty_sample
            (λ vs. record empty_sample { location_ids = vs }) (omega arith) small.location_ids
            (λ q. refl) refl)
          (Parses-append sample_field buf
            (Parses-packed sample_field 2 sample.values _
              (λ vs. record sample { values = vs; labels = [] }) (omega arith) small.values
              (λ q. refl) refl)
            (sample_labels sample small.labels)))
        h

  location_lines :
      (loc : Location)
      → LocationFits loc
      → Parses location_field buf
          (flat_map (λ l. write_length_delimited 4 (encode_line l)) loc.lines)
          (record empty_location { id = loc.id })
          loc
  unfolding location_field
  location_lines loc small =
      let build : List Line → Location =
        λ ls. record { id = loc.id; lines = ls; function_ids = map (λ l. l.function_id) ls } in
      let e : build loc.lines ≡ loc = cc (small.function_ids) in
      rw e at (
        Parses-flat_map location_field buf _ build loc.lines λ done l rest whole.
          Parses-delimited location_field buf fits 4 (encode_line l) _ _ _ (omega arith) (λ q. refl)
            λ p h. rw (
              decode_line-encode_line l p (All-middle LineFits done l rest (rw whole small.lines))
                  h,
              map-append,
            ))

  pub decode_location-encode_location :
      (loc : Location) (p : ℕ)
      → LocationFits loc
      → Holds buf p (encode_location loc)
      → decode_location (length (encode_location loc)) buf p
        ≡ ok (loc, p + length (encode_location loc))
  unfolding decode_location encode_location
  decode_location-encode_location loc p small h =
      read_message-Parses location_field buf fits (encode_location loc) empty_location loc p
        (Parses-append location_field buf
          (Parses-nonzero location_field buf fits 1 loc.id empty_location
            (λ v. record empty_location { id = v }) (omega arith) small.id (λ q. refl) refl)
          (location_lines loc small))
        h
