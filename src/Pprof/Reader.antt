-- ===== src/Pprof/Reader.antt =====
-- `Reader` of packages/pprof-decoder/src/index.ts: a cursor over a buffer of bytes.
use obs_unified.Common.{
  ℕ, zero, suc, ◌+◌, ◌*◌, ◌/◌, ◌%◌, ◌^◌, List, [], ◌∷◌, none, some, get_elem?, length, take, drop,
  ltb, ◌==◌, if◌then◌else◌,
}
use obs_unified.Pprof.Double.{add}

-- What the decoder throws. `out_of_fuel` is the model's own: a loop was given too few rounds.
pub data Error : Type 0 where
  varint_end_of_buffer varint_too_long bytes_out_of_range out_of_fuel : Error
  unsupported_wire_type : ℕ → Error

pub data Result (A : Type 0) : Type 0 where
  ok : A → Result A
  err : Error → Result A

-- A method of `Reader`: `buf` never changes, `pos` is the state. What it throws leaves `decodePprof`
-- with the reader, so an error carries no position.
abbrev pub Read : Type 0 → Type 0
Read A = List ℕ → ℕ → Result (A × ℕ)

module _ {A : Type 0} where
  abbrev pub pure : A → Read A
  pure a buf pos = ok (a, pos)

  abbrev pub throw : Error → Read A
  throw e buf pos = err e

module _ {A B : Type 0} where
  abbrev pub resume : Result (A × ℕ) → (A → Read B) → List ℕ → Result (B × ℕ)
  resume (ok (a, pos)) f buf = f a buf pos
  resume (err e) f buf = err e

  infixl 5 ◌>>=◌ ◌>>◌
  abbrev pub ◌>>=◌ : Read A → (A → Read B) → Read B
  ◌>>=◌ m f buf pos = resume (m buf pos) f buf

  abbrev pub ◌>>◌ : Read A → Read B → Read B
  m >> n = m >>= λ _. n

-- what is returned, or thrown, once the reader is dropped
abbrev pub result_of : {A : Type 0} → Result (A × ℕ) → Result A
result_of (ok (a, pos)) = ok a
result_of (err e) = err e

abbrev pub wire_varint : ℕ
wire_varint = 0

abbrev pub wire_fixed64 : ℕ
wire_fixed64 = 1

abbrev pub wire_length_delimited : ℕ
wire_length_delimited = 2

abbrev pub wire_fixed32 : ℕ
wire_fixed32 = 5

-- The loop of `readVarint`. Its bound on `shift` ends it after ten bytes.
unfoldable pub varint_loop : ℕ → ℕ → ℕ → Read ℕ
varint_loop zero result shift buf pos = err out_of_fuel
varint_loop (suc fuel) result shift buf pos = elim (get_elem? buf pos) [
  | none ↦ err varint_end_of_buffer
  | some byte ↦
      let result' = add result (byte % 128 * 2 ^ shift) in
      let rest = varint_loop fuel result' (shift + 7) buf (pos + 1) in
      if byte / 128 % 2 == 0
      then ok (result', pos + 1)
      else if ltb 63 (shift + 7)
      then err varint_too_long
      else rest
]

unfoldable pub read_varint : Read ℕ
read_varint = varint_loop 10 0 0

unfoldable pub read_bytes : ℕ → Read (List ℕ)
read_bytes len buf pos =
    if ltb (length buf) (add pos len)
    then err bytes_out_of_range
    else ok (take len (drop pos buf), add pos len)

-- `this.pos += len`, with no check
unfoldable pub advance : ℕ → Read (Unit {0})
advance len buf pos = ok (tt, add pos len)

unfoldable pub skip_field : ℕ → Read (Unit {0})
unfolding advance
skip_field wire_type =
    if wire_type == wire_varint
    then (do _ ← read_varint; pure tt)
    else if wire_type == wire_fixed64
    then advance 8
    else if wire_type == wire_length_delimited
    then (do len ← read_varint; advance len)
    else if wire_type == wire_fixed32
    then advance 4
    else throw (unsupported_wire_type wire_type)

-- A message is a `while (r.position < end)` loop over fields: the tag is read, and `on_field` is the
-- body behind it, from the field's number `tag >>> 3` (of the tag as a 32-bit integer) and its wire
-- type `tag & 7`. The message is what the loop builds up. A round reads a byte at least, so one more
-- round than there are bytes is enough fuel.
module _ {M : Type 0} (on_field : M → ℕ → ℕ → Read M) where
  unfoldable pub read_field : M → Read M
  read_field m = do tag ← read_varint; on_field m (tag % 2 ^ 32 / 8) (tag % 8)

  unfoldable pub fields_loop : ℕ → ℕ → M → Read M
  fields_loop zero end m buf pos = err out_of_fuel
  fields_loop (suc fuel) end m buf pos =
      let rest = resume (read_field m buf pos) (fields_loop fuel end) buf in
      if ltb pos end then rest else ok (m, pos)

  -- the loop over the next `len` bytes, from the position where it starts
  unfoldable pub read_message : ℕ → M → Read M
  unfolding fields_loop read_field
  read_message len m buf pos = fields_loop (suc (length buf)) (add pos len) m buf pos

-- `decodePackedVarints`
unfoldable pub packed_loop : ℕ → ℕ → Read (List ℕ)
packed_loop zero end buf pos = err out_of_fuel
packed_loop (suc fuel) end buf pos =
    let rest = (do v ← read_varint; vs ← packed_loop fuel end; pure (v ∷ vs)) buf pos in
    if ltb pos end then rest else ok ([], pos)

unfoldable pub decode_packed_varints : ℕ → Read (List ℕ)
unfolding packed_loop
decode_packed_varints len buf pos = packed_loop (suc (length buf)) (add pos len) buf pos
