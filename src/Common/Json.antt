-- ===== src/Common/Json.antt =====
-- JSON values, and packages/obs-collector/src/lib/json.ts. A number is the text that `JSON.stringify`
-- writes for it; the entries of an object stand in their order.
use mathlib.Core.Bool.{Bool}
use mathlib.Core.Option.{Option, none, some}
use obs_unified.Common.Tests.{if◌then◌else◌}
use obs_unified.Common.Text.{Text, text_eq}

mutual
  pub data Json : Type 0 where
    null : Json
    boolean : Bool → Json
    number : Text → Json
    string : Text → Json
    array : Items → Json
    object : Fields → Json

  pub data Items : Type 0 where
    nil : Items
    item : Json → Items → Items

  pub data Fields : Type 0 where
    end : Fields
    field : Text → Json → Fields → Fields

-- `{ ...fields, [key]: value }`: a key that is there keeps its place.
unfoldable pub set_field : Text → Json → Fields → Fields
set_field key value end = field key value end
set_field key value (field other old fields) =
    if text_eq other key
    then field other value fields
    else field other old (set_field key value fields)

-- `parse` is `JSON.parse`, with `none` where it throws.
unfoldable pub parse_json_value : (Text → Option Json) → Text → Json
parse_json_value parse value = elim (parse value) [ none ↦ null | some json ↦ json ]

-- `value[key]`, `undefined` where the key is not there
unfoldable pub get_field : Text → Fields → Option Json
get_field key end = none
get_field key (field other value fields) =
    if text_eq other key then some value else get_field key fields
