-- ===== src/Profile/Flame.antt =====
-- The flame graph: `aggregateFlameTree` and `flattenFlameTree` of
-- packages/dashboard/src/components/flame-graph/parse-pprof.ts. Sums are those of doubles
-- (Pprof/Double). The decoder always sets a location's lines, so the fallback to its functions' ids is
-- not reached.
use mathlib.Core.List.{reverse}
use obs_unified.Common.{
  ℕ, suc, Bool, true, false, ◌&&◌, List, [], ◌∷◌, ◌++◌, Option, none, some, or_default, get_elem?,
  flat_map, ltb, ◌==◌, if◌then◌else◌,
}
use obs_unified.Common.Text.{Text, lit, text_eq, truthy}
use obs_unified.Pprof.Double.{add}
use obs_unified.Pprof.Decode.{Label, Sample, Line, Profile}
use obs_unified.Profile.Trace.{trace_id_key_ixs, has_index}

pub record CodeRef : Type 0 where
  pub original_path : Text
  pub relative_path : Option Text
  pub absolute_path : Option Text
  pub line_number : Option ℕ

-- One entry of a stack: the key of its node, and the reference that a new node gets
pub record Frame : Type 0 where
  pub name : Text
  pub code_ref : Option CodeRef

-- A node's `Map` of children: the entries in the order of insertion, each with its own children
pub data Children : Type 0 where
  no_children : Children
  child : Text → ℕ → Option CodeRef → Children → Children → Children

pub record FlameTree : Type 0 where
  pub value : ℕ
  pub children : Children
  pub total : ℕ

pub record AggregateOptions : Type 0 where
  pub trace_id_filter : Option Text
  pub value_index : Option ℕ

-- `map.get(key)`
unfoldable pub map_find : {V : Type 0} → ℕ → List (ℕ × V) → Option V
map_find key [] = none
map_find key ((other, value) ∷ entries) = if other == key then some value else map_find key entries

abbrev pub starts_with_slash : Text → Bool
starts_with_slash [] = false
starts_with_slash (c ∷ s) = c == b'/'

unfoldable pub code_ref_of : Text → ℕ → Option CodeRef
code_ref_of filename line =
    if truthy (some filename)
    then some (record {
      original_path = filename;
      relative_path = if starts_with_slash filename then none else some filename;
      absolute_path = if starts_with_slash filename then some filename else none;
      line_number = if line == 0 then none else some line;
    })
    else none

unfoldable pub frame_of : Profile Text → Line → List Frame
unfolding map_find code_ref_of
frame_of profile l = elim (map_find l.function_id profile.functions) [
  | none ↦ []
  | some fn ↦
      record {
        name = or_default (get_elem? profile.string_table fn.name_idx) (lit "?");
        code_ref =
            code_ref_of (or_default (get_elem? profile.string_table fn.filename_idx) []) l.line;
      }
      ∷ []
]

unfoldable pub frames_at : Profile Text → ℕ → List Frame
unfolding map_find frame_of
frames_at profile location_id = elim (map_find location_id profile.locations) [
  | none ↦ []
  | some loc ↦ flat_map (frame_of profile) (reverse loc.lines)
]

-- The stack of a sample, root first
unfoldable pub frames_of : Profile Text → Sample → List Frame
unfolding frames_at
frames_of profile sample = flat_map (frames_at profile) (reverse sample.location_ids)

-- The walk of `cursor` down from a node with these children
unfoldable pub add_stack : List Frame → ℕ → Children → Children
unfolding text_eq add
add_stack [] value kids = kids
add_stack (f ∷ stack) value no_children =
    child f.name (add 0 value) f.code_ref (add_stack stack value no_children) no_children
add_stack (f ∷ stack) value (child name old ref kids rest) = elim (text_eq name f.name) [
  | true ↦ child name (add old value) ref (add_stack stack value kids) rest
  | false ↦ child name old ref kids (add_stack (f ∷ stack) value rest)
]

unfoldable pub has_label : List ℕ → List Text → Text → List Label → Bool
unfolding has_index text_eq
has_label keys table trace_id [] = false
has_label keys table trace_id (label ∷ labels) =
    let rest = has_label keys table trace_id labels in
    if has_index label.key_idx keys
      && elim (get_elem? table label.str_idx) [ none ↦ false | some s ↦ text_eq s trace_id ]
    then true
    else rest

-- What the sample adds; 0 for one that is skipped
unfoldable pub sample_value : Profile Text → AggregateOptions → Sample → ℕ
unfolding has_label trace_id_key_ixs
sample_value profile opts sample =
    let value = or_default (get_elem? sample.values (or_default opts.value_index 0)) 0 in
    elim opts.trace_id_filter [
      | none ↦ value
      | some trace_id ↦
          if has_label (trace_id_key_ixs 0 profile.string_table) profile.string_table trace_id
            sample.labels
          then value
          else 0
    ]

unfoldable pub add_sample : Profile Text → AggregateOptions → Sample → FlameTree → FlameTree
unfolding sample_value frames_of add_stack add
add_sample profile opts sample tree =
    let value = sample_value profile opts sample in
    if value == 0 then tree else record {
      value = add tree.value value;
      children = add_stack (frames_of profile sample) value tree.children;
      total = add tree.total value;
    }

unfoldable pub add_all : Profile Text → AggregateOptions → List Sample → FlameTree → FlameTree
unfolding add_sample
add_all profile opts [] tree = tree
add_all profile opts (sample ∷ samples) tree =
    add_all profile opts samples (add_sample profile opts sample tree)

unfoldable pub aggregate_flame_tree : Profile Text → AggregateOptions → FlameTree
unfolding add_all
aggregate_flame_tree profile opts =
    add_all profile opts profile.samples (record { value = 0; children = no_children; total = 0 })

-- `sort((a, b) => b.value - a.value)`, which is stable: the first child is put behind the greater ones.
unfoldable pub insert_sorted : Text → ℕ → Option CodeRef → Children → Children → Children
insert_sorted name value ref kids no_children = child name value ref kids no_children
insert_sorted name value ref kids (child other v r sub rest) =
    if ltb value v
    then child other v r sub (insert_sorted name value ref kids rest)
    else child name value ref kids (child other v r sub rest)

-- Each node's children in the order in which they are walked
unfoldable pub sort_children : Children → Children
unfolding insert_sorted
sort_children no_children = no_children
sort_children (child name value ref kids rest) =
    insert_sorted name value ref (sort_children kids) (sort_children rest)

pub record FlatNode : Type 0 where
  pub name : Text
  pub value : ℕ
  pub depth : ℕ
  pub offset : ℕ

unfoldable pub walk_children : Children → ℕ → ℕ → List FlatNode
unfolding add
walk_children no_children depth cursor = []
walk_children (child name value ref kids rest) depth cursor =
    record { name = name; value = value; depth = depth; offset = cursor }
      ∷ walk_children kids (suc depth) cursor
    ++ walk_children rest depth (add cursor value)

unfoldable pub flatten_flame_tree : FlameTree → List FlatNode
unfolding walk_children sort_children
flatten_flame_tree root =
    record { name = lit "__root__"; value = root.value; depth = 0; offset = 0 }
    ∷ walk_children (sort_children root.children) 1 0
