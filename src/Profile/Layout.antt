-- ===== src/Profile/Layout.antt =====
-- The rectangles of the flame graph, `flattenFlameTree` of
-- packages/dashboard/src/components/flame-graph/parse-pprof.ts.
use obs_unified.Common.{
  ℕ, suc, ◌+◌, ◌≤◌, ◌<◌, ◌≡◌, refl, Option, inl, inr, All, All_mono, All-append, AllPairs,
  AllPairs-append, Bool-cases, arith, ltb,
}
use obs_unified.Common.Text.{Text}
use obs_unified.Pprof.Double.{precise, add_exact}
use obs_unified.Pprof.Decode.{Profile}
use obs_unified.Profile.Flame.{
  CodeRef, Children, no_children, child, AggregateOptions, aggregate_flame_tree, insert_sorted,
  sort_children, FlatNode, walk_children, flatten_flame_tree,
}
use obs_unified.Profile.Weights.{sum_values, IsWeighted, counted, aggregate_flame_tree-IsSound}

sum_values-insert_sorted :
    (name : Text) (value : ℕ) (ref : Option CodeRef) (kids rest : Children)
    → sum_values (insert_sorted name value ref kids rest) ≡ value + sum_values rest
unfolding sum_values insert_sorted
sum_values-insert_sorted name value ref kids no_children = refl
sum_values-insert_sorted name value ref kids (child other v r sub rest) =
    ground (arith, sum_values-insert_sorted name value ref kids rest)

insert_sorted-IsWeighted :
    (name : Text) (value : ℕ) (ref : Option CodeRef) (kids rest : Children)
    → sum_values kids ≤ value
    → IsWeighted kids
    → IsWeighted rest
    → IsWeighted (insert_sorted name value ref kids rest)
unfolding IsWeighted insert_sorted
insert_sorted-IsWeighted name value ref kids no_children fits w w' = (fits, w, tt)
insert_sorted-IsWeighted name value ref kids (child other v r sub rest) fits w (fits', u, w') =
    elim (Bool-cases (ltb value v)) [
      | inl greater ↦
          rw greater (fits', u, insert_sorted-IsWeighted name value ref kids rest fits w w')
      | inr first_place ↦ rw first_place (fits, w, (fits', u, w'))
    ]

sum_values-sort_children : (kids : Children) → sum_values (sort_children kids) ≡ sum_values kids
unfolding sum_values sort_children
sum_values-sort_children no_children = refl
sum_values-sort_children (child name value ref kids rest) = omega (
  arith,
  sum_values-insert_sorted name value ref (sort_children kids) (sort_children rest),
  sum_values-sort_children rest,
)

sort_children-IsWeighted : (kids : Children) → IsWeighted kids → IsWeighted (sort_children kids)
unfolding IsWeighted sort_children
sort_children-IsWeighted no_children w = tt
sort_children-IsWeighted (child name value ref kids rest) (fits, w, w') =
    insert_sorted-IsWeighted name value ref (sort_children kids) (sort_children rest)
      (omega (arith, sum_values-sort_children kids)) (sort_children-IsWeighted kids w)
      (sort_children-IsWeighted rest w')

-- The rectangle lies between the two offsets, at the depth or below.
pub record IsWithin (depth from to : ℕ) (e : FlatNode) : Type 0 where
  pub below : depth ≤ e.depth
  pub left : from ≤ e.offset
  pub right : e.offset + e.value ≤ to

-- In one row the later rectangle starts where the earlier one has ended.
abbrev pub IsApart : FlatNode → FlatNode → Type 0
IsApart e f = e.depth ≡ f.depth → e.offset + e.value ≤ f.offset

walk_children-IsWithin :
    (kids : Children) (depth cursor : ℕ)
    → cursor + sum_values kids < precise
    → IsWeighted kids
    → All (IsWithin depth cursor (cursor + sum_values kids)) (walk_children kids depth cursor)
unfolding walk_children sum_values IsWeighted
walk_children-IsWithin no_children depth cursor exact w = tt
walk_children-IsWithin (child name value ref kids rest) depth cursor exact (fits, w, w') =
    let next = add_exact cursor value (omega arith) in
    let inner = walk_children-IsWithin kids (suc depth) cursor (omega arith) w in
    let later = walk_children-IsWithin rest depth (cursor + value) (omega arith) w' in
    (
      record { below = omega arith; left = omega arith; right = omega arith },
      All-append (IsWithin depth cursor (cursor + (value + sum_values rest)))
          (walk_children kids (suc depth) cursor) _
          (All_mono _ _ (walk_children kids (suc depth) cursor)
            (λ e h. record {
              below = omega (arith, h.below);
              left = h.left;
              right = omega (arith, h.right);
            })
            inner)
          (rw next (
            All_mono _ _ (walk_children rest depth (cursor + value))
              (λ e h. record {
                below = h.below;
                left = omega (arith, h.left);
                right = omega (arith, h.right);
              })
              later)),
    )

walk_children-AllPairs :
    (kids : Children) (depth cursor : ℕ)
    → cursor + sum_values kids < precise
    → IsWeighted kids
    → AllPairs IsApart (walk_children kids depth cursor)
unfolding walk_children sum_values IsWeighted
walk_children-AllPairs no_children depth cursor exact w = tt
walk_children-AllPairs (child name value ref kids rest) depth cursor exact (fits, w, w') =
    let next = add_exact cursor value (omega arith) in
    let inner = walk_children-IsWithin kids (suc depth) cursor (omega arith) w in
    let later = walk_children-IsWithin rest depth (cursor + value) (omega arith) w' in
    rw next (
      All-append _ (walk_children kids (suc depth) cursor) _
          (All_mono _ _ (walk_children kids (suc depth) cursor)
            (λ e h same. absurd (omega (arith, h.below))) inner)
          (All_mono _ _ (walk_children rest depth (cursor + value)) (λ e h same. h.left) later),
      AllPairs-append IsApart (walk_children kids (suc depth) cursor)
          (walk_children rest depth (cursor + value))
          (walk_children-AllPairs kids (suc depth) cursor (omega arith) w)
          (walk_children-AllPairs rest depth (cursor + value) (omega arith) w')
          (All_mono _ _ (walk_children kids (suc depth) cursor)
            (λ e h.
              All_mono _ _ (walk_children rest depth (cursor + value))
                (λ f g same. omega (arith, h.right, g.left)) later)
            inner),
    )

-- The rectangles of a profile's flame graph, where the counted values sum up to less than 2^53: each lies
-- between 0 and the total, and no two of one row overlap, the later one being to the right.
pub flatten_flame_tree-aggregate_flame_tree :
    (profile : Profile Text) (opts : AggregateOptions)
    → counted profile opts profile.samples < precise
    → All
        (IsWithin 0 0 (aggregate_flame_tree profile opts).total)
        (flatten_flame_tree (aggregate_flame_tree profile opts))
      × AllPairs IsApart (flatten_flame_tree (aggregate_flame_tree profile opts))
unfolding flatten_flame_tree
flatten_flame_tree-aggregate_flame_tree profile opts exact =
    let tree = aggregate_flame_tree profile opts in
    let s = aggregate_flame_tree-IsSound profile opts exact in
    let kids = sort_children tree.children in
    let same = sum_values-sort_children tree.children in
    let w = sort_children-IsWeighted tree.children s.weighted in
    let inner = walk_children-IsWithin kids 1 0 (omega (arith, s.fits)) w in
    (
      (
        record { below = omega arith; left = omega arith; right = omega (arith, s.root, s.total) },
        All_mono _ _ (walk_children kids 1 0)
            (λ e h. record {
              below = omega arith;
              left = h.left;
              right = omega (arith, h.right, s.fits, s.total);
            })
            inner,
      ),
      (
        All_mono _ _ (walk_children kids 1 0) (λ e h same_row. absurd (omega (arith, h.below)))
            inner,
        walk_children-AllPairs kids 1 0 (omega (arith, s.fits)) w,
      ),
    )
