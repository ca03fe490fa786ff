-- ===== src/Profile/Weights.antt =====
-- The weights in the flame tree of packages/dashboard/src/components/flame-graph/parse-pprof.ts.
use obs_unified.Common.{
  ℕ, ◌+◌, ◌≤◌, ◌<◌, ◌≡◌, refl, subst, List, [], ◌∷◌, inl, inr, Bool-cases, arith, ◌==◌,
}
use obs_unified.Common.Text.{Text, text_eq}
use obs_unified.Pprof.Double.{precise, add_exact}
use obs_unified.Pprof.Decode.{Sample, Profile}
use obs_unified.Profile.Flame.{
  Frame, Children, no_children, child, FlameTree, AggregateOptions, frames_of, add_stack,
  sample_value, add_sample, add_all, aggregate_flame_tree,
}

unfoldable pub sum_values : Children → ℕ
sum_values no_children = 0
sum_values (child name value ref kids rest) = value + sum_values rest

-- At every node the children's values sum up to no more than the node's own.
unfoldable pub IsWeighted : Children → Type 0
IsWeighted no_children = Unit
IsWeighted (child name value ref kids rest) =
    (sum_values kids ≤ value) × IsWeighted kids × IsWeighted rest

-- No node's value is above the limit.
unfoldable pub IsBelow : ℕ → Children → Type 0
IsBelow limit no_children = Unit
IsBelow limit (child name value ref kids rest) =
    (value ≤ limit) × IsBelow limit kids × IsBelow limit rest

IsBelow-mono : (a b : ℕ) (kids : Children) → a ≤ b → IsBelow a kids → IsBelow b kids
unfolding IsBelow
IsBelow-mono a b no_children le h = tt
IsBelow-mono a b (child name value ref kids rest) le (here, h, h') =
    (omega arith, IsBelow-mono a b kids le h, IsBelow-mono a b rest le h')

module _ (value limit : ℕ) (exact : limit + value < precise) where
  add_stack-IsBelow :
      (stack : List Frame) (kids : Children)
      → IsBelow limit kids
      → IsBelow (limit + value) (add_stack stack value kids)
  unfolding add_stack IsBelow
  add_stack-IsBelow [] kids h = IsBelow-mono limit (limit + value) kids (omega arith) h
  add_stack-IsBelow (f ∷ stack) no_children h =
      (omega (arith, add_exact 0 value (omega arith)), add_stack-IsBelow stack no_children tt, tt)
  add_stack-IsBelow (f ∷ stack) (child name old ref kids rest) (here, h, h') =
      elim (Bool-cases (text_eq name f.name)) [
        | inl same ↦
            rw (add_stack, same)
              (
                omega (arith, add_exact old value (omega arith)),
                add_stack-IsBelow stack kids h,
                IsBelow-mono limit (limit + value) rest (omega arith) h',
              )
        | inr other ↦
            rw (add_stack, other)
              (
                omega arith,
                IsBelow-mono limit (limit + value) kids (omega arith) h,
                add_stack-IsBelow (f ∷ stack) rest h',
              )
      ]

  sum_values-add_stack-le :
      (stack : List Frame) (kids : Children)
      → IsBelow limit kids
      → sum_values (add_stack stack value kids) ≤ sum_values kids + value
  unfolding add_stack sum_values IsBelow
  sum_values-add_stack-le [] kids h = omega arith
  sum_values-add_stack-le (f ∷ stack) no_children h = omega (arith, add_exact 0 value (omega arith))
  sum_values-add_stack-le (f ∷ stack) (child name old ref kids rest) (here, h, h') =
      elim (Bool-cases (text_eq name f.name)) [
        | inl same ↦ rw (add_stack, same) (omega (arith, add_exact old value (omega arith)))
        | inr other ↦
            rw (add_stack, other) (omega (arith, sum_values-add_stack-le (f ∷ stack) rest h'))
      ]

  add_stack-IsWeighted :
      (stack : List Frame) (kids : Children)
      → IsBelow limit kids
      → IsWeighted kids
      → IsWeighted (add_stack stack value kids)
  unfolding add_stack sum_values IsBelow IsWeighted
  add_stack-IsWeighted [] kids h w = w
  add_stack-IsWeighted (f ∷ stack) no_children h w = (
    omega (arith, add_exact 0 value (omega arith), sum_values-add_stack-le stack no_children tt),
    add_stack-IsWeighted stack no_children tt tt,
    tt,
  )
  add_stack-IsWeighted (f ∷ stack) (child name old ref kids rest) (here, h, h') (fits, w, w') =
      elim (Bool-cases (text_eq name f.name)) [
        | inl same ↦
            rw (add_stack, same)
              (
                omega (
                  arith,
                  add_exact old value (omega arith),
                  sum_values-add_stack-le stack kids h,
                ),
                add_stack-IsWeighted stack kids h w,
                w',
              )
        | inr other ↦ rw (add_stack, other) (fits, w, add_stack-IsWeighted (f ∷ stack) rest h' w')
      ]

-- The values of the samples that count, summed up
unfoldable pub counted : Profile Text → AggregateOptions → List Sample → ℕ
unfolding sample_value
counted profile opts [] = 0
counted profile opts (sample ∷ samples) =
    sample_value profile opts sample + counted profile opts samples

pub record IsSound (sum : ℕ) (tree : FlameTree) : Type 0 where
  pub root : tree.value ≡ sum
  pub total : tree.total ≡ sum
  pub fits : sum_values tree.children ≤ sum
  pub weighted : IsWeighted tree.children
  pub below : IsBelow sum tree.children

module _ (profile : Profile Text) (opts : AggregateOptions) where
  add_sample-IsSound :
      (sample : Sample) (sum : ℕ) (tree : FlameTree)
      → sum + sample_value profile opts sample < precise
      → IsSound sum tree
      → IsSound (sum + sample_value profile opts sample) (add_sample profile opts sample tree)
  unfolding add_sample
  add_sample-IsSound sample sum tree exact s =
      let value = sample_value profile opts sample in
      elim (Bool-cases (value == 0)) [
        | inl zero_value ↦
            let e : sum ≡ sum + value = ground arith in
            rw zero_value (subst (λ n. IsSound n tree) e s)
        | inr counts ↦ rw counts (record {
          root = rw s.root (add_exact sum value exact);
          total = rw s.total (add_exact sum value exact);
          fits = omega (
            arith,
            s.fits,
            sum_values-add_stack-le value sum exact (frames_of profile sample) tree.children
                s.below,
          );
          weighted =
              add_stack-IsWeighted value sum exact (frames_of profile sample) tree.children s.below
                s.weighted;
          below =
              add_stack-IsBelow value sum exact (frames_of profile sample) tree.children s.below;
        })
      ]

  add_all-IsSound :
      (samples : List Sample) (sum : ℕ) (tree : FlameTree)
      → sum + counted profile opts samples < precise
      → IsSound sum tree
      → IsSound (sum + counted profile opts samples) (add_all profile opts samples tree)
  unfolding add_all counted
  add_all-IsSound [] sum tree exact s =
      let e : sum ≡ sum + 0 = omega arith in subst (λ n. IsSound n tree) e s
  add_all-IsSound (sample ∷ samples) sum tree exact s =
      let value = sample_value profile opts sample in
      let e : sum + value + counted profile opts samples
          ≡ sum + (value + counted profile opts samples) =
        omega arith in
      subst (λ n. IsSound n (add_all profile opts samples (add_sample profile opts sample tree))) e
        (add_all-IsSound samples (sum + value) (add_sample profile opts sample tree) (omega arith)
          (add_sample-IsSound sample sum tree (omega arith) s))

  -- The flame tree of a profile whose counted values sum up to less than 2^53: its total and its root's
  -- value are that sum, the values of the root's children sum up to no more, and at every node those of
  -- its children to no more than its own.
  pub aggregate_flame_tree-IsSound :
      counted profile opts profile.samples < precise
      → IsSound (counted profile opts profile.samples) (aggregate_flame_tree profile opts)
  unfolding aggregate_flame_tree IsWeighted IsBelow sum_values
  aggregate_flame_tree-IsSound exact =
      let sum = counted profile opts profile.samples in
      let e : 0 + sum ≡ sum = omega arith in
      subst
        (λ n. IsSound n (
          add_all profile opts profile.samples
            (record { value = 0; children = no_children; total = 0 })))
        e
        (add_all-IsSound profile.samples 0 (record { value = 0; children = no_children; total = 0 })
          (omega arith)
          (record { root = refl; total = refl; fits = omega arith; weighted = tt; below = tt }))
