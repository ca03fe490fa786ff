-- ===== src/Telemetry/Growth.antt =====
-- What the spans that packages/telemetry-sdk/src/span.ts makes for a request are after each call.
use obs_unified.Common.{
  ℕ, suc, ◌≡◌, inl, inr, refl, sym, ap, subst, ◌∙◌, [], ◌∷◌, ◌++◌, map, Option, none, some,
  or_default, length, In,
}
use mathlib.Core.Option
use mathlib.Core.List.{map-append}
use obs_unified.Common.Text.{Text}
use obs_unified.Telemetry.Mcp.{AgentActionContext}
use obs_unified.Telemetry.Span.{
  ChildSpanRecord, Tracer, end_child, fail_child, Work, returns, throws, set_attribute, add_event,
  set_status, add_child_event, set_child_status, event_of, set_status_of, set_child_attribute,
  with_child_span, set_or_replace_kv, set_attribute_of, add_event_to, create_child_span, on_child,
  finish_child, after_child, run_work, go_on, catch_error, create_child, finish_handle, with_agent,
  try_catch,
}
use obs_unified.Telemetry.Links.{
  link_of, IsTree, grown, IsTree-append, grown-append, map-update_child, links_of, known_of,
  IsNumbered, IsNumbered-append, IsWell,
}

-- From one state to the next the spans stay well formed, with the same root and trace, and none is lost.
pub record IsGrowth (ids : ℕ → Text) (first : ℕ) (t t' : Tracer) : Type 0 where
  pub same_root : t'.request.span_id ≡ t.request.span_id
  pub same_trace : t'.request.trace_id ≡ t.request.trace_id
  pub well : IsWell ids first t'
  pub keeps : (x : Text) → In x (known_of t) → In x (known_of t')

module _ (ids : ℕ → Text) (first : ℕ) where
  IsGrowth-trans :
      (t t' t'' : Tracer)
      → IsGrowth ids first t t'
      → IsGrowth ids first t' t''
      → IsGrowth ids first t t''
  IsGrowth-trans t t' t'' g h = record {
    same_root = h.same_root ∙ g.same_root;
    same_trace = h.same_trace ∙ g.same_trace;
    well = h.well;
    keeps = λ x there. h.keeps x (g.keeps x there);
  }

  IsGrowth-refl : (t : Tracer) → IsWell ids first t → IsGrowth ids first t t
  IsGrowth-refl t well = record {
    same_root = refl;
    same_trace = refl;
    well = well;
    keeps = λ x there. there;
  }

  on_child-IsGrowth :
      (i : ℕ) (f : ChildSpanRecord → ChildSpanRecord) (t : Tracer)
      → ((c : ChildSpanRecord) → link_of (f c) ≡ link_of c)
      → IsWell ids first t
      → IsGrowth ids first t (on_child i f t)
  unfolding on_child
  on_child-IsGrowth i f t same well =
      let root = t.request.span_id ∷ [] in
      let links = sym (map-update_child i f t.request.child_spans same) in
      record {
        same_root = refl;
        same_trace = refl;
        well = record {
          tree = subst (IsTree root) links well.tree;
          numbered = subst (λ l. IsNumbered ids first l t.drawn) links well.numbered;
        };
        keeps = λ x there. subst (λ l. In x (grown root l)) links there;
      }

  -- The place where children are made stays known.
  known_later :
      (inner : Option (ℕ × Text)) (t t' : Tracer)
      → In (or_default (Option.map (λ (c : ℕ × Text). c.1) inner) t.request.span_id) (known_of t)
      → IsGrowth ids first t t'
      → In (or_default (Option.map (λ (c : ℕ × Text). c.1) inner) t'.request.span_id) (known_of t')
  known_later inner t t' there g =
      let parent = Option.map (λ (c : ℕ × Text). c.1) inner in
      subst (λ r. In (or_default parent r) (known_of t')) (sym g.same_root) (g.keeps _ there)

module _ (ids clock : ℕ → Text) (first : ℕ) where
  create_child_span-IsGrowth :
      (name : Text) (kind : ℕ) (parent : Option Text) (agent : Option AgentActionContext)
      (t : Tracer)
      → IsWell ids first t
      → In (or_default parent t.request.span_id) (known_of t)
      → let t' = create_child_span ids clock name kind parent agent t in
        IsGrowth ids first t t' × In (ids t.drawn) (known_of t')
  unfolding create_child_span
  create_child_span-IsGrowth name kind parent agent t well there =
      let root = t.request.span_id ∷ [] in
      let p = or_default parent t.request.span_id in
      let links : map link_of
            (create_child_span ids clock name kind parent agent t).request.child_spans
          ≡ links_of t ++ (ids t.drawn, p) ∷ [] =
        map-append link_of t.request.child_spans _ in
      let known = ap (grown root) links ∙ grown-append root (links_of t) (ids t.drawn) p in
      (
        record {
          same_root = refl;
          same_trace = refl;
          well = record {
            tree =
                subst (IsTree root) (sym links)
                  (IsTree-append root (links_of t) (ids t.drawn) p well.tree there);
            numbered =
                subst (λ l. IsNumbered ids first l (suc t.drawn)) (sym links)
                  (IsNumbered-append ids first t.drawn (links_of t) p well.numbered);
          };
          keeps = λ x h. subst (In x) (sym known) (inr h);
        },
        subst (In (ids t.drawn)) (sym known) (inl refl),
      )

  -- A time more is read.
  finished :
      (t t' : Tracer)
      → IsGrowth ids first t t'
      → IsGrowth ids first t (record t' { ticks = suc t'.ticks })
  finished t t' g = record {
    same_root = g.same_root;
    same_trace = g.same_trace;
    well = record { tree = g.well.tree; numbered = g.well.numbered };
    keeps = g.keeps;
  }

  finish_child-IsGrowth :
      (i : ℕ) (thrown : Option Text) (t : Tracer)
      → IsWell ids first t
      → IsGrowth ids first t (finish_child ids clock i thrown t)
  unfolding finish_child end_child fail_child
  finish_child-IsGrowth i none t well =
      finished t (on_child i (end_child (clock t.ticks)) t)
        (on_child-IsGrowth ids first i (end_child (clock t.ticks)) t (λ c. refl) well)
  finish_child-IsGrowth i (some message) t well =
      let failed = on_child-IsGrowth ids first i (fail_child message) t (λ c. refl) well in
      let t' = on_child i (fail_child message) t in
      let t'' = on_child i (end_child (clock t.ticks)) t' in
      let ended =
        on_child-IsGrowth ids first i (end_child (clock t.ticks)) t' (λ c. refl) failed.well in
      finished t t'' (IsGrowth-trans ids first t t' t'' failed ended)

  after_child-IsGrowth :
      (thrown : Option Text) (i : ℕ) (next : Tracer → Tracer × Option Text) (t t' : Tracer)
      → IsGrowth ids first t t'
      → ((u : Tracer) → IsGrowth ids first t u → IsGrowth ids first t (next u).0)
      → IsGrowth ids first t (after_child ids clock thrown i next t').0
  unfolding after_child
  after_child-IsGrowth none i next t t' g goes_on = goes_on (finish_child ids clock i none t') (
      IsGrowth-trans ids first t t' (finish_child ids clock i none t') g
        (finish_child-IsGrowth i none t' g.well))
  after_child-IsGrowth (some message) i next t t' g goes_on =
      IsGrowth-trans ids first t t' (finish_child ids clock i (some message) t') g
        (finish_child-IsGrowth i (some message) t' g.well)

  go_on-IsGrowth :
      (thrown : Option Text) (next : Tracer → Tracer × Option Text) (t t' : Tracer)
      → IsGrowth ids first t t'
      → ((u : Tracer) → IsGrowth ids first t u → IsGrowth ids first t (next u).0)
      → IsGrowth ids first t (go_on ids clock thrown next t').0
  unfolding go_on
  go_on-IsGrowth none next t t' g goes_on = goes_on t' g
  go_on-IsGrowth (some message) next t t' g goes_on = g

  catch_error-IsGrowth :
      (thrown : Option Text) (handler : Tracer → Tracer × Option Text) (t t' : Tracer)
      → IsGrowth ids first t t'
      → ((u : Tracer) → IsGrowth ids first t u → IsGrowth ids first t (handler u).0)
      → IsGrowth ids first t (catch_error ids clock thrown handler t').0
  unfolding catch_error
  catch_error-IsGrowth none handler t t' g handles = g
  catch_error-IsGrowth (some message) handler t t' g handles = handles t' g

  pub run_work-IsGrowth :
      (w : Work) (agent : Option AgentActionContext) (inner : Option (ℕ × Text)) (t : Tracer)
      → IsWell ids first t
      → In (or_default (Option.map (λ (c : ℕ × Text). c.1) inner) t.request.span_id) (known_of t)
      → IsGrowth ids first t (run_work ids clock agent w inner t).0
  unfolding run_work
  run_work-IsGrowth returns agent inner t well there = IsGrowth-refl ids first t well
  run_work-IsGrowth (throws message) agent inner t well there = IsGrowth-refl ids first t well
  run_work-IsGrowth (set_attribute key value rest) agent inner t well there =
      let same : IsWell ids first (set_attribute_of key value t) = record {
        tree = well.tree;
        numbered = well.numbered;
      } in
      let g = run_work-IsGrowth rest agent inner (set_attribute_of key value t) same there in
      record { same_root = g.same_root; same_trace = g.same_trace; well = g.well; keeps = g.keeps }
  run_work-IsGrowth (add_event name attributes rest) agent inner t well there =
      let same : IsWell ids first (add_event_to ids clock name attributes t) = record {
        tree = well.tree;
        numbered = well.numbered;
      } in
      let g =
        run_work-IsGrowth rest agent inner (add_event_to ids clock name attributes t) same there in
      record { same_root = g.same_root; same_trace = g.same_trace; well = g.well; keeps = g.keeps }
  run_work-IsGrowth (set_status code message rest) agent inner t well there =
      let same : IsWell ids first (set_status_of code message t) = record {
        tree = well.tree;
        numbered = well.numbered;
      } in
      let g = run_work-IsGrowth rest agent inner (set_status_of code message t) same there in
      record { same_root = g.same_root; same_trace = g.same_trace; well = g.well; keeps = g.keeps }
  run_work-IsGrowth (add_child_event name attributes rest) agent none t well there =
      run_work-IsGrowth rest agent none t well there
  run_work-IsGrowth (add_child_event name attributes rest) agent (some (i, id)) t well there =
      let f = λ (c : ChildSpanRecord). record c {
        events = c.events ++ event_of name (clock t.ticks) attributes ∷ [];
      } in
      let t' = record (on_child i f t) { ticks = suc t.ticks } in
      let g = finished t (on_child i f t) (on_child-IsGrowth ids first i f t (λ c. refl) well) in
      IsGrowth-trans ids first t t' _ g (
        run_work-IsGrowth rest agent (some (i, id)) t' g.well
          (known_later ids first (some (i, id)) t t' there g))
  run_work-IsGrowth (set_child_status code message rest) agent none t well there =
      run_work-IsGrowth rest agent none t well there
  run_work-IsGrowth (set_child_status code message rest) agent (some (i, id)) t well there =
      let f = λ (c : ChildSpanRecord). record c { status_code = code; status_message = message } in
      let t' = on_child i f t in
      let g = on_child-IsGrowth ids first i f t (λ c. refl) well in
      IsGrowth-trans ids first t t' _ g (
        run_work-IsGrowth rest agent (some (i, id)) t' g.well
          (known_later ids first (some (i, id)) t t' there g))
  run_work-IsGrowth (set_child_attribute key value rest) agent none t well there =
      run_work-IsGrowth rest agent none t well there
  run_work-IsGrowth (set_child_attribute key value rest) agent (some (i, id)) t well there =
      let f = λ (c : ChildSpanRecord). record c {
        attributes = set_or_replace_kv c.attributes key value;
      } in
      let t' = on_child i f t in
      let g = on_child-IsGrowth ids first i f t (λ c. refl) well in
      IsGrowth-trans ids first t t' _ g (
        run_work-IsGrowth rest agent (some (i, id)) t' g.well
          (known_later ids first (some (i, id)) t t' there g))
  run_work-IsGrowth (with_child_span name body rest) agent inner t well there =
      let i = length t.request.child_spans in
      let parent = Option.map (λ (c : ℕ × Text). c.1) inner in
      let t₁ = create_child_span ids clock name 1 parent agent t in
      let (made, id_there) = create_child_span-IsGrowth name 1 parent agent t well there in
      let ran = run_work-IsGrowth body agent (some (i, ids t.drawn)) t₁ made.well id_there in
      let r = run_work ids clock agent body (some (i, ids t.drawn)) t₁ in
      after_child-IsGrowth r.1 i _ t r.0 (IsGrowth-trans ids first t t₁ r.0 made ran) (λ u h.
        IsGrowth-trans ids first t u _ h
          (run_work-IsGrowth rest agent inner u h.well (known_later ids first inner t u there h)))
  run_work-IsGrowth (create_child name kind body rest) agent inner t well there =
      let parent = Option.map (λ (c : ℕ × Text). c.1) inner in
      let handle : ℕ × Text = (length t.request.child_spans, or_default parent t.request.span_id) in
      let t₁ = create_child_span ids clock name kind parent agent t in
      let made = (create_child_span-IsGrowth name kind parent agent t well there).0 in
      let ran = run_work-IsGrowth body agent (some handle) t₁ made.well (made.keeps _ there) in
      let r = run_work ids clock agent body (some handle) t₁ in
      go_on-IsGrowth r.1 _ t r.0 (IsGrowth-trans ids first t t₁ r.0 made ran) (λ u h.
        IsGrowth-trans ids first t u _ h
          (run_work-IsGrowth rest agent inner u h.well (known_later ids first inner t u there h)))
  run_work-IsGrowth (finish_handle rest) agent none t well there =
      run_work-IsGrowth rest agent none t well there
  run_work-IsGrowth (finish_handle rest) agent (some (i, id)) t well there =
      let t' = finish_child ids clock i none t in
      let g = finish_child-IsGrowth i none t well in
      IsGrowth-trans ids first t t' _ g (
        run_work-IsGrowth rest agent (some (i, id)) t' g.well
          (known_later ids first (some (i, id)) t t' there g))
  run_work-IsGrowth (with_agent context body rest) agent inner t well there =
      let r = run_work ids clock (some context) body inner t in
      go_on-IsGrowth r.1 _ t r.0 (run_work-IsGrowth body (some context) inner t well there) (λ u h.
        IsGrowth-trans ids first t u _ h
          (run_work-IsGrowth rest agent inner u h.well (known_later ids first inner t u there h)))
  run_work-IsGrowth (try_catch body handler rest) agent inner t well there =
      let r = run_work ids clock agent body inner t in
      let ran = run_work-IsGrowth body agent inner t well there in
      let h = λ (u : Tracer). run_work ids clock agent handler inner u in
      let caught = catch_error ids clock r.1 h r.0 in
      let handled = catch_error-IsGrowth r.1 h t r.0 ran (λ u g. IsGrowth-trans ids first t u _ g (
        run_work-IsGrowth handler agent inner u g.well
          (known_later ids first inner t u there g))) in
      go_on-IsGrowth caught.1 _ t caught.0 handled (λ u h.
        IsGrowth-trans ids first t u _ h
          (run_work-IsGrowth rest agent inner u h.well (known_later ids first inner t u there h)))
