-- ===== src/Telemetry/Tree.antt =====
-- The spans that packages/telemetry-sdk/src/span.ts makes for a request are one tree.
use obs_unified.Common.{
  ℕ, suc, ◌≡◌, inl, refl, sym, ◌∙◌, List, [], ◌∷◌, map, Option, none, some, or_default, All,
  All_mono, AllPairs, In, ◌≢◌, ◌≤◌, arith,
}
use mathlib.Core.Option
use obs_unified.Common.Text.{Text}
use obs_unified.Telemetry.Otlp.{OtlpSpan}
use obs_unified.Telemetry.Headers.{IncomingTraceContext}
use obs_unified.Telemetry.Mcp.{AgentActionContext}
use obs_unified.Telemetry.Span.{
  ChildSpanRecord, Tracer, Work, create_request_span, run_work, child_span, spans_of,
}
use obs_unified.Telemetry.Links.{Link, link_of, IsTree, grown, IsNumbered}
use obs_unified.Telemetry.Growth.{run_work-IsGrowth}

-- A link's id is drawn at no earlier number than the first.
IsNumbered-All :
    (ids : ℕ → Text) (n end : ℕ) (links : List Link)
    → IsNumbered ids n links end
    → All (λ (l : Link). (m : ℕ) × (l.0 ≡ ids m) × (n ≤ m)) links
unfolding IsNumbered
IsNumbered-All ids n end [] same = tt
IsNumbered-All ids n end ((id, parent) ∷ links) (here, rest) = (
  (n, here, omega arith),
  All_mono _ _ links (λ l (m, drawn, le). (m, drawn, omega (arith, le)))
      (IsNumbered-All ids (suc n) end links rest),
)

numbered_apart :
    (ids : ℕ → Text) (n end : ℕ) (id parent : Text) (links : List Link)
    → ((i j : ℕ) → ids i ≡ ids j → i ≡ j)
    → id ≡ ids n
    → IsNumbered ids (suc n) links end
    → All (λ (l : Link). id ≢ l.0) links
numbered_apart ids n end id parent links distinct here rest =
    All_mono _ _ links
      (λ l (m, drawn, le) same. omega (arith, le, distinct n m (sym here ∙ same ∙ drawn)))
      (IsNumbered-All ids (suc n) end links rest)

IsNumbered-AllPairs :
    (ids : ℕ → Text) (n end : ℕ) (links : List Link)
    → ((i j : ℕ) → ids i ≡ ids j → i ≡ j)
    → IsNumbered ids n links end
    → AllPairs (λ (l l' : Link). l.0 ≢ l'.0) links
unfolding IsNumbered
IsNumbered-AllPairs ids n end [] distinct same = tt
IsNumbered-AllPairs ids n end ((id, parent) ∷ links) distinct (here, rest) = (
  numbered_apart ids n end id parent links distinct here rest,
  IsNumbered-AllPairs ids (suc n) end links distinct rest,
)

child_span-All :
    (trace_id id : Text) (children : List ChildSpanRecord)
    → All (λ (l : Link). id ≢ l.0) (map link_of children)
    → All (λ (s : OtlpSpan). id ≢ s.span_id) (map (child_span trace_id) children)
unfolding child_span
child_span-All trace_id id [] apart = tt
child_span-All trace_id id (c ∷ children) (here, apart) =
    (here, child_span-All trace_id id children apart)

child_span-AllPairs :
    (trace_id : Text) (children : List ChildSpanRecord)
    → AllPairs (λ (l l' : Link). l.0 ≢ l'.0) (map link_of children)
    → AllPairs (λ (s s' : OtlpSpan). s.span_id ≢ s'.span_id) (map (child_span trace_id) children)
unfolding child_span
child_span-AllPairs trace_id [] apart = tt
child_span-AllPairs trace_id (c ∷ children) (here, apart) =
    (child_span-All trace_id c.span_id children here, child_span-AllPairs trace_id children apart)

-- Every span has a parent among the known ones or those before it.
unfoldable pub HasParents : List Text → List OtlpSpan → Type 0
HasParents known [] = Unit
HasParents known (s ∷ spans) =
    ((parent : Text) × (s.parent_span_id ≡ some parent) × In parent known)
    × HasParents (s.span_id ∷ known) spans

-- A root, and spans of its trace that hang on it or on one before them; no two have one id.
unfoldable pub IsTrace : List OtlpSpan → Type 0
unfolding HasParents
IsTrace [] = ⊥
IsTrace (root ∷ spans) =
    All (λ s. s.trace_id ≡ root.trace_id) spans
    × HasParents (root.span_id ∷ []) spans
    × AllPairs (λ (s s' : OtlpSpan). s.span_id ≢ s'.span_id) (root ∷ spans)

child_span-HasParents :
    (trace_id : Text) (known : List Text) (children : List ChildSpanRecord)
    → IsTree known (map link_of children)
    → HasParents known (map (child_span trace_id) children)
unfolding IsTree HasParents child_span
child_span-HasParents trace_id known [] tree = tt
child_span-HasParents trace_id known (c ∷ children) (here, tree) = (
  (c.parent_span_id, refl, here),
  child_span-HasParents trace_id (c.span_id ∷ known) children tree,
)

child_span-trace_id :
    (trace_id : Text) (children : List ChildSpanRecord)
    → All (λ (s : OtlpSpan). s.trace_id ≡ trace_id) (map (child_span trace_id) children)
unfolding child_span
child_span-trace_id trace_id [] = tt
child_span-trace_id trace_id (c ∷ children) = (refl, child_span-trace_id trace_id children)

-- Whatever calls the handler of a request makes one after another and wherever it throws or catches,
-- where no id is drawn twice the spans made for the request have different ids and are one tree: each but
-- the request's has as its parent the request's or one made before it. They are of one trace: the
-- caller's, where it sent one, and else the fresh one.
pub run_work-IsTrace :
    (ids clock : ℕ → Text) (agent : Option AgentActionContext) (w : Work)
    (service_name span_name fresh : Text) (incoming : Option IncomingTraceContext) (t : Tracer)
    → ((i j : ℕ) → ids i ≡ ids j → i ≡ j)
    → let r =
        (run_work ids clock agent w none
          (create_request_span ids clock service_name span_name incoming fresh t)).0.request in
      IsTrace (spans_of r)
      × (r.trace_id
          ≡ or_default (Option.map (λ (c : IncomingTraceContext). c.trace_id) incoming) fresh)
unfolding IsTrace spans_of IsTree IsNumbered grown
run_work-IsTrace ids clock agent w service_name span_name fresh incoming t distinct =
    let t₁ = create_request_span ids clock service_name span_name incoming fresh t in
    let g =
      run_work-IsGrowth ids clock (suc t.drawn) w agent none t₁
        (record { tree = tt; numbered = refl }) (inl refl) in
    let u = (run_work ids clock agent w none t₁).0 in
    let r = u.request in
    let links = map link_of r.child_spans in
    (
      (
        child_span-trace_id r.trace_id r.child_spans,
        child_span-HasParents r.trace_id (r.span_id ∷ []) r.child_spans g.well.tree,
        (
          child_span-All r.trace_id r.span_id r.child_spans (
              numbered_apart ids t.drawn u.drawn r.span_id [] links distinct g.same_root
                g.well.numbered),
          child_span-AllPairs r.trace_id r.child_spans
              (IsNumbered-AllPairs ids (suc t.drawn) u.drawn links distinct g.well.numbered),
        ),
      ),
      g.same_trace ∙ same_fresh incoming,
    )
  where
    same_fresh :
        (incoming : Option IncomingTraceContext)
        → (create_request_span ids clock service_name span_name incoming fresh t).request.trace_id
          ≡ or_default (Option.map (λ (c : IncomingTraceContext). c.trace_id) incoming) fresh
    same_fresh none = refl
    same_fresh (some context) = refl
