-- ===== src/Telemetry/Links.antt =====
-- The ids of the spans that packages/telemetry-sdk/src/span.ts makes for a request, and of their parents.
use obs_unified.Common.{ℕ, zero, suc, ◌≡◌, refl, sym, ap, List, [], ◌∷◌, ◌++◌, map, In}
use obs_unified.Common.Text.{Text}
use obs_unified.Telemetry.Span.{ChildSpanRecord, Tracer, update_child}

-- A span's id and its parent's
abbrev pub Link : Type 0
Link = Text × Text

abbrev pub link_of : ChildSpanRecord → Link
link_of c = (c.span_id, c.parent_span_id)

-- Each span's parent is among the known spans or the spans before it.
unfoldable pub IsTree : List Text → List Link → Type 0
IsTree known [] = Unit
IsTree known ((id, parent) ∷ links) = In parent known × IsTree (id ∷ known) links

unfoldable pub grown : List Text → List Link → List Text
grown known [] = known
grown known ((id, parent) ∷ links) = grown (id ∷ known) links

pub IsTree-append :
    (known : List Text) (links : List Link) (id parent : Text)
    → IsTree known links
    → In parent (grown known links)
    → IsTree known (links ++ (id, parent) ∷ [])
unfolding IsTree grown
IsTree-append known [] id parent tree there = (there, tt)
IsTree-append known ((i, p) ∷ links) id parent (here, tree) there =
    (here, IsTree-append (i ∷ known) links id parent tree there)

pub grown-append :
    (known : List Text) (links : List Link) (id parent : Text)
    → grown known (links ++ (id, parent) ∷ []) ≡ id ∷ grown known links
unfolding grown
grown-append known [] id parent = refl
grown-append known ((i, p) ∷ links) id parent = grown-append (i ∷ known) links id parent

pub map-update_child :
    (i : ℕ) (f : ChildSpanRecord → ChildSpanRecord) (children : List ChildSpanRecord)
    → ((c : ChildSpanRecord) → link_of (f c) ≡ link_of c)
    → map link_of (update_child i f children) ≡ map link_of children
unfolding update_child
map-update_child i f [] same = refl
map-update_child zero f (c ∷ children) same = ap (λ l. l ∷ map link_of children) (same c)
map-update_child (suc i) f (c ∷ children) same =
    ap (λ l. link_of c ∷ l) (map-update_child i f children same)

abbrev pub links_of : Tracer → List Link
links_of t = map link_of t.request.child_spans

abbrev pub known_of : Tracer → List Text
known_of t = grown (t.request.span_id ∷ []) (links_of t)

-- The ids of the links are those that were drawn from one number to another.
unfoldable pub IsNumbered : (ℕ → Text) → ℕ → List Link → ℕ → Type 0
IsNumbered ids n [] end = n ≡ end
IsNumbered ids n ((id, parent) ∷ links) end = (id ≡ ids n) × IsNumbered ids (suc n) links end

pub IsNumbered-append :
    (ids : ℕ → Text) (n end : ℕ) (links : List Link) (parent : Text)
    → IsNumbered ids n links end
    → IsNumbered ids n (links ++ (ids end, parent) ∷ []) (suc end)
unfolding IsNumbered
IsNumbered-append ids n end [] parent same = (ap ids (sym same), ap suc same)
IsNumbered-append ids n end ((i, p) ∷ links) parent (here, rest) =
    (here, IsNumbered-append ids (suc n) end links parent rest)

-- The spans are a tree below the request's, and their ids were drawn one after another.
pub record IsWell (ids : ℕ → Text) (first : ℕ) (t : Tracer) : Type 0 where
  pub tree : IsTree (t.request.span_id ∷ []) (links_of t)
  pub numbered : IsNumbered ids first (links_of t) t.drawn
