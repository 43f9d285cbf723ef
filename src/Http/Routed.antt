-- ===== src/Http/Routed.antt =====
-- Which handler a path reaches.
use embd_project.Prelude.{
  String, ◌≡◌, refl, List, [], ◌∷◌, Option, none, some, false, str_eq, if◌then◌else◌, All, arith,
}
use embd_project.Http

-- What mux documents of a pattern: its literals match themselves, a variable one segment that is not empty.
abbrev pub match_segments : Http.Pattern → List String → Option Http.Vars
match_segments [] [] = some []
match_segments (Http.lit s ∷ p) (x ∷ xs) = if str_eq s x then match_segments p xs else none
match_segments (Http.var n ∷ p) (x ∷ xs) =
    let rest = match_segments p xs in
    if str_eq x "" then none else elim rest [ none ↦ none | some vs ↦ some ((n, x) ∷ vs) ]
match_segments _ _ = none

abbrev pub Documented : Http.Mux → Type 0
Documented x =
    (p : Http.Pattern) (path : String) → x.vars p path ≡ match_segments p (x.segments path)

-- The first route that matches the segments of a path.
abbrev pub first_match :
    List Http.Route → Http.Method → List String → Option (Http.Handler × Http.Vars)
first_match [] m segs = none
first_match (r ∷ rs) m segs =
    let rest = first_match rs m segs in
    elim (match_segments r.pattern segs) [
      | none ↦ rest
      | some vs ↦ if Http.same_method r.method m then some (r.handler, vs) else rest
    ]

pub dispatch-first_match :
    (x : Http.Mux) (rs : List Http.Route) (m : Http.Method) (path : String)
    → Documented x
    → Http.dispatch x rs m path ≡ first_match rs m (x.segments path)
unfolding Http.dispatch
dispatch-first_match x [] m path doc = refl
dispatch-first_match x (r ∷ rs) m path doc =
    ground (arith, doc r.pattern path, dispatch-first_match x rs m path doc)

-- No segment is empty.
abbrev pub Named : List String → Type 0
Named = All λ s. str_eq s "" ≡ false
