-- ===== src/Options/Parsing.antt =====
-- What a command-line option parses to.
use embd_project.Prelude.{
  String, ◌≡◌, inl, inr, refl, Bool, true, false, [], ◌∷◌, none, some, eq_iff, arith, Option-cases,
}
use embd_project.Options.{
  OptionLibrary, BoolOptions, Spec, GoStrings, parsed, lookup_option, find_option, parse_rest,
  parse_option, validate_option, validate, valid,
}

lookup_option-name :
    (f : String → String) (l : OptionLibrary) (a b : String)
    → f a ≡ f b
    → lookup_option f l a ≡ lookup_option f l b
unfolding lookup_option
lookup_option-name f [] a b h = refl
lookup_option-name f ((k, s) ∷ l) a b h = ground (arith, lookup_option-name f l a b)

lookup_option-lower :
    (f : String → String) (l : OptionLibrary) (a k : String) (s : Spec)
    → lookup_option f l a ≡ some (k, s)
    → f k ≡ f a
unfolding lookup_option
lookup_option-lower f [] a k s h = cc
lookup_option-lower f ((j, t) ∷ l) a k s h =
    ground (arith, lookup_option-lower f l a k s, eq_iff (f j) (f a))

find_option-valid :
    (f : String → String) (l : OptionLibrary) (a k : String) (b e : Bool)
    → find_option f l a b ≡ parsed k e
    → validate_option f l k ≡ none
unfolding find_option validate_option
find_option-valid f l a k b e h = elim (Option-cases (lookup_option f l a)) [
  | inl m ↦ ground arith
  | inr ((j, s), m) ↦ ground (arith, lookup_option-name f l j a (lookup_option-lower f l a j s m))
]

parse_rest-valid :
    (g : GoStrings) (was : Bool) (arg k : String) (e : Bool) (l : OptionLibrary)
    → parse_rest g was arg l ≡ parsed k e
    → validate_option g.to_lower l k ≡ none
unfolding parse_rest
parse_rest-valid g was arg k e l h =
    let name : String = (g.split_at_equals arg).0 in
    ground (
      arith,
      find_option-valid g.to_lower l name k was e,
      find_option-valid g.to_lower l name k true e,
      find_option-valid g.to_lower l name k false e,
    )

-- Whatever `ParseOption` accepts from a library, `Validate` accepts under the name that was returned.
pub parse_option-validate :
    (g : GoStrings) (arg k : String) (e : Bool) (l : OptionLibrary) (o : BoolOptions)
    → o.library ≡ some l
    → parse_option g arg l ≡ parsed k e
    → validate g.to_lower ((k, e) ∷ []) o ≡ valid
unfolding parse_option validate
parse_option-validate g arg k e l o same h = elim (Option-cases (g.uncons arg)) [
  | inl m ↦ ground arith
  | inr ((c, rest), m) ↦
      ground (arith, parse_rest-valid g false rest k e l, parse_rest-valid g true arg k e l)
]
