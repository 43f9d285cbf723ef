-- ===== src/Options.antt =====
-- pkg/option/option.go: Boolean options of the daemon and of a machine.
-- `ToLower` and `SplitN` are Go's, and parameters. A loop over a Go map is a loop over an association
-- list, in whatever order its entries stand.
pub mod Applying
pub mod Parsing
use embd_project.Prelude.{
  ℕ, String, ◌+◌, Bool, true, false, ◌&&◌, ◌||◌, not, List, [], ◌∷◌, Option, none, some, str_eq,
  any, ◌==◌, if◌then◌else◌,
}
use embd_project.Prelude.Maps.{lookup, insert, delete}
use embd_project.Errors.{Error, unknown_option, immutable_option, invalid_option_value}

pub record Spec : Type 0 where
  pub define : String
  pub description : String
  pub immutable : Bool

abbrev pub OptionLibrary : Type 0
OptionLibrary = List (String × Spec)

abbrev pub OptionMap : Type 0
OptionMap = List (String × Bool)

-- `OptionLibrary.Lookup`: the first option whose name agrees up to case. `none` is the result `"", nil`.
unfoldable pub lookup_option : (String → String) → OptionLibrary → String → Option (String × Spec)
lookup_option to_lower [] name = none
lookup_option to_lower ((k, spec) ∷ l) name =
    if str_eq (to_lower k) (to_lower name) then some (k, spec) else lookup_option to_lower l name

unfoldable pub define : OptionLibrary → String → String
unfolding lookup
define l name = elim (lookup name l) [ none ↦ name | some spec ↦ spec.define ]

unfoldable pub validate_option : (String → String) → OptionLibrary → String → Option Error
unfolding lookup_option
validate_option to_lower l name = elim (lookup_option to_lower l name) [
  | none ↦ some (unknown_option name)
  | some (k, spec) ↦
      if str_eq k ""
      then some (unknown_option name)
      else if spec.immutable
      then some immutable_option
      else none
]

-- `BoolOptions`: its map may be nil, and the pointer to its library. The library is never changed.
pub record BoolOptions : Type 0 where
  pub opts : Option OptionMap
  pub library : Option OptionLibrary

unfoldable pub new_bool_options : Option OptionLibrary → BoolOptions
new_bool_options l = record { opts = some []; library = l }

-- `OptionMap.DeepCopy`
unfoldable pub copy_map : OptionMap → OptionMap → OptionMap
unfolding insert
copy_map [] cpy = cpy
copy_map ((k, v) ∷ om) cpy = copy_map om (insert k v cpy)

-- Reads of a nil map find nothing.
abbrev pub entries : BoolOptions → OptionMap
entries o = elim o.opts [ none ↦ [] | some om ↦ om ]

-- A copy of a nil map is an empty one.
unfoldable pub deep_copy : BoolOptions → BoolOptions
unfolding copy_map
deep_copy bo = record { opts = some (copy_map (entries bo) []); library = bo.library }

unfoldable pub is_enabled : String → BoolOptions → Bool
is_enabled key o = elim (lookup key (entries o)) [ none ↦ false | some set ↦ set ]

-- `o.Opts[key] = value`, which panics on a nil map; then there is no result.
unfoldable pub set_option : String → Bool → BoolOptions → Option BoolOptions
set_option key value o = elim o.opts [
  | none ↦ none
  | some om ↦ some (record o { opts = some (insert key value om) })
]

unfoldable pub delete_option : String → BoolOptions → BoolOptions
delete_option key o = elim o.opts [ none ↦ o | some om ↦ record o { opts = some (delete key om) } ]

unfoldable pub set_if_unset : String → Bool → BoolOptions → Option BoolOptions
unfolding set_option
set_if_unset key value o = elim (lookup key (entries o)) [
  | none ↦ set_option key value o
  | some _ ↦ some o
]

unfoldable pub inherit_default : BoolOptions → String → BoolOptions → Option BoolOptions
unfolding set_option is_enabled
inherit_default parent key o = set_option key (is_enabled key parent) o

-- How a validation ends: a nil library panics.
pub data Verdict : Type 0 where
  valid panicked : Verdict
  invalid : Error → Verdict

unfoldable pub validate : (String → String) → OptionMap → BoolOptions → Verdict
unfolding validate_option
validate to_lower [] o = valid
validate to_lower ((k, v) ∷ n) o =
    let rest = validate to_lower n o in
    elim o.library [
      | none ↦ panicked
      | some l ↦ elim (validate_option to_lower l k) [ none ↦ rest | some e ↦ invalid e ]
    ]

-- One round of the loop of `Apply`: the options, and whether the option was changed.
unfoldable pub apply_one : String → Bool → BoolOptions → Option (BoolOptions × Bool)
unfolding is_enabled set_option
apply_one k v o =
    let changed : Option (BoolOptions × Bool) = elim (set_option k v o) [
      | none ↦ none
      | some o' ↦ some (o', true)
    ] in
    if v
    then if is_enabled k o then some (o, false) else changed
    else if is_enabled k o
    then changed
    else some (o, false)

-- `Apply`: the options, and the keys for which `changed` was called.
unfoldable pub apply : OptionMap → BoolOptions → Option (BoolOptions × List String)
unfolding apply_one
apply [] o = some (o, [])
apply ((k, v) ∷ n) o = elim (apply_one k v o) [
  | none ↦ none
  | some (o', did) ↦ elim (apply n o') [
    | none ↦ none
    | some (o'', changes) ↦ some (o'', if did then k ∷ changes else changes)
  ]
]

is_one_of : String → List String → Bool
is_one_of s = any (str_eq s)

-- What `ParseOption` uses of Go's strings: lower case, the first byte of a text with the text after
-- it (`none` for the empty text), and the parts before and after the first `=`.
pub record GoStrings : Type 0 where
  pub to_lower : String → String
  pub uncons : String → Option (ℕ × String)
  pub split_at_equals : String → String × Option String

-- An index into the empty text panics.
pub data Parsed : Type 0 where
  parsed : String → Bool → Parsed
  refused : Error → Parsed
  panics : Parsed

-- The switch on the text after `=`; `none` is its default case.
unfoldable pub parse_value : (String → String) → String → Option Bool
unfolding is_one_of
parse_value to_lower s =
    if is_one_of (to_lower s) ("true" ∷ "on" ∷ "enable" ∷ "enabled" ∷ [])
    then some true
    else if is_one_of (to_lower s) ("false" ∷ "off" ∷ "disable" ∷ "disabled" ∷ [])
    then some false
    else none

unfoldable pub find_option : (String → String) → OptionLibrary → String → Bool → Parsed
unfolding lookup_option
find_option to_lower lib name enabled = elim (lookup_option to_lower lib name) [
  | none ↦ refused (unknown_option name)
  | some (k, spec) ↦
      if str_eq k ""
      then refused (unknown_option name)
      else if spec.immutable
      then refused immutable_option
      else parsed k enabled
]

parse_rest : GoStrings → Bool → String → OptionLibrary → Parsed
parse_rest g enabled arg lib =
    let (name, value) = g.split_at_equals arg in
    elim value [
      | none ↦ find_option g.to_lower lib name enabled
      | some text ↦ elim (parse_value g.to_lower text) [
        | none ↦ refused (invalid_option_value text)
        | some given ↦ find_option g.to_lower lib name given
      ]
    ]

unfoldable pub parse_option : GoStrings → String → OptionLibrary → Parsed
unfolding parse_rest
parse_option g arg lib = elim (g.uncons arg) [
  | none ↦ panics
  | some (c, rest) ↦ if c == b'!' then parse_rest g false rest lib else parse_rest g true arg lib
]
