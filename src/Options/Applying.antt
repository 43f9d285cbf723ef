-- ===== src/Options/Applying.antt =====
-- What applying a map of options does.
use embd_project.Prelude.{
  String, ◌≡◌, ◌∙◌, ap, refl, Bool, true, false, List, [], ◌∷◌, some, str_eq, eq_iff, arith,
  if◌then◌else◌, Bool-cases, inl, inr,
}
use embd_project.Prelude.Maps.{insert, lookup-insert}
use embd_project.Options.{OptionMap, BoolOptions, is_enabled, set_option, apply_one, apply}

-- Whether a key is set by a map, and else the value that it has: the last entry of the key counts.
abbrev pub wanted : String → OptionMap → Bool → Bool
wanted k [] was = was
wanted k ((j, v) ∷ n) was = wanted k n (if str_eq j k then v else was)

-- A round on options with a map does not panic.
apply_one-is_enabled :
    (j k : String) (v : Bool) (o : BoolOptions) (om : OptionMap)
    → o.opts ≡ some om
    → (o' : BoolOptions) × (did : Bool) × (om' : OptionMap) × (apply_one k v o ≡ some (o', did))
      × (o'.opts ≡ some om')
      × (o'.library ≡ o.library)
      × (is_enabled j o' ≡ (if str_eq k j then v else is_enabled j o))
unfolding is_enabled set_option apply_one
apply_one-is_enabled j k v o om e =
    elim (Bool-cases (if v then is_enabled k o else if is_enabled k o then false else true)) [
      | inl same ↦ (o, false, om, ground (arith, same), e, refl, ground (arith, same, eq_iff k j))
      | inr other ↦ (
        record o { opts = some (insert k v om) },
        true,
        insert k v om,
        ground (arith, other, e),
        refl,
        refl,
        ground (arith, e, lookup-insert k j v om, eq_iff k j),
      )
    ]

-- `Apply` on options with a map does not panic, and afterwards each option is enabled just as the
-- applied map says, and options that the map does not name are as before.
pub is_enabled-apply :
    (j : String) (n : OptionMap) (o : BoolOptions) (om : OptionMap)
    → o.opts ≡ some om
    → (o' : BoolOptions) × (changes : List String) × (om' : OptionMap) × (apply n o
        ≡ some (o', changes))
      × (o'.opts ≡ some om')
      × (o'.library ≡ o.library)
      × (is_enabled j o' ≡ wanted j n (is_enabled j o))
unfolding apply
is_enabled-apply j [] o om e = (o, [], om, refl, e, refl, refl)
is_enabled-apply j ((k, v) ∷ n) o om e =
    let (o', did, om', ran, e', same, enabled) = apply_one-is_enabled j k v o om e in
    let (o'', changes, om'', ran', e'', same', enabled') = is_enabled-apply j n o' om' e' in
    (
      o'',
      if did then k ∷ changes else changes,
      om'',
      rw (apply, ran, ran') refl,
      e'',
      same' ∙ same,
      enabled' ∙ ap (wanted j n) enabled,
    )
