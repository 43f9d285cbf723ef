-- ===== src/Prelude/Maps.antt =====
-- A Go map with text keys as an association list: its reads, writes, deletions and their laws.
use Prim.Native.String.{String}
use mathlib.Core.Path.{◌≡◌, refl}
use mathlib.Core.Logic.{inl, inr}
use mathlib.Core.List.{List, [], ◌∷◌}
use mathlib.Core.Option.{Option, none, some}
use native.Mathlib.Omega.{arith}
use text.Mathlib.Text.{◌==◌ as str_eq}
use text.Mathlib.TextEquality.{eq_iff}
use embd_project.Prelude.Tests.{if◌then◌else◌, Bool-cases}

module _ {ℓ} {V : Type ℓ} where
  -- `v, ok := m[key]`
  unfoldable pub lookup : String → List (String × V) → Option V
  lookup key [] = none
  lookup key ((at, v) ∷ tail) = if str_eq at key then some v else lookup key tail

  -- `m[key] = new`
  unfoldable pub insert : String → V → List (String × V) → List (String × V)
  insert key new [] = (key, new) ∷ []
  insert key new ((at, v) ∷ tail) =
      let later = insert key new tail in
      if str_eq at key then (key, new) ∷ tail else (at, v) ∷ later

  -- `delete(m, key)`
  unfoldable pub delete : String → List (String × V) → List (String × V)
  delete key [] = []
  delete key ((at, v) ∷ tail) =
      let later = delete key tail in if str_eq at key then later else (at, v) ∷ later

  pub lookup-insert :
      (key j : String) (new : V) (entries : List (String × V))
      → lookup j (insert key new entries) ≡ (if str_eq key j then some new else lookup j entries)
  unfolding lookup insert
  lookup-insert key j new [] = refl
  lookup-insert key j new ((at, v) ∷ tail) =
      ground (arith, lookup-insert key j new tail, eq_iff at j, eq_iff at key, eq_iff key j)

  pub lookup-delete :
      (key j : String) (entries : List (String × V))
      → lookup j (delete key entries) ≡ (if str_eq key j then none else lookup j entries)
  unfolding lookup delete
  lookup-delete key j [] = ground arith
  lookup-delete key j ((at, v) ∷ tail) =
      ground (arith, lookup-delete key j tail, eq_iff at j, eq_iff at key, eq_iff key j)

  -- A Go map has no key twice.
  abbrev pub DistinctKeys : List (String × V) → Type ℓ
  DistinctKeys [] = Unit
  DistinctKeys ((at, v) ∷ tail) = (lookup at tail ≡ none) × DistinctKeys tail

  pub insert-DistinctKeys :
      (key : String) (new : V) (entries : List (String × V))
      → DistinctKeys entries
      → DistinctKeys (insert key new entries)
  unfolding lookup insert
  insert-DistinctKeys key new [] d = (refl, tt)
  insert-DistinctKeys key new ((at, v) ∷ tail) d = elim (Bool-cases (str_eq at key)) [
    | inl hit ↦ rw hit (ground (arith, (eq_iff at key).0 hit, d.0), d.1)
    | inr miss ↦ rw miss (
      ground (arith, lookup-insert key at new tail, d.0, eq_iff key at, eq_iff at key),
      insert-DistinctKeys key new tail d.1,
    )
  ]

  pub delete-DistinctKeys :
      (key : String) (entries : List (String × V))
      → DistinctKeys entries
      → DistinctKeys (delete key entries)
  unfolding delete
  delete-DistinctKeys key [] d = tt
  delete-DistinctKeys key ((at, v) ∷ tail) d = elim (Bool-cases (str_eq at key)) [
    | inl hit ↦ rw hit (delete-DistinctKeys key tail d.1)
    | inr miss ↦
        rw miss (ground (arith, lookup-delete key at tail, d.0), delete-DistinctKeys key tail d.1)
  ]
