-- ===== src/Prelude/Maps.antt =====
-- Go maps with string keys, as association lists.
use Prim.Native.String.{String}
use mathlib.Core.Path.{◌≡◌, refl}
use mathlib.Core.Option.{Option, none, some}
use mathlib.Core.List.{List, [], ◌∷◌}
use native.Mathlib.Omega.{arith}
use text.Mathlib.Text.{◌==◌}
use text.Mathlib.TextEquality.{eq_iff}
use kimi_wire_go.Prelude.Tests.{if◌then◌else◌}

module _ {ℓ} {V : Type ℓ} where
  -- v, ok := m[k]
  unfoldable pub lookup : String → List (String × V) → Option V
  lookup key [] = none
  lookup key ((name, value) ∷ rest) =
      let later = lookup key rest in if name == key then some value else later

  -- delete(m, k)
  unfoldable pub delete : String → List (String × V) → List (String × V)
  delete key [] = []
  delete key ((name, value) ∷ rest) =
      let kept = delete key rest in if name == key then kept else (name, value) ∷ kept

  -- m[k] = v
  unfoldable pub insert : String → V → List (String × V) → List (String × V)
  insert key new [] = (key, new) ∷ []
  insert key new ((name, value) ∷ rest) =
      let later = insert key new rest in
      if name == key then (name, new) ∷ rest else (name, value) ∷ later

  pub lookup-insert :
      (key other : String) (new : V) (entries : List (String × V))
      → lookup other (insert key new entries)
        ≡ (if key == other then some new else lookup other entries)
  unfolding lookup insert
  lookup-insert key other new [] = refl
  lookup-insert key other new ((name, value) ∷ rest) = ground (
    arith,
    lookup-insert key other new rest,
    eq_iff name other,
    eq_iff key other,
    eq_iff name key,
  )

  pub lookup-delete :
      (key other : String) (entries : List (String × V))
      → lookup other (delete key entries) ≡ (if key == other then none else lookup other entries)
  unfolding lookup delete
  lookup-delete key other [] = ground arith
  lookup-delete key other ((name, value) ∷ rest) =
      ground
        (arith, lookup-delete key other rest, eq_iff name other, eq_iff key other, eq_iff name key)

  pub delete_missing :
      (key : String) (entries : List (String × V))
      → lookup key entries ≡ none
      → delete key entries ≡ entries
  unfolding lookup delete
  delete_missing key [] h = refl
  delete_missing key ((name, value) ∷ rest) h =
      ground (arith, delete_missing key rest, eq_iff name key)

  -- A key that is new, put in and taken out again.
  pub delete-insert :
      (key : String) (new : V) (entries : List (String × V))
      → lookup key entries ≡ none
      → delete key (insert key new entries) ≡ entries
  unfolding lookup delete insert
  delete-insert key new [] h = ground (arith, eq_iff key key)
  delete-insert key new ((name, value) ∷ rest) h =
      ground (arith, delete-insert key new rest, eq_iff name key)
