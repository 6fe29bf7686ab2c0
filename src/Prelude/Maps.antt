-- ===== src/Prelude/Maps.antt =====
-- A Go map with text keys, as the list of its entries in the order in which `range` meets them.
use text.Mathlib.TextPositions.{eq_refl}
use text.Mathlib.TextEquality.{eq_iff}
use text.Mathlib.Text.{◌==◌}
use native.Mathlib.Omega.{arith}
use mathlib.Core.List.{List, [], ◌∷◌}
use mathlib.Core.Option.{Option, none, some}
use mathlib.Core.Path.{◌≡◌, refl}
use Prim.Native.String.{String}
use dcm_policy_manager.Prelude.Tests.{if◌then◌else◌}

abbrev pub Assoc {ℓ} : Type ℓ → Type ℓ
Assoc A = List (String × A)

-- m[key], with whether the key is there
unfoldable pub lookup {ℓ} : {A : Type ℓ} → String → Assoc A → Option A
lookup key [] = none
lookup key (entry ∷ rest) = if entry.0 == key then some entry.1 else lookup key rest

-- m[key] = value
unfoldable pub assign {ℓ} : {A : Type ℓ} → String → A → Assoc A → Assoc A
assign key value [] = (key, value) ∷ []
assign key value (entry ∷ rest) =
    let later = assign key value rest in
    if entry.0 == key then (key, value) ∷ rest else entry ∷ later

pub lookup-assign {ℓ} :
    {A : Type ℓ} (written read : String) (value : A) (entries : Assoc A)
    → lookup read (assign written value entries)
      ≡ (if written == read then some value else lookup read entries)
unfolding assign lookup
lookup-assign written read value [] = refl
lookup-assign written read value (entry ∷ rest) = ground (
  arith,
  lookup-assign written read value rest,
  eq_iff written read,
  eq_iff entry.0 written,
  eq_iff entry.0 read,
)

pub lookup-assign_self {ℓ} :
    {A : Type ℓ} (key : String) (value : A) (entries : Assoc A)
    → lookup key (assign key value entries) ≡ some value
lookup-assign_self key value entries = simp (lookup-assign, eq_refl)
