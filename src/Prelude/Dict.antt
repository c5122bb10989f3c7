-- ===== src/Prelude/Dict.antt =====
-- A HashMap with text keys: an association list with distinct keys. The program never depends on
-- the order of iteration.
pub mod Laws
use Prim.Native.Nat.{ℕ, ◌+◌}
use mathlib.Core.Path.{◌≡◌}
use mathlib.Core.Bool.{Bool}
use mathlib.Core.Option.{Option, none, some}
use mathlib.Core.List.{List, [], ◌∷◌}
use mcp_komodo_rs.Prelude.Tests.{if◌then◌else◌, is_some}
use mcp_komodo_rs.Prelude.Lists.{retain}
use mcp_komodo_rs.Prelude.Text.{Text, str_eq}

abbrev pub Dict {ℓ} : Type ℓ → Type ℓ
Dict V = List (Text × V)

module _ {ℓ} {V : Type ℓ} where
  -- HashMap::get
  unfoldable pub get : Text → Dict V → Option V
  get k [] = none
  get k ((j, v) ∷ m) = let rest = get k m in if str_eq j k then some v else rest

  -- HashMap::contains_key
  abbrev pub contains_key : Text → Dict V → Bool
  contains_key k m = is_some (get k m)

  -- HashMap::remove
  unfoldable pub remove : Text → Dict V → Dict V
  remove k [] = []
  remove k ((j, v) ∷ m) = let rest = remove k m in if str_eq j k then m else (j, v) ∷ rest

  -- A write through HashMap::get_mut.
  unfoldable pub put : Text → V → Dict V → Dict V
  put k w [] = []
  put k w ((j, v) ∷ m) = let rest = put k w m in if str_eq j k then (j, w) ∷ m else (j, v) ∷ rest

  -- HashMap::retain
  abbrev pub retain_values : (V → Bool) → Dict V → Dict V
  retain_values p m = retain (λ e. p e.1) m

  abbrev pub HasDistinctKeys : Dict V → Type ℓ
  HasDistinctKeys [] = Unit
  HasDistinctKeys ((k, v) ∷ m) = (get k m ≡ none) × HasDistinctKeys m

  -- The total of a measure over the values.
  unfoldable pub total : (V → ℕ) → Dict V → ℕ
  total w [] = 0
  total w ((k, v) ∷ m) = w v + total w m
