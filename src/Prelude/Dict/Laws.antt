-- ===== src/Prelude/Dict/Laws.antt =====
-- The laws of a HashMap with text keys.
use Prim.Native.Nat.{ℕ, ◌+◌, ◌≤◌}
use mathlib.Core.Path.{◌≡◌, refl, subst}
use mathlib.Core.Logic.{◌≢◌, inl, inr}
use mathlib.Core.Bool.{Bool, true}
use mathlib.Core.Option.{none, some}
use mathlib.Core.List.{[], ◌∷◌}
use native.Mathlib.Omega.{arith}
use mcp_komodo_rs.Prelude.Tests.{Bool-cases}
use mcp_komodo_rs.Prelude.Lists.{length}
use mcp_komodo_rs.Prelude.Text.{Text, str_eq, str_eq_refl, str_eq_iff}
use mcp_komodo_rs.Prelude.Dict.{Dict, get, remove, put, retain_values, HasDistinctKeys, total}

module _ {ℓ} {V : Type ℓ} where
  pub get-cons_self : (k : Text) (v : V) (m : Dict V) → get k ((k, v) ∷ m) ≡ some v
  unfolding get
  get-cons_self k v m = rw (str_eq_refl k)

  pub get-put_self :
      (k : Text) (w : V) (m : Dict V) {v : V} → get k m ≡ some v → get k (put k w m) ≡ some w
  unfolding get put
  get-put_self k w [] h = cc
  get-put_self k w ((j, u) ∷ m) {v} h = ground (arith, get-put_self k w m {v = v})

  pub get-put_ne : (k j : Text) (w : V) (m : Dict V) → k ≢ j → get j (put k w m) ≡ get j m
  unfolding get put
  get-put_ne k j w [] h = refl
  get-put_ne k j w ((i, u) ∷ m) h =
      ground (arith, get-put_ne k j w m h, str_eq_iff i k, str_eq_iff i j)

  pub get-remove_ne : (k j : Text) (m : Dict V) → k ≢ j → get j (remove k m) ≡ get j m
  unfolding get remove
  get-remove_ne k j [] h = refl
  get-remove_ne k j ((i, u) ∷ m) h =
      ground (arith, get-remove_ne k j m h, str_eq_iff i k, str_eq_iff i j)

  pub get-remove_self : (k : Text) (m : Dict V) → HasDistinctKeys m → get k (remove k m) ≡ none
  unfolding get remove
  get-remove_self k [] h = refl
  get-remove_self k ((i, u) ∷ m) (fresh, h) = ground (arith, get-remove_self k m h, str_eq_iff i k)

  get-remove-none : (k j : Text) (m : Dict V) → get j m ≡ none → get j (remove k m) ≡ none
  unfolding get remove
  get-remove-none k j [] h = refl
  get-remove-none k j ((i, u) ∷ m) h = ground (arith, get-remove-none k j m)

  get-put-none : (k j : Text) (w : V) (m : Dict V) → get j m ≡ none → get j (put k w m) ≡ none
  unfolding get put
  get-put-none k j w [] h = refl
  get-put-none k j w ((i, u) ∷ m) h = ground (arith, get-put-none k j w m)

  pub get-retain-none :
      (p : V → Bool) (j : Text) (m : Dict V) → get j m ≡ none → get j (retain_values p m) ≡ none
  unfolding get
  get-retain-none p j [] h = refl
  get-retain-none p j ((i, u) ∷ m) h = ground (arith, get-retain-none p j m)

  -- What a kept key gives was there before and passes the test.
  pub get-retain_sound :
      (p : V → Bool) (j : Text) (m : Dict V) (v : V)
      → HasDistinctKeys m
      → get j (retain_values p m) ≡ some v
      → (get j m ≡ some v) × (p v ≡ true)
  unfolding get
  get-retain_sound p j [] v d h = cc
  get-retain_sound p j ((i, u) ∷ m) v (fresh, d) h =
      ground (arith, get-retain_sound p j m v d, get-retain-none p j m, str_eq_iff i j)

  pub get-retain_complete :
      (p : V → Bool) (j : Text) (m : Dict V) (v : V)
      → get j m ≡ some v
      → p v ≡ true
      → get j (retain_values p m) ≡ some v
  unfolding get
  get-retain_complete p j [] v h k = cc
  get-retain_complete p j ((i, u) ∷ m) v h k =
      ground (arith, get-retain_complete p j m v, str_eq_iff i j)

  pub remove-HasDistinctKeys :
      (k : Text) (m : Dict V) → HasDistinctKeys m → HasDistinctKeys (remove k m)
  unfolding remove
  remove-HasDistinctKeys k [] h = tt
  remove-HasDistinctKeys k ((i, u) ∷ m) (fresh, h) =
      ground (arith, remove-HasDistinctKeys k m h, get-remove-none k i m fresh)

  pub put-HasDistinctKeys :
      (k : Text) (w : V) (m : Dict V) → HasDistinctKeys m → HasDistinctKeys (put k w m)
  unfolding put
  put-HasDistinctKeys k w [] h = tt
  put-HasDistinctKeys k w ((i, u) ∷ m) (fresh, h) =
      ground (arith, put-HasDistinctKeys k w m h, get-put-none k i w m fresh)

  pub retain-HasDistinctKeys :
      (p : V → Bool) (m : Dict V) → HasDistinctKeys m → HasDistinctKeys (retain_values p m)
  retain-HasDistinctKeys p [] h = tt
  retain-HasDistinctKeys p ((i, u) ∷ m) (fresh, h) =
      ground (arith, retain-HasDistinctKeys p m h, get-retain-none p i m fresh)

  pub length-remove-le : (k : Text) (m : Dict V) → length (remove k m) ≤ length m
  unfolding remove
  length-remove-le k [] = omega arith
  length-remove-le k ((i, u) ∷ m) = ground (arith, length-remove-le k m)

  pub length-put : (k : Text) (w : V) (m : Dict V) → length (put k w m) ≡ length m
  unfolding put
  length-put k w [] = refl
  length-put k w ((i, u) ∷ m) = ground (arith, length-put k w m)

module _ {ℓ} {V : Type ℓ} (w : V → ℕ) where
  -- Removing, replacing and retaining move the total by what goes and what comes.
  pub total-remove :
      (k : Text) (m : Dict V) (v : V) → get k m ≡ some v → total w (remove k m) + w v ≡ total w m
  unfolding get remove total
  total-remove k [] v h = cc
  total-remove k ((i, u) ∷ m) v h = ground (arith, total-remove k m v)

  pub total-put :
      (k : Text) (m : Dict V) (v u : V)
      → get k m ≡ some v
      → total w (put k u m) + w v ≡ total w m + w u
  unfolding get put total
  total-put k [] v u h = cc
  total-put k ((i, x) ∷ m) v u h = ground (arith, total-put k m v u)

module _ {ℓ κ} {V : Type ℓ} (P : V → Type κ) where
  -- What holds of every value.
  abbrev pub AllValues : Dict V → Type κ
  AllValues [] = Unit
  AllValues ((k, v) ∷ m) = P v × AllValues m

  pub AllValues-get : (k : Text) (m : Dict V) (v : V) → AllValues m → get k m ≡ some v → P v
  unfolding get
  AllValues-get k [] v h e = cc
  AllValues-get k ((i, u) ∷ m) v (here, later) e = elim (Bool-cases (str_eq i k)) [
    | inl same ↦ subst P (ground arith) here
    | inr other ↦ AllValues-get k m v later (ground arith)
  ]

  pub AllValues-remove : (k : Text) (m : Dict V) → AllValues m → AllValues (remove k m)
  unfolding remove
  AllValues-remove k [] h = tt
  AllValues-remove k ((i, u) ∷ m) (here, later) = elim (Bool-cases (str_eq i k)) [
    | inl same ↦ rw same later
    | inr other ↦ rw other (here, AllValues-remove k m later)
  ]

  pub AllValues-put : (k : Text) (w : V) (m : Dict V) → P w → AllValues m → AllValues (put k w m)
  unfolding put
  AllValues-put k w [] new h = tt
  AllValues-put k w ((i, u) ∷ m) new (here, later) = elim (Bool-cases (str_eq i k)) [
    | inl same ↦ rw same (new, later)
    | inr other ↦ rw other (here, AllValues-put k w m new later)
  ]

  pub AllValues-retain : (p : V → Bool) (m : Dict V) → AllValues m → AllValues (retain_values p m)
  AllValues-retain p [] h = tt
  AllValues-retain p ((i, u) ∷ m) (here, later) = elim (Bool-cases (p u)) [
    | inl kept ↦ rw kept (here, AllValues-retain p m later)
    | inr gone ↦ rw gone (AllValues-retain p m later)
  ]
