-- ===== src/Api/Inventory/Resolve.antt =====
-- crates/komodo-api/src/inventory.rs: what the loop over the pages finds.
use mcp_komodo_rs.Prelude.{
  ℕ, suc, ◌<◌, ◌≡◌, refl, ap, Bool, true, leb, List, [], ◌∷◌, ◌++◌, length, take, retain,
  Bool-cases, inl, inr, arith,
}
use mcp_komodo_rs.Prelude.Text.{Text, eq_ignore_ascii_case}
use mcp_komodo_rs.Api.Resources.{ResourceListItem}
use mcp_komodo_rs.Api.Inventory.Pages.{scan}

two_or_more : (n : ℕ) → true ≡ leb 2 (suc (suc n))
two_or_more n = ground arith

module _ {I : Type 0} (name : Text) where
  abbrev pub is_named : ResourceListItem I → Bool
  is_named item = eq_ignore_ascii_case item.name name

  pub retain-append :
      (xs ys : List (ResourceListItem I))
      → retain is_named (xs ++ ys) ≡ retain is_named xs ++ retain is_named ys
  retain-append [] ys = refl
  retain-append (x ∷ xs) ys = elim (Bool-cases (is_named x)) [
    | inl hit ↦ rw hit (ap (λ t. x ∷ t) (retain-append xs ys))
    | inr miss ↦ rw miss (retain-append xs ys)
  ]

  -- A page's items add their matches, up to the second one.
  pub scan_lem :
      (matches items : List (ResourceListItem I))
      → length matches < 2
      → scan name matches items ≡ (
        take 2 (matches ++ retain is_named items),
        leb 2 (length (matches ++ retain is_named items)),
      )
  unfolding scan
  scan_lem [] [] few = refl
  scan_lem (m ∷ []) [] few = refl
  scan_lem (m ∷ n ∷ matches) items few = absurd (omega arith)
  scan_lem [] (item ∷ items) few = elim (Bool-cases (is_named item)) [
    | inl hit ↦ rw hit (scan_lem (item ∷ []) items (omega arith))
    | inr miss ↦ rw miss (scan_lem [] items few)
  ]
  scan_lem (m ∷ []) (item ∷ items) few = elim (Bool-cases (is_named item)) [
    | inl hit ↦
        rw hit
          (ap (λ (b : Bool). (m ∷ item ∷ [], b)) (two_or_more (length (retain is_named items))))
    | inr miss ↦ rw miss (scan_lem (m ∷ []) items few)
  ]
