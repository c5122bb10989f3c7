-- ===== src/Mcp/Inputs/Found.antt =====
-- crates/komodo-mcp/src/lib.rs: what `select` finds.
use mcp_komodo_rs.Prelude.{
  ◌≤◌, ◌≡◌, ◌≢◌, refl, ap, Bool, true, false, none, some, List, [], ◌∷◌, ◌++◌, retain, find,
  is_empty, All, ok, arith, Bool-cases, inl, inr,
}
use mcp_komodo_rs.Prelude.Text.{Text, len, str_eq, str_eq_sound, str_eq_iff, eq_ignore_ascii_case}
use mcp_komodo_rs.Api.Resources.{ResourceListItem}
use mcp_komodo_rs.Mcp.Inputs.Validate.{has_control, is_selector, validate_selector}
use mcp_komodo_rs.Mcp.Inputs.Select.{only, select}

-- A selector of 1 to 128 bytes without a control character.
pub record IsSelector (name : Text) : Type 0 where
  pub filled : is_empty name ≡ false
  pub short : len name ≤ 128
  pub plain : has_control name ≡ false

module _ {A : Type 0} (p : A → Bool) where
  find-first :
      (before after : List A) (a : A)
      → All (λ b. p b ≡ false) before
      → p a ≡ true
      → find p (before ++ a ∷ after) ≡ some a
  find-first [] after a miss hit = rw hit
  find-first (b ∷ before) after a miss hit = rw (miss.0) (find-first before after a miss.1 hit)

  find-nowhere : (xs : List A) → All (λ b. p b ≡ false) xs → find p xs ≡ none
  find-nowhere [] miss = refl
  find-nowhere (b ∷ xs) miss = rw (miss.0) (find-nowhere xs miss.1)

  retain-nothing : (xs : List A) → All (λ b. p b ≡ false) xs → retain p xs ≡ []
  retain-nothing [] miss = refl
  retain-nothing (b ∷ xs) miss = rw (miss.0) (retain-nothing xs miss.1)

  retain-alone :
      (before after : List A) (a : A)
      → All (λ b. p b ≡ false) before
      → p a ≡ true
      → All (λ b. p b ≡ false) after
      → retain p (before ++ a ∷ after) ≡ a ∷ []
  retain-alone [] after a miss hit rest = rw hit (ap (λ l. a ∷ l) (retain-nothing after rest))
  retain-alone (b ∷ before) after a miss hit rest =
      rw (miss.0) (retain-alone before after a miss.1 hit rest)

module _ {I : Type 0} where
  -- The item is the first whose id is the selector, or, where there is none, the only one with that name,
  -- in any case.
  pub data IsFound (items : List (ResourceListItem I)) (name : Text)
      : ResourceListItem I → Type 0 where
    by_id :
        (before after : List (ResourceListItem I)) (item : ResourceListItem I)
        → items ≡ before ++ item ∷ after
        → All (λ other. other.id ≢ name) before
        → item.id ≡ name
        → IsFound items name item
    by_name :
        (before after : List (ResourceListItem I)) (item : ResourceListItem I)
        → items ≡ before ++ item ∷ after
        → All (λ other. other.id ≢ name) items
        → All (λ other. eq_ignore_ascii_case other.name name ≡ false) before
        → eq_ignore_ascii_case item.name name ≡ true
        → All (λ other. eq_ignore_ascii_case other.name name ≡ false) after
        → IsFound items name item

  differ_lem :
      (items : List (ResourceListItem I)) (name : Text)
      → All (λ other. other.id ≢ name) items
      → All (λ other. str_eq other.id name ≡ false) items
  differ_lem [] name h = tt
  differ_lem (item ∷ items) name h = (
    elim (Bool-cases (str_eq item.id name)) [
      | inl same ↦ absurd (h.0 (str_eq_sound item.id name same))
      | inr differs ↦ differs
    ],
    differ_lem items name h.1,
  )

  pub select_complete :
      (items : List (ResourceListItem I)) (name : Text) (item : ResourceListItem I)
      → IsSelector name
      → IsFound items name item
      → select items name ≡ ok item
  unfolding select validate_selector is_selector only
  select_complete items name _ valid (by_id before after item split others same) =
      let accepted : is_selector name ≡ true =
        ground (arith, valid.filled, valid.short, valid.plain) in
      let hit : str_eq item.id name ≡ true = ground (arith, str_eq_iff item.id name) in
      rw
        (
          accepted,
          split,
          find-first (λ item. str_eq item.id name) before after item (differ_lem before name others)
              hit,
        )
        refl
  select_complete items name _ valid (by_name before after item split no_id others same rest) =
      let accepted : is_selector name ≡ true =
        ground (arith, valid.filled, valid.short, valid.plain) in
      rw
        (
          accepted,
          find-nowhere (λ item. str_eq item.id name) items (differ_lem items name no_id),
          split,
          retain-alone (λ item. eq_ignore_ascii_case item.name name) before after item others same
              rest,
        )
        refl
