-- ===== src/Mcp/Inputs/Selects.antt =====
-- crates/komodo-mcp/src/lib.rs: what `select` picks.
use mcp_komodo_rs.Prelude.{
  ◌≡◌, refl, sym, ap, ◌∙◌, ◌≢◌, ◌⊎◌, inl, inr, Bool, true, false, none, List, [], ◌∷◌, retain, find,
  ok, Memᴰ, mem-retain_sound, mem-retain_complete, find_sound, Option-cases, Bool-cases, arith,
}
use mcp_komodo_rs.Prelude.Memᴰ as Memᴰ
use mcp_komodo_rs.Prelude.Text.{Text, str_eq, str_eq_sound, str_eq_iff, eq_ignore_ascii_case}
use mcp_komodo_rs.Api.Resources.{ResourceListItem}
use mcp_komodo_rs.Mcp.Inputs.Validate.{is_selector, validate_selector}
use mcp_komodo_rs.Mcp.Inputs.Select.{only, select}

module _ {I : Type 0} where
  -- The item has the name, in any case, it alone does, and no item has the selector for its id.
  pub record IsNamedAlone (items : List (ResourceListItem I)) (selector : Text)
      (item : ResourceListItem I) : Type 0 where
    pub named : eq_ignore_ascii_case item.name selector ≡ true
    pub alone :
        (other : ResourceListItem I)
        → Memᴰ other items
        → eq_ignore_ascii_case other.name selector ≡ true
        → other ≡ item
    pub no_id : (other : ResourceListItem I) → Memᴰ other items → other.id ≢ selector

  pub record IsSelected (items : List (ResourceListItem I)) (selector : Text)
      (item : ResourceListItem I) : Type 0 where
    pub valid : is_selector selector ≡ true
    pub listed : Memᴰ item items
    pub meant : (item.id ≡ selector) ⊎ IsNamedAlone items selector item

  find-none :
      (p : ResourceListItem I → Bool) (items : List (ResourceListItem I))
      → find p items ≡ none
      → (other : ResourceListItem I) → Memᴰ other items
      → p other ≡ false
  find-none p [] h other m = absurd (Memᴰ.not-nil m)
  find-none p (x ∷ items) h other m = elim (Bool-cases (p x)) [
    | inl hit ↦ absurd (cc (rw hit at h))
    | inr miss ↦ elim (Memᴰ.cases_cons m) [
      | inl e ↦ ap p e ∙ miss
      | inr m ↦ find-none p items (rw miss at h) other m
    ]
  ]

  only_lem :
      (items : List (ResourceListItem I)) (item : ResourceListItem I)
      → only items ≡ ok item
      → items ≡ item ∷ []
  unfolding only
  only_lem [] item h = cc
  only_lem (x ∷ []) item h = cc
  only_lem (x ∷ y ∷ items) item h = cc

  named_lem :
      (items : List (ResourceListItem I)) (selector : Text) (item : ResourceListItem I)
      → find (λ item. str_eq item.id selector) items ≡ none
      → retain (λ item. eq_ignore_ascii_case item.name selector) items ≡ item ∷ []
      → Memᴰ item items × IsNamedAlone items selector item
  named_lem items selector item no_id e =
      let matches = λ (item : ResourceListItem I). eq_ignore_ascii_case item.name selector in
      let (listed, named) = mem-retain_sound matches item items (rw e (Memᴰ.head refl)) in
      (
        listed,
        record {
          named = named;
          alone = λ other m same.
              Memᴰ.eq_of_singleton (rw e at (mem-retain_complete matches other items m same));
          no_id = λ other m id. absurd (
              ground (
                arith,
                find-none (λ item. str_eq item.id selector) items no_id other m,
                str_eq_iff other.id selector,
              ));
        },
      )

  -- `select` succeeds only with an item of the list, for a valid selector, that has the selector for
  -- its id, or, where no item has, is the only one with that name in any case.
  pub select_sound :
      (items : List (ResourceListItem I)) (selector : Text) (item : ResourceListItem I)
      → select items selector ≡ ok item
      → IsSelected items selector item
  unfolding select validate_selector
  select_sound items selector item h = elim (Bool-cases (is_selector selector)) [
    | inr invalid ↦ absurd (cc (rw (invalid, select, validate_selector) at h))
    | inl valid ↦ elim (Option-cases (find (λ item. str_eq item.id selector) items)) [
      | inr (found, e) ↦
          let same : found ≡ item = cc (rw (valid, select, validate_selector, e) at h) in
          let (listed, id) = find_sound (λ item. str_eq item.id selector) found items e in
          rw (sym same) (record {
            valid = valid;
            listed = listed;
            meant = inl (str_eq_sound found.id selector id);
          })
      | inl missing ↦
          let (listed, meant) = named_lem items selector item missing (
            only_lem (retain (λ item. eq_ignore_ascii_case item.name selector) items) item
              (rw (valid, select, validate_selector, missing) at h)) in
          record { valid = valid; listed = listed; meant = inr meant }
    ]
  ]
