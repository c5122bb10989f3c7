-- ===== src/Api/Inventory/Complete.antt =====
-- crates/komodo-api/src/inventory.rs: what a selector resolves to where Core lists the resources in
-- pages.
use mcp_komodo_rs.Prelude.{
  ℕ, zero, suc, ◌+◌, ◌-◌, ◌*◌, ◌^◌, ◌≤◌, ◌<◌, ◌≡◌, refl, sym, ap, ◌∙◌, true, false, ◌==◌, ltb, leb,
  ltb→lt, leb→le, if◌then◌else◌, some, none, List, ◌++◌, length, take, drop, retain, Result, ok,
  Bool-cases, inl, inr, length-take, length-drop, take-append-drop, take_all, take-append, take-add,
  arith,
}
use mcp_komodo_rs.Prelude.Text.{Text}
use mcp_komodo_rs.Prelude.Tasks.{done, call, result, result-bind}
use mcp_komodo_rs.Api.Resources.{ResourceListItem}
use mcp_komodo_rs.Api.Types.{InventoryPage, selector}
use mcp_komodo_rs.Api.Errors.{ApiError}
use mcp_komodo_rs.Api.Inventory.Pages.{
  page_size, max_selector_pages, Request, Answer, lists_page, Client, inventory_page, scan,
  scan_pages, make_page, is_refused, is_object_id, core_2_3_or_later, inventory_inner,
  inventory_by_version,
}
use mcp_komodo_rs.Api.Inventory.Resolve.{is_named, retain-append, scan_lem}

leb-false : (a b : ℕ) → b < a → leb a b ≡ false
leb-false a b h = ground arith

module _ {I : Type 0} (name : Text) (core : List (ResourceListItem I))
    (answers : (r : Request) → Answer I r)
    (pages : (n : ℕ)
      → answers (lists_page (some name) n) ≡ ok (take page_size (drop (page_size * n) core))) where
  -- The resources of the pages before a number, and those of them that have the name.
  abbrev listed : ℕ → List (ResourceListItem I)
  listed n = take (page_size * n) core

  abbrev named : ℕ → List (ResourceListItem I)
  named n = retain (is_named name) (listed n)

  page_last :
      (n : ℕ)
      → length (take page_size (drop (page_size * n) core)) < page_size
      → result answers (inventory_page (some name) n)
        ≡ ok (record { items = take page_size (drop (page_size * n) core); next_page = none })
  unfolding inventory_page make_page
  page_last n short =
      let items = take page_size (drop (page_size * n) core) in
      let fits : ltb page_size (length items) ≡ false = ground arith in
      let partial : (length items == page_size) ≡ false = ground arith in
      rw (pages n, make_page, fits, partial)

  page_full :
      (n : ℕ)
      → length (take page_size (drop (page_size * n) core)) ≡ page_size
      → n < 2 ^ 32 - 1
      → result answers (inventory_page (some name) n)
        ≡ ok (record {
          items = take page_size (drop (page_size * n) core);
          next_page = some (n + 1);
        })
  unfolding inventory_page make_page
  page_full n full small =
      let items = take page_size (drop (page_size * n) core) in
      let fits : ltb page_size (length items) ≡ false = ground arith in
      let whole : (length items == page_size) ≡ true = ground arith in
      let next : leb (2 ^ 32 - 1) n ≡ false = leb-false (2 ^ 32 - 1) n small in
      rw (pages n, make_page, fits, whole, next)

  -- One more page is listed.
  listed_next : (n : ℕ) → listed (n + 1) ≡ listed n ++ take page_size (drop (page_size * n) core)
  listed_next n =
      ap (λ k. take k core) (omega arith) ∙ sym (take-add (page_size * n) page_size core)

  named_next :
      (n : ℕ)
      → named (n + 1)
        ≡ named n ++ retain (is_named name) (take page_size (drop (page_size * n) core))
  named_next n =
      ap (retain (is_named name)) (listed_next n)
      ∙ retain-append name (listed n) (take page_size (drop (page_size * n) core))

  -- Where the matches of some of the pages are two, those of all are the same two.
  two_lem : (n : ℕ) → 2 ≤ length (named n) → take 2 (named n) ≡ take 2 (retain (is_named name) core)
  two_lem n two = sym (
      ap (λ xs. take 2 (retain (is_named name) xs)) (sym (take-append-drop (page_size * n) core))
      ∙ ap (take 2) (retain-append name (listed n) (drop (page_size * n) core))
      ∙ take-append 2 (named n) (retain (is_named name) (drop (page_size * n) core)) two)

  -- Where the pages list everything, they have all matches.
  all_lem : (n : ℕ) → length core ≤ page_size * n → named n ≡ retain (is_named name) core
  all_lem n h = ap (retain (is_named name)) (take_all (page_size * n) core h)

  abbrev pub IsResolved : Result ApiError (InventoryPage I) → Type 0
  IsResolved r = r ≡ ok (record { items = take 2 (retain (is_named name) core); next_page = none })

  -- What the loop does with a page.
  abbrev next : ℕ → ℕ → InventoryPage I → Client I (InventoryPage I)
  next left n response =
      let scanned = scan name (named n) response.items in
      if scanned.1
      then done (ok (record { items = scanned.0; next_page = none }))
      else elim response.next_page [
        | none ↦ done (ok (record { items = scanned.0; next_page = none }))
        | some _ ↦ scan_pages left name (n + 1) scanned.0
      ]

  scanned_lem :
      (n : ℕ)
      → length (named n) < 2
      → scan name (named n) (take page_size (drop (page_size * n) core))
        ≡ (take 2 (named (n + 1)), leb 2 (length (named (n + 1))))
  scanned_lem n few =
      scan_lem name (named n) (take page_size (drop (page_size * n) core)) few
      ∙ ap (λ (xs : List (ResourceListItem I)). (take 2 xs, leb 2 (length xs))) (sym (named_next n))

  last_lem :
      (left n : ℕ)
      → length (named n) < 2
      → length core ≤ page_size * (n + 1)
      → IsResolved (
          result answers (
            next left n
              (record { items = take page_size (drop (page_size * n) core); next_page = none })))
  last_lem left n few all =
      rw (scanned_lem n few, all_lem (n + 1) all)
        (elim (Bool-cases (leb 2 (length (retain (is_named name) core)))) [
          | inl two ↦ rw two refl
          | inr less ↦ rw less refl
        ])

  full_lem :
      (left n : ℕ)
      → length (named n) < 2
      → (length (named (n + 1)) < 2
          → IsResolved (result answers (scan_pages left name (n + 1) (named (n + 1)))))
      → IsResolved (
          result answers (
            next left n (record {
              items = take page_size (drop (page_size * n) core);
              next_page = some (n + 1);
            })))
  full_lem left n few rest = elim (Bool-cases (leb 2 (length (named (n + 1))))) [
    | inl two ↦
        rw (scanned_lem n few, two)
          (ap (λ (xs : List (ResourceListItem I)). ok (record { items = xs; next_page = none }))
            (two_lem (n + 1) (leb→le _ _ two)))
    | inr less ↦
        rw (scanned_lem n few, less, take_all 2 (named (n + 1)) (ground arith))
          (rest (ground arith))
  ]

  scan_pages_lem :
      (left n : ℕ)
      → n + left ≡ max_selector_pages
      → length core < page_size * max_selector_pages
      → length (named n) < 2
      → page_size * n ≤ length core
      → IsResolved (result answers (scan_pages left name n (named n)))
  unfolding scan_pages
  scan_pages_lem zero n total short few before = absurd (omega arith)
  scan_pages_lem (suc left) n total short few before =
      let items = take page_size (drop (page_size * n) core) in
      let measure = length-take page_size (drop (page_size * n) core) in
      let rest = length-drop (page_size * n) core in
      elim (Bool-cases (ltb (length items) page_size)) [
        | inl partial ↦
            result-bind answers (next left n) _ (inventory_page (some name) n)
              (page_last n (ltb→lt _ _ partial))
            ∙ last_lem left n few (omega (arith, measure, rest, ltb→lt _ _ partial))
        | inr full ↦
            let whole : length items ≡ page_size = ground (arith, measure) in
            result-bind answers (next left n) _ (inventory_page (some name) n)
              (page_full n whole (omega arith))
            ∙ full_lem left n few λ few'.
              scan_pages_lem left (n + 1) (omega arith) short few'
                (omega (arith, measure, rest, whole))
      ]

  -- On a Core that is current and lists in pages fewer than 1,600 resources for the terms of a valid
  -- selector that is no object id, the selector resolves to the first two of the resources that have
  -- exactly this name, in any case, or to all of them where they are fewer.
  pub inventory_resolves :
      is_refused name ≡ false
      → is_object_id name ≡ false
      → answers core_2_3_or_later ≡ ok true
      → length core < page_size * max_selector_pages
      → result answers (inventory_inner (selector name))
        ≡ ok (record { items = take 2 (retain (is_named name) core); next_page = none })
  unfolding inventory_inner inventory_by_version
  inventory_resolves valid no_id current short =
      rw (valid, no_id)
        (result-bind answers _ true (call core_2_3_or_later λ r. done r) current
          ∙ scan_pages_lem max_selector_pages 0 refl short (omega arith) (omega arith))
