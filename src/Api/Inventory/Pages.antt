-- ===== src/Api/Inventory/Pages.antt =====
-- crates/komodo-api/src/inventory.rs: `from_legacy`, `inventory_page`, `inventory_inner` and
-- `inventory`, as tasks over the requests of the client.
use mcp_komodo_rs.Prelude.{
  ℕ, zero, suc, ◌+◌, ◌-◌, ◌^◌, Bool, true, false, not, ◌&&◌, ◌||◌, ◌==◌, ltb, leb, if◌then◌else◌,
  Option, some, none, List, [], ◌∷◌, ◌++◌, length, any, all, is_empty, Result, ok, err, refuse,
}
use mcp_komodo_rs.Prelude.Text.{Text, text, len, as_bytes, is_control, str_eq, eq_ignore_ascii_case}
use mcp_komodo_rs.Prelude.Tasks.{Task, done, call, ◌>>=◌, ◌>>◌, await}
use mcp_komodo_rs.Api.Resources.{ResourceListItem}
use mcp_komodo_rs.Api.Types.{InventoryRequest, page, selector, InventoryPage}
use mcp_komodo_rs.Api.Errors.{
  ApiError, invalid_configuration, incompatible_response, inventory_pagination_unsupported,
  inventory_selector_too_broad,
}

abbrev pub page_size : ℕ
page_size = 100

abbrev pub max_selector_pages : ℕ
max_selector_pages = 16

-- The requests: `post` with the query of the given names, with one page of the given terms, and
-- without a query (`read`); and `core_2_3_or_later`. The variant of the resource is fixed.
pub data Request : Type 0 where
  lists_names : Text → Request
  lists_page : Option Text → ℕ → Request
  lists_all : Request
  core_2_3_or_later : Request

abbrev pub Answer : Type 0 → Request → Type 0
Answer I (lists_names name) = Result ApiError (List (ResourceListItem I))
Answer I (lists_page terms number) = Result ApiError (List (ResourceListItem I))
Answer I lists_all = Result ApiError (List (ResourceListItem I))
Answer I core_2_3_or_later = Result ApiError Bool

-- u8::is_ascii_hexdigit
abbrev pub is_ascii_hexdigit : ℕ → Bool
is_ascii_hexdigit b =
    (leb b'0' b && leb b b'9') || ((leb b'A' b && leb b b'F') || (leb b'a' b && leb b b'f'))

abbrev pub is_later_page : InventoryRequest → Bool
is_later_page (page n) = leb 1 n
is_later_page (selector name) = false

-- The selectors that are refused, and those that are object ids.
unfoldable pub is_refused : Text → Bool
unfolding len
is_refused name = is_empty name || (ltb 128 (len name) || any is_control name)

unfoldable pub is_object_id : Text → Bool
unfolding len
is_object_id name = len name == 24 && all is_ascii_hexdigit (as_bytes name)

-- What the client does, over its requests.
abbrev pub Client : Type 0 → Type 0 → Type 0
Client I A = Task Request (Answer I) ApiError A

-- `page.checked_add(1)` of a u32
abbrev pub checked_next : ℕ → Result ApiError (Option ℕ)
checked_next number =
    if leb (2 ^ 32 - 1) number then err incompatible_response else ok (some (number + 1))

-- The bodies of `for item in response.items`: the matches, and whether the second one was found.
unfoldable pub scan :
    {I : Type 0}
    → Text
    → List (ResourceListItem I)
    → List (ResourceListItem I)
    → List (ResourceListItem I) × Bool
scan name matches [] = (matches, false)
scan name matches (item ∷ items) =
    let more = matches ++ item ∷ [] in
    let pushed = scan name more items in
    let skipped = scan name matches items in
    if eq_ignore_ascii_case item.name name
    then if length more == 2 then (more, true) else pushed
    else skipped

module _ {I : Type 0} where
  unfoldable pub from_legacy :
      List (ResourceListItem I) → InventoryRequest → Result ApiError (InventoryPage I)
  from_legacy items request =
      if is_later_page request
      then err inventory_pagination_unsupported
      else ok (record { items = items; next_page = none })

  -- The page that the items of a reply make.
  unfoldable pub make_page :
      ℕ → Result ApiError (List (ResourceListItem I)) → Result ApiError (InventoryPage I)
  make_page number (err e) = err e
  make_page number (ok items) =
      if ltb page_size (length items)
      then err incompatible_response
      else if length items == page_size
      then with_next items (checked_next number)
      else ok (record { items = items; next_page = none })
    where
      with_next :
          List (ResourceListItem I) → Result ApiError (Option ℕ) → Result ApiError (InventoryPage I)
      with_next items (ok next) = ok (record { items = items; next_page = next })
      with_next items (err e) = err e

  unfoldable pub inventory_page : Option Text → ℕ → Client I (InventoryPage I)
  inventory_page terms number =
      call (lists_page terms number) λ reply. done (make_page number reply)

  -- `for page in …` from a page on, with the number of pages that are left.
  unfoldable pub scan_pages : ℕ → Text → ℕ → List (ResourceListItem I) → Client I (InventoryPage I)
  scan_pages zero name number matches = done (err inventory_selector_too_broad)
  scan_pages (suc left) name number matches = do
    response ← inventory_page (some name) number
    let scanned = scan name matches response.items
    if scanned.1
        then done (ok (record { items = scanned.0; next_page = none }))
        else elim response.next_page [
          | none ↦ done (ok (record { items = scanned.0; next_page = none }))
          | some _ ↦ scan_pages left name (number + 1) scanned.0
        ]

  -- `InventoryPage::from_legacy(self.read(variant).await?, request)`
  unfoldable pub legacy_inventory : InventoryRequest → Client I (InventoryPage I)
  legacy_inventory request = do
    reply ← await lists_all
    items ← done reply
    done (from_legacy items request)

  -- `inventory_inner` after the shortcut for object ids.
  unfoldable pub inventory_by_version : InventoryRequest → Client I (InventoryPage I)
  inventory_by_version request = do
    version ← await core_2_3_or_later
    current ← done version
    if not current
        then if is_later_page request
          then done (err inventory_pagination_unsupported)
          else legacy_inventory request
        else elim request [
          | page number ↦ inventory_page none number
          | selector name ↦ scan_pages max_selector_pages name 0 []
        ]

  -- The query for an object id: its items if one has it, else what other requests give.
  unfoldable pub inventory_by_id : Text → Client I (InventoryPage I)
  inventory_by_id name = do
    reply ← await (lists_names name)
    items ← done reply
    if any (λ item. str_eq item.id name) items
        then done (ok (record { items = items; next_page = none }))
        else inventory_by_version (selector name)

  unfoldable pub inventory_inner : InventoryRequest → Client I (InventoryPage I)
  inventory_inner (page number) = inventory_by_version (page number)
  inventory_inner (selector name) =
      done (refuse (is_refused name) (invalid_configuration (text "inventory selector")))
      >> (if is_object_id name then inventory_by_id name else inventory_by_version (selector name))

  -- `inventory`, where `times_out` says whether the timeout of 30 seconds ends a selector's reads.
  unfoldable pub inventory :
      Bool
      → InventoryRequest
      → Result ApiError (InventoryPage I)
      → Result ApiError (InventoryPage I)
  inventory times_out (page number) result = result
  inventory times_out (selector name) result =
      if times_out then err inventory_selector_too_broad else result
