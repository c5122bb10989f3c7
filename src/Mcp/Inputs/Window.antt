-- ===== src/Mcp/Inputs/Window.antt =====
-- crates/komodo-mcp/src/lib.rs: `CollectionWindow`, `CollectionPage` and `collection_page`.
use mcp_komodo_rs.Prelude.{
  ℕ, suc, zero, ◌+◌, ◌-◌, ◌^◌, ◌≤◌, ◌<◌, ◌≡◌, refl, ap, min, Bool, true, false, not, ◌||◌, ◌==◌,
  ltb, Option, some, none, is_some, unwrap_or, List, [], ◌++◌, length, take, drop, Result, ok,
  ◌>>=◌, ◌>>◌, refuse, Bool-cases, inl, inr, length-drop, take-append-drop, drop-drop, take_all,
  ltb→lt, arith,
}
use mcp_komodo_rs.Prelude.Text.{text}
use mcp_komodo_rs.Mcp.Errors.{McpError, invalid_params}

abbrev pub default_content_items : ℕ
default_content_items = 250

abbrev pub max_collection_offset : ℕ
max_collection_offset = 2_097_152

-- The largest usize, of 64 bits.
abbrev pub usize_max : ℕ
usize_max = 2 ^ 64 - 1

-- usize::saturating_add
abbrev pub saturating_add : ℕ → ℕ → ℕ
saturating_add a b = min (a + b) usize_max

pub record CollectionWindow : Type 0 where
  pub offset : ℕ
  pub limit : ℕ

-- CollectionWindow::default
abbrev pub default : CollectionWindow
default = record { offset = 0; limit = default_content_items }

abbrev pub is_window : CollectionWindow → Bool
is_window window = not (ltb max_collection_offset window.offset || (window.limit == 0))

-- CollectionWindow::validate
unfoldable pub validate : CollectionWindow → Result McpError (Unit {0})
validate window =
    refuse (not (is_window window))
      (invalid_params (text "collection window is outside its supported range"))

pub record CollectionPage : Type 0 where
  pub available : Bool
  pub returned : ℕ
  pub total_observed : Option ℕ
  pub truncated : Bool
  pub next_offset : Option ℕ

-- bool::then_some
abbrev pub then_some {ℓ} : {A : Type ℓ} → Bool → A → Option A
then_some true a = some a
then_some false a = none

module _ {A : Type 0} where
  unfoldable pub collection_page : Option (List A) → CollectionWindow → List A × CollectionPage
  collection_page collection window =
      let items = unwrap_or collection [] in
      let total = length items in
      let end = min (saturating_add window.offset window.limit) total in
      let selected = take window.limit (drop window.offset items) in
      (
        selected,
        record {
          available = is_some collection;
          returned = length selected;
          total_observed = then_some (is_some collection) total;
          truncated = ltb (length selected) total;
          next_offset = then_some (ltb end total) end;
        },
      )

  -- The pages from a window on, as a client asks for them: each further one starts where
  -- `next_offset` of the last one says.
  unfoldable pub follow : ℕ → List A → CollectionWindow → Result McpError (List A)
  follow zero items window = ok []
  follow (suc fuel) items window = do
    validate window
    elim (collection_page (some items) window).1.next_offset [
      | none ↦ ok (collection_page (some items) window).0
      | some offset ↦ do
        rest ← follow fuel items (record window { offset = offset })
        ok ((collection_page (some items) window).0 ++ rest)
    ]

  collection_page_next :
      (items : List A) (window : CollectionWindow)
      → length items ≤ usize_max
      → window.offset + window.limit < length items
      → (collection_page (some items) window).1.next_offset ≡ some (window.offset + window.limit)
  unfolding collection_page
  collection_page_next items window small more = ground arith

  collection_page_last :
      (items : List A) (window : CollectionWindow)
      → length items ≤ usize_max
      → length items ≤ window.offset + window.limit
      → (collection_page (some items) window).1.next_offset ≡ none
  unfolding collection_page
  collection_page_last items window small last = ground arith

  collection_page_items :
      (items : List A) (window : CollectionWindow)
      → (collection_page (some items) window).0 ≡ take window.limit (drop window.offset items)
  unfolding collection_page
  collection_page_items items window = refl

  -- From a window within the supported range, a client that follows the pages of a collection of at most
  -- 2,097,152 items gets every item from the window's offset on, each once and in order, and no request
  -- of it is refused. One page for each of these items, and one more, is enough.
  pub follow_complete :
      (fuel : ℕ) (items : List A) (window : CollectionWindow)
      → is_window window ≡ true
      → length items ≤ max_collection_offset
      → length items - window.offset < fuel
      → follow fuel items window ≡ ok (drop window.offset items)
  unfolding follow validate
  follow_complete zero items window valid small enough = absurd (omega arith)
  follow_complete (suc fuel) items window valid small enough =
      elim (Bool-cases (ltb (window.offset + window.limit) (length items))) [
        | inl more ↦
            let next = record window { offset = window.offset + window.limit } in
            rw (
              valid,
              collection_page_next items window (ground arith) (ltb→lt _ _ more),
              follow_complete fuel items next (ground arith) small (ground arith),
              collection_page_items items window,
              drop-drop window.offset window.limit items,
              take-append-drop window.limit (drop window.offset items),
            )
        | inr last ↦
            rw
              (
                valid,
                collection_page_last items window (ground arith) (ground arith),
                collection_page_items items window,
              )
              (ap ok (
                take_all window.limit (drop window.offset items)
                  (ground (arith, length-drop window.offset items))))
      ]
