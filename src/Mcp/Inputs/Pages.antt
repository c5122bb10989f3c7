-- ===== src/Mcp/Inputs/Pages.antt =====
-- crates/komodo-mcp/src/lib.rs: what a client of `search` gets that follows `next_offset`.
use mcp_komodo_rs.Prelude.{
  ℕ, suc, zero, ◌+◌, ◌<◌, ◌≡◌, ◌⊎◌, Bool, true, false, Option, some, none, List, [], ◌++◌, map,
  take, drop, Result, ok, ◌>>=◌,
}
use mcp_komodo_rs.Prelude.Text.{Text}
use mcp_komodo_rs.Api.Resources.{ResourceListItem}
use mcp_komodo_rs.Mcp.Errors.{McpError}
use mcp_komodo_rs.Mcp.Inputs.Validate.{max_offset}
use mcp_komodo_rs.Mcp.Inputs.Search.{SearchInput, found, search}

module _ {I O : Type 0} (normalize : ResourceListItem I → O) where
  -- The items of all pages from an input on, and whether the last one is marked as truncated.
  unfoldable pub follow_search :
      ℕ → List (ResourceListItem I) → SearchInput → Result McpError (List O × Bool)
  follow_search zero resources input = ok ([], true)
  follow_search (suc fuel) resources input = do
    page ← search resources input normalize
    elim page.next_offset [
      | none ↦ ok (page.items, page.truncated)
      | some offset ↦ do
        rest ← follow_search fuel resources (record input { offset = offset })
        ok (page.items ++ rest.0, rest.1)
    ]

  module _ (resources : List (ResourceListItem I)) (query : Option Text) where
    -- What all the pages give: a run of the matches from the offset on, which is all of them unless
    -- the last page is marked as truncated; then it ends behind the largest offset that is allowed.
    pub record IsFollowed (offset : ℕ) (followed : Result McpError (List O × Bool)) : Type 0 where
      pub count : ℕ
      pub truncated : Bool
      pub gives :
          followed
          ≡ ok (map normalize (take count (drop offset (found resources query))), truncated)
      pub ends :
          ((truncated ≡ false)
            × (take count (drop offset (found resources query))
                ≡ drop offset (found resources query)))
          ⊎ ((truncated ≡ true) × (max_offset < offset + count))
