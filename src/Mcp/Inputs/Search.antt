-- ===== src/Mcp/Inputs/Search.antt =====
-- crates/komodo-mcp/src/lib.rs: `search` over one page of the inventory, and its input.
use mcp_komodo_rs.Prelude.{
  ℕ, Bool, not, ◌&&◌, ltb, leb, if◌then◌else◌, Option, some, none, is_some, List, [], ◌∷◌, map,
  length, take, drop, retain, Result, ok, ◌>>=◌, ◌>>◌, refuse,
}
use mcp_komodo_rs.Prelude.Text.{Text, text, str_eq, str_le, to_ascii_lowercase}
use mcp_komodo_rs.Api.Resources.{ResourceListItem}
use mcp_komodo_rs.Mcp.Errors.{McpError, invalid_params}
use mcp_komodo_rs.Mcp.Inputs.Validate.{max_offset, validate_limit, validate_query}
use mcp_komodo_rs.Mcp.Inputs.Select.{resource_matches}
use mcp_komodo_rs.Mcp.Inputs.Window.{saturating_add}

pub data Projection : Type 0 where
  summary detail : Projection

pub record SearchInput : Type 0 where
  pub projection : Projection
  pub page : ℕ
  pub query : Option Text
  pub offset : ℕ
  pub limit : ℕ

abbrev pub default_limit : ℕ
default_limit = 20

unfoldable pub validate_search : SearchInput → Result McpError (Option Text)
validate_search input = do
  validate_limit input.limit
  refuse (ltb max_offset input.offset) (invalid_params (text "offset must not exceed 10000"))
  validate_query input.query

pub record SearchPage (O : Type 0) : Type 0 where
  pub items : List O
  pub next_offset : Option ℕ
  pub truncated : Bool

-- `u16::try_from(consumed).ok().filter(|offset| *offset <= MAX_OFFSET)`
unfoldable pub as_offset : ℕ → Option ℕ
as_offset consumed = if leb consumed 0xFFFF && leb consumed max_offset then some consumed else none

module _ {I : Type 0} where
  -- Whether the comparison of `sort_by` does not put the left item after the right one.
  unfoldable pub sorts_before : ResourceListItem I → ResourceListItem I → Bool
  unfolding str_eq str_le to_ascii_lowercase
  sorts_before left right =
      let l = to_ascii_lowercase left.name in
      let r = to_ascii_lowercase right.name in
      if str_eq l r then str_le left.id right.id else str_le l r

  -- Vec::sort_by, a stable sort
  unfoldable pub insert : ResourceListItem I → List (ResourceListItem I) → List (ResourceListItem I)
  insert x [] = x ∷ []
  insert x (y ∷ items) =
      let rest = insert x items in if sorts_before x y then x ∷ y ∷ items else y ∷ rest

  unfoldable pub sort : List (ResourceListItem I) → List (ResourceListItem I)
  unfolding insert
  sort [] = []
  sort (x ∷ items) = insert x (sort items)

  -- The resources that match, in their order.
  unfoldable pub found : List (ResourceListItem I) → Option Text → List (ResourceListItem I)
  unfolding sort
  found resources query = sort (retain (λ item. resource_matches item query) resources)

  unfoldable pub search :
      {O : Type 0}
      → List (ResourceListItem I)
      → SearchInput
      → (ResourceListItem I → O)
      → Result McpError (SearchPage O)
  search resources input normalize = do
    query ← validate_search input
    let matches = found resources query
    let total = length matches
    let items = map normalize (take input.limit (drop input.offset matches))
    let consumed = saturating_add input.offset (length items)
    let next_offset = if ltb consumed total then as_offset consumed else none
    ok (record {
      items = items;
      next_offset = next_offset;
      truncated = ltb consumed total && not (is_some next_offset);
    })
