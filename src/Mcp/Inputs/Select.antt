-- ===== src/Mcp/Inputs/Select.antt =====
-- crates/komodo-mcp/src/lib.rs: `resource_matches`, `operation_matches` and `select`.
use mcp_komodo_rs.Prelude.{
  Bool, ◌||◌, Option, some, none, is_none_or, List, [], ◌∷◌, retain, find, Result, ok, err, ◌>>◌,
}
use mcp_komodo_rs.Prelude.Text.{
  Text, text, str_eq, to_ascii_lowercase, eq_ignore_ascii_case, contains,
}
use mcp_komodo_rs.Api.Resources.{ResourceListItem}
use mcp_komodo_rs.Api.Types.{OperationItem}
use mcp_komodo_rs.Mcp.Errors.{McpError, invalid_params}
use mcp_komodo_rs.Mcp.Inputs.Validate.{validate_selector}

unfoldable pub operation_matches : OperationItem → Option Text → Bool
operation_matches item query = is_none_or query λ query.
    contains query (to_ascii_lowercase item.id)
    || contains query (to_ascii_lowercase item.operation)

module _ {I : Type 0} where
  unfoldable pub resource_matches : ResourceListItem I → Option Text → Bool
  resource_matches item query = is_none_or query λ query.
      contains query (to_ascii_lowercase item.name) || contains query (to_ascii_lowercase item.id)

  -- The one item of the filtered list.
  unfoldable pub only : List (ResourceListItem I) → Result McpError (ResourceListItem I)
  only [] = err (invalid_params (text "resource not found"))
  only (item ∷ []) = ok item
  only (item ∷ _ ∷ _) =
      err (invalid_params (text "selector is ambiguous; use the exact resource id"))

  unfoldable pub select : List (ResourceListItem I) → Text → Result McpError (ResourceListItem I)
  unfolding only
  select resources selector = do
    validate_selector selector
    elim (find (λ item. str_eq item.id selector) resources) [
      | some item ↦ ok item
      | none ↦ only (retain (λ item. eq_ignore_ascii_case item.name selector) resources)
    ]
