-- ===== src/Mcp/Reads/Operations.antt =====
-- crates/komodo-mcp/src/lib.rs: `search_operations` and `operation_status`; and `project_operation` of
-- crates/komodo-mcp/src/history.rs, over what a document of the history becomes without its credentials.
use mcp_komodo_rs.Prelude.{
  Result, ℕ, ◌+◌, not, ◌&&◌, ltb, if◌then◌else◌, Option, some, none, is_some, List, [], ◌∷◌, length,
  take, drop, retain, ok, refuse,
}
use mcp_komodo_rs.Prelude.Text.{Text, text}
use mcp_komodo_rs.Prelude.Tasks.{done, ◌>>=◌, ◌>>◌, await}
use mcp_komodo_rs.Api.Types.{OperationItem, OperationPage}
use mcp_komodo_rs.Mcp.Errors.{McpError, invalid_params}
use mcp_komodo_rs.Mcp.Inputs.Validate.{
  max_offset, validate_limit, validate_query, validate_selector,
}
use mcp_komodo_rs.Mcp.Inputs.Select.{operation_matches}
use mcp_komodo_rs.Mcp.Inputs.Search.{Projection, summary, detail, as_offset}
use mcp_komodo_rs.Mcp.Tasks.Calls.{KomodoMcp, Tool, operations_query, update, update_logs}
use mcp_komodo_rs.Mcp.Reads.History.{PreparedDocument, publish_if}
use mcp_komodo_rs.Mcp.Reads.Inputs.{OperationsSearchInput, OperationStatusInput, OperationLogsInput}
use mcp_komodo_rs.Mcp.Reads.Views.{OperationStatus, OperationSearchOutput, OperationLogsView}
use mcp_komodo_rs.Mcp.Reads.Normalize.{normalize_operation}
use mcp_komodo_rs.Mcp.Reads.Methods.{answer, looked_up}
use mcp_komodo_rs.Mcp.Reads.StackViews.{normalize_operation_logs}
use mcp_komodo_rs.Mcp.Operations.Filter.{OperationSearchFilter, validated_query}
use mcp_komodo_rs.Api.Operations.{OperationQuery}
use mcp_komodo_rs.Mcp.Inputs.Window.{validate}

-- `Option<OperationSearchFilter>` as a query.
unfoldable pub filter_query : Option OperationSearchFilter → Result McpError OperationQuery
filter_query (some filter) = validated_query filter
filter_query none = ok (record {
  target = none;
  operation = none;
  status = none;
  success = none;
  started_after = none;
  started_before = none;
})

-- What the search takes of the page that Core gives.
abbrev pub matching : OperationPage → Option Text → List OperationItem
matching page query = retain (λ item. operation_matches item query) page.operations

-- The output of a search with the number of matches, and the items of its window.
unfoldable pub search_output :
    OperationsSearchInput → OperationPage → ℕ → List OperationStatus → OperationSearchOutput
unfolding as_offset
search_output input page total items =
    let consumed = input.offset + length items in
    let next_offset = if ltb consumed total then as_offset consumed else none in
    record {
      items = items;
      next_page = if ltb consumed total then none else page.next_page;
      next_offset = next_offset;
      truncated = ltb consumed total && not (is_some next_offset);
    }

module _ (prepare : Text → PreparedDocument) (handler : KomodoMcp) where
  unfoldable pub project_operation : Projection → OperationItem → Tool OperationStatus
  unfolding publish_if
  project_operation summary item = done (ok (record (normalize_operation item) { details = none }))
  project_operation detail item = do
    previous ← publish_if prepare handler (text "operation-before.toml") item.prev_toml
    current ← publish_if prepare handler (text "operation-after.toml") item.current_toml
    done (
        ok (record (normalize_operation item) {
          details = some (record {
            previous_configuration = previous;
            current_configuration = current;
            other_data = item.other_data;
          });
        }))

  -- `.map(|operation| self.project_operation(…)).collect()`
  unfoldable pub project_operations : Projection → List OperationItem → Tool (List OperationStatus)
  unfolding project_operation
  project_operations projection [] = done (ok [])
  project_operations projection (item ∷ items) = do
    status ← project_operation projection item
    rest ← project_operations projection items
    done (ok (status ∷ rest))

  unfoldable pub search_operations : OperationsSearchInput → Tool OperationSearchOutput
  unfolding project_operations
  search_operations input = do
    done (validate_limit input.limit)
    done (
        refuse (ltb max_offset input.offset) (invalid_params (text "offset must not exceed 10000")))
    query ← done (validate_query input.query)
    filter ← done (filter_query input.filter)
    reply ← await (operations_query input.page filter)
    page ← answer handler reply
    let matches = matching page query
    items ← project_operations input.projection (take input.limit (drop input.offset matches))
    done (ok (search_output input page (length matches) items))

  unfoldable pub operation_status : OperationStatusInput → Tool OperationStatus
  unfolding project_operation
  operation_status input = do
    done (validate_selector input.operation_id)
    reply ← await (update input.operation_id)
    item ← looked_up handler reply
    project_operation input.projection item

module _ (handler : KomodoMcp) where
  unfoldable pub operation_logs_read : OperationLogsInput → Tool OperationLogsView
  operation_logs_read input = do
    done (validate input.window)
    done (validate_selector input.operation_id)
    reply ← await (update_logs input.operation_id)
    logs ← looked_up handler reply
    done (ok (normalize_operation_logs logs input.window))
