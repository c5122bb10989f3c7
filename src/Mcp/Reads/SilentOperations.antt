-- ===== src/Mcp/Reads/SilentOperations.antt =====
-- crates/komodo-mcp/src/lib.rs and history.rs: reading operations does not call the administrative client.
use mcp_komodo_rs.Prelude.{refl, Option, some, none, Option-cases, inl, inr, List, [], ◌∷◌}
use mcp_komodo_rs.Prelude.Text.{Text}
use mcp_komodo_rs.Api.Types.{OperationItem}
use mcp_komodo_rs.Mcp.Inputs.Search.{Projection, summary, detail}
use mcp_komodo_rs.Mcp.Tasks.Calls.{KomodoMcp, is_submission}
use mcp_komodo_rs.Mcp.Tasks.Counted.{IsReading, ended, reads, bind-IsReading, answer-IsReading}
use mcp_komodo_rs.Mcp.Reads.History.{PreparedDocument, publish_document, publish_if}
use mcp_komodo_rs.Mcp.Reads.Inputs.{OperationsSearchInput, OperationStatusInput}
use mcp_komodo_rs.Mcp.Reads.Operations.{
  project_operation, project_operations, search_operations, operation_status,
}
use mcp_komodo_rs.Mcp.Reads.Silent.{looked_up-IsReading}

module _ (prepare : Text → PreparedDocument) (handler : KomodoMcp) where
  publish_document-IsReading :
      (name : Text) (document : PreparedDocument)
      → IsReading (publish_document handler name document)
  unfolding publish_document is_submission
  publish_document-IsReading name document = elim (Option-cases document.original) [
    | inl absent ↦ rw (absent, publish_document) (ended _)
    | inr (bytes, e) ↦ elim (Option-cases handler.credential_files) [
      | inl missing ↦ rw (e, publish_document, missing) (ended _)
      | inr (owner, given) ↦ rw (e, publish_document, given) (reads _ _ refl (λ reply. ended _))
    ]
  ]

  publish_if-IsReading :
      (name : Text) (toml : Option Text) → IsReading (publish_if prepare handler name toml)
  unfolding publish_if
  publish_if-IsReading name none = ended _
  publish_if-IsReading name (some toml) =
      bind-IsReading _ (publish_document handler name (prepare toml))
        (publish_document-IsReading name (prepare toml)) (λ document. ended _)

  project_operation-IsReading :
      (projection : Projection) (item : OperationItem)
      → IsReading (project_operation prepare handler projection item)
  unfolding project_operation
  project_operation-IsReading summary item = ended _
  project_operation-IsReading detail item = search (ended, bind-IsReading, publish_if-IsReading)

  project_operations-IsReading :
      (projection : Projection) (items : List OperationItem)
      → IsReading (project_operations prepare handler projection items)
  unfolding project_operations
  project_operations-IsReading projection [] = ended _
  project_operations-IsReading projection (item ∷ items) =
      bind-IsReading _ (project_operation prepare handler projection item)
        (project_operation-IsReading projection item)
        (λ status.
          bind-IsReading _ (project_operations prepare handler projection items)
            (project_operations-IsReading projection items) (λ rest. ended _))

  pub search_operations-IsReading :
      (input : OperationsSearchInput) → IsReading (search_operations prepare handler input)
  unfolding search_operations is_submission
  search_operations-IsReading input =
      search (ended, reads, bind-IsReading, answer-IsReading, project_operations-IsReading) depth 9

  pub operation_status-IsReading :
      (input : OperationStatusInput) → IsReading (operation_status prepare handler input)
  unfolding operation_status is_submission
  operation_status-IsReading input =
      search (ended, reads, bind-IsReading, looked_up-IsReading, project_operation-IsReading)
