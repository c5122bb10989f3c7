-- ===== src/Mcp/Reads/Inputs.antt =====
-- crates/komodo-mcp/src/lib.rs and networks.rs: the inputs of the reading methods.
use mcp_komodo_rs.Prelude.{ℕ, Option}
use mcp_komodo_rs.Prelude.Text.{Text}
use mcp_komodo_rs.Mcp.Inputs.Window.{CollectionWindow}
use mcp_komodo_rs.Mcp.Inputs.Search.{Projection}
use mcp_komodo_rs.Mcp.Operations.Filter.{OperationSearchFilter}

pub data ComposeSource : Type 0 where
  configured latest deployed : ComposeSource

pub record StatusInput : Type 0 where
  pub selector : Text
  pub projection : Projection

pub record SelectorInput : Type 0 where
  pub selector : Text

pub record ComposeReadInput : Type 0 where
  pub selector : Text
  pub source : ComposeSource
  pub window : CollectionWindow

pub record CollectionReadInput : Type 0 where
  pub selector : Text
  pub window : CollectionWindow

pub record OperationLogsInput : Type 0 where
  pub operation_id : Text
  pub window : CollectionWindow

pub record OperationsSearchInput : Type 0 where
  pub projection : Projection
  pub offset : ℕ
  pub page : ℕ
  pub query : Option Text
  pub limit : ℕ
  pub filter : Option OperationSearchFilter

pub record OperationStatusInput : Type 0 where
  pub projection : Projection
  pub operation_id : Text
  pub page : ℕ

-- networks.rs
pub record NetworkSearchInput : Type 0 where
  pub server : Text
  pub query : Option Text
  pub window : CollectionWindow

pub record NetworkReadInput : Type 0 where
  pub server : Text
  pub network : Text
