-- ===== src/Mcp/Tasks/Calls.antt =====
-- crates/komodo-mcp/src/lib.rs: `KomodoMcp`, and the calls of its methods, those of `KomodoApi` and of
-- `CredentialFiles`. The calls that mutate go to the administrative client, the others to the reading
-- one.
use mcp_komodo_rs.Prelude.{ℕ, Bool, true, false, Option, List, Result}
use mcp_komodo_rs.Prelude.Text.{Text}
use mcp_komodo_rs.Prelude.Tasks.{Task, History}
use mcp_komodo_rs.Api.Resources.{ServerInfo, StackInfo, DeploymentInfo, BuildInfo, RepoInfo}
use mcp_komodo_rs.Api.Types.{
  Action, InventoryRequest, InventoryPage, StackConfigPatch, MutationReceipt, OperationItem,
  OperationPage,
}
use mcp_komodo_rs.Api.Networks.{NetworkListItem, Network}
use mcp_komodo_rs.Api.Operations.{OperationQuery}
use mcp_komodo_rs.Api.Stacks.{StackDetail, Log as StackLog}
use mcp_komodo_rs.Api.Errors.{ApiError}
use mcp_komodo_rs.Mcp.Execution.{ExecutionBudget}
use mcp_komodo_rs.Mcp.Files.{FileValue}
use mcp_komodo_rs.Mcp.Errors.{McpError}

pub record KomodoMcp : Type 0 where
  pub has_admin : Bool
  pub budget : Option ExecutionBudget
  pub has_rpc_cancellation : Bool
  pub credential_files : Option Text

-- What `admin` reads: the two cancellation tokens, and the clock.
pub record Lifetime : Type 0 where
  pub budget_cancelled : Bool
  pub now : ℕ
  pub rpc_cancelled : Bool

pub data Call : Type 0 where
  servers_inventory stacks_inventory deployments_inventory : InventoryRequest → Call
  builds_inventory repos_inventory : InventoryRequest → Call
  version : Call
  networks : Text → Call
  network : Text → Text → Call
  operations_query : ℕ → OperationQuery → Call
  update update_logs stack_detail : Text → Call
  stack_log : Text → List Text → ℕ → Bool → Call
  read_lifetime : Call
  publish : Text → Text → Text → List ℕ → Call
  take : Text → Text → Call
  execute : Action → Text → Call
  update_stack : Text → StackConfigPatch → Call
  write_stack_file : Text → Text → Text → Call

abbrev pub Reply : Call → Type 0
Reply (servers_inventory request) = Result ApiError (InventoryPage ServerInfo)
Reply (stacks_inventory request) = Result ApiError (InventoryPage StackInfo)
Reply (deployments_inventory request) = Result ApiError (InventoryPage DeploymentInfo)
Reply (builds_inventory request) = Result ApiError (InventoryPage BuildInfo)
Reply (repos_inventory request) = Result ApiError (InventoryPage RepoInfo)
Reply version = Result ApiError Text
Reply (networks server) = Result ApiError (List NetworkListItem)
Reply (network server name) = Result ApiError Network
Reply (operations_query page query) = Result ApiError OperationPage
Reply (update operation_id) = Result ApiError OperationItem
Reply (update_logs operation_id) = Result ApiError (List StackLog)
Reply (stack_detail stack) = Result ApiError StackDetail
Reply (stack_log stack services tail timestamps) = Result ApiError StackLog
Reply read_lifetime = Lifetime
Reply (publish owner name mime_type bytes) = Result McpError FileValue
Reply (take owner uri) = Result McpError (List ℕ)
Reply (execute action target) = Result ApiError MutationReceipt
Reply (update_stack target patch) = Result ApiError (Unit {0})
Reply (write_stack_file target path contents) = Result ApiError MutationReceipt

-- The calls of the administrative client.
unfoldable pub is_submission : Call → Bool
is_submission (execute action target) = true
is_submission (update_stack target patch) = true
is_submission (write_stack_file target path contents) = true
is_submission _ = false

abbrev pub Tool : Type 0 → Type 0
Tool A = Task Call Reply McpError A

abbrev pub Log : Type 0
Log = History Call Reply
