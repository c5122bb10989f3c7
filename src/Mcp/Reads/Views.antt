-- ===== src/Mcp/Reads/Views.antt =====
-- crates/komodo-mcp/src/lib.rs and networks.rs: what the reading methods return.
use mcp_komodo_rs.Prelude.{ℕ, Bool, Option, List}
use mcp_komodo_rs.Prelude.Int.{ℤ}
use mcp_komodo_rs.Prelude.Text.{Text}
use mcp_komodo_rs.Api.Resources.{
  ResourceListItem, ServerInfo, StackInfo, DeploymentInfo, BuildInfo, RepoInfo, ResourceVersion,
}
use mcp_komodo_rs.Api.Networks.{NetworkListItem, Network}
use mcp_komodo_rs.Api.Stacks.{StackConfigDetail, StackComposeProvenance}
use mcp_komodo_rs.Mcp.Files.{FileValue}
use mcp_komodo_rs.Mcp.Inputs.Window.{CollectionPage}
use mcp_komodo_rs.Mcp.Operations.Outcome.{OperationOutcome}
use mcp_komodo_rs.Mcp.Reads.History.{HistoryDocument}

pub record SystemStatusOutput : Type 0 where
  pub version : Text
  pub reachable : Bool

pub record ServerStatus : Type 0 where
  pub id : Text
  pub name : Text
  pub state : Text
  pub health : Text
  pub version : Option Text
  pub resource : Option (ResourceListItem ServerInfo)

pub record StackStatus : Type 0 where
  pub id : Text
  pub name : Text
  pub state : Text
  pub health : Text
  pub service_count : ℕ
  pub services_with_updates : ℕ
  pub project_missing : Bool
  pub resource : Option (ResourceListItem StackInfo)

pub record DeploymentStatus : Type 0 where
  pub id : Text
  pub name : Text
  pub state : Text
  pub health : Text
  pub update_available : Bool
  pub resource : Option (ResourceListItem DeploymentInfo)

pub record BuildStatus : Type 0 where
  pub id : Text
  pub name : Text
  pub state : Text
  pub health : Text
  pub last_built_at : ℤ
  pub resource : Option (ResourceListItem BuildInfo)

pub record RepoStatus : Type 0 where
  pub id : Text
  pub name : Text
  pub state : Text
  pub health : Text
  pub last_pulled_at : ℤ
  pub last_built_at : ℤ
  pub resource : Option (ResourceListItem RepoInfo)

pub record OperationTargetView : Type 0 where
  pub kind : Text
  pub id : Text

pub record OperationDetails : Type 0 where
  pub previous_configuration : Option HistoryDocument
  pub current_configuration : Option HistoryDocument
  pub other_data : Option Text

pub record OperationStatus : Type 0 where
  pub details : Option OperationDetails
  pub id : Text
  pub operation : Text
  pub start_ts : ℤ
  pub success : Option Bool
  pub status : Text
  pub outcome : OperationOutcome
  pub target : Option OperationTargetView
  pub operator : Option Text
  pub username : Option Text
  pub end_ts : Option ℤ
  pub version : Option ResourceVersion
  pub commit_hash : Option Text

pub record ServiceDiagnostic : Type 0 where
  pub service : Text
  pub image : Text
  pub update_available : Bool

pub record StackDiagnostics : Type 0 where
  pub id : Text
  pub name : Text
  pub state : Text
  pub health : Text
  pub status_message : Option Text
  pub service_count : ℕ
  pub services_with_updates : ℕ
  pub project_missing : Bool
  pub missing_files : List Text
  pub missing_files_page : CollectionPage
  pub up_to_date : Option Bool
  pub services : List ServiceDiagnostic
  pub services_page : CollectionPage

pub record StackConfigView : Type 0 where
  pub configuration : StackConfigDetail
  pub name : Text
  pub files_on_host : Bool
  pub run_directory : Text
  pub file_paths : List Text
  pub file_paths_page : CollectionPage
  pub env_file_path : Text
  pub webhook_enabled : Bool
  pub webhook_force_deploy : Bool
  pub webhook_secret_source : Text
  pub has_compose_contents : Bool
  pub has_environment : Bool
  pub has_pre_deploy : Bool
  pub has_post_deploy : Bool

pub record ComposeFileView : Type 0 where
  pub path : Text
  pub contents : Text
  pub services : Option (List Text)
  pub requires : Option Text

pub record ComposeView : Type 0 where
  pub provenance : StackComposeProvenance
  pub source : Text
  pub files : List ComposeFileView
  pub files_page : CollectionPage

pub record EnvironmentView : Type 0 where
  pub environment : Text

pub record CommandView : Type 0 where
  pub shell_mode : Option Bool
  pub path : Text
  pub command : Text

pub record CommandsView : Type 0 where
  pub pre_deploy : CommandView
  pub post_deploy : CommandView

pub record WebhookStatusView : Type 0 where
  pub enabled : Bool
  pub force_deploy : Bool
  pub secret_source : Text

pub record WebhookSecretView : Type 0 where
  pub source : Text
  pub value_available : Bool
  pub file : Option FileValue

pub record LogTailView : Type 0 where
  pub command : Text
  pub stdout : Text
  pub stderr : Text
  pub success : Bool

pub record LogRecordView : Type 0 where
  pub stage : Text
  pub command : Text
  pub stdout : Text
  pub stderr : Text
  pub success : Bool
  pub start_ts : ℤ
  pub end_ts : ℤ

pub record OperationLogsView : Type 0 where
  pub logs : List LogRecordView
  pub logs_page : CollectionPage

pub record OperationSearchOutput : Type 0 where
  pub items : List OperationStatus
  pub next_page : Option ℕ
  pub next_offset : Option ℕ
  pub truncated : Bool

-- The macro `search_output!`, and networks.rs.
pub record SearchOutput (O : Type 0) : Type 0 where
  pub items : List O
  pub next_page : Option ℕ
  pub next_offset : Option ℕ
  pub truncated : Bool

pub record ServerIdentity : Type 0 where
  pub id : Text
  pub name : Text

pub record NetworkSearchOutput : Type 0 where
  pub server : ServerIdentity
  pub items : List NetworkListItem
  pub items_page : CollectionPage

pub record NetworkReadOutput : Type 0 where
  pub server : ServerIdentity
  pub network : Network
