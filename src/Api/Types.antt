-- ===== src/Api/Types.antt =====
-- crates/komodo-api/src/lib.rs: the data that the client and the tools share.
use mcp_komodo_rs.Prelude.{ℕ, Bool, Option, none, List}
use mcp_komodo_rs.Prelude.Int.{ℤ}
use mcp_komodo_rs.Prelude.Text.{Text, text}
use mcp_komodo_rs.Api.Resources.{ResourceListItem, ResourceVersion}

-- The allowlisted execution intents.
pub data Action : Type 0 where
  deploy_stack restart_stack stop_stack deploy_deployment restart_deployment : Action
  run_build cancel_build pull_repo : Action

unfoldable pub variant : Action → Text
variant deploy_stack = text "DeployStack"
variant restart_stack = text "RestartStack"
variant stop_stack = text "StopStack"
variant deploy_deployment = text "Deploy"
variant restart_deployment = text "RestartDeployment"
variant run_build = text "RunBuild"
variant cancel_build = text "CancelBuild"
variant pull_repo = text "PullRepo"

unfoldable pub parameter : Action → Text
parameter deploy_stack = text "stack"
parameter restart_stack = text "stack"
parameter stop_stack = text "stack"
parameter deploy_deployment = text "deployment"
parameter restart_deployment = text "deployment"
parameter run_build = text "build"
parameter cancel_build = text "build"
parameter pull_repo = text "repo"

pub record OperationTarget : Type 0 where
  pub kind : Text
  pub id : Text

pub record OperationItem : Type 0 where
  pub id : Text
  pub operation : Text
  pub start_ts : ℤ
  pub success : Bool
  pub status : Text
  pub operator : Option Text
  pub username : Option Text
  pub end_ts : Option ℤ
  pub version : Option ResourceVersion
  pub commit_hash : Option Text
  pub other_data : Option Text
  pub prev_toml : Option Text
  pub current_toml : Option Text
  pub target : Option OperationTarget

pub record OperationPage : Type 0 where
  pub operations : List OperationItem
  pub next_page : Option ℕ

pub record MutationReceipt : Type 0 where
  pub operation_id : Text
  pub operation : Text
  pub start_ts : ℤ
  pub success : Bool
  pub status : Text

pub record SystemCommand : Type 0 where
  pub path : Text
  pub command : Text
  pub shell_mode : Option Bool

pub record StackConfigPatch : Type 0 where
  pub file_contents : Option Text
  pub environment : Option Text
  pub pre_deploy : Option SystemCommand
  pub post_deploy : Option SystemCommand
  pub files_on_host : Option Bool
  pub run_directory : Option Text
  pub file_paths : Option (List Text)
  pub env_file_path : Option Text
  pub webhook_enabled : Option Bool
  pub webhook_secret : Option Text
  pub webhook_force_deploy : Option Bool

-- StackConfigPatch::default
abbrev pub default : StackConfigPatch
default = record {
  file_contents = none;
  environment = none;
  pre_deploy = none;
  post_deploy = none;
  files_on_host = none;
  run_directory = none;
  file_paths = none;
  env_file_path = none;
  webhook_enabled = none;
  webhook_secret = none;
  webhook_force_deploy = none;
}

-- crates/komodo-api/src/inventory.rs
pub data InventoryRequest : Type 0 where
  page : ℕ → InventoryRequest
  selector : Text → InventoryRequest

pub record InventoryPage (I : Type 0) : Type 0 where
  pub items : List (ResourceListItem I)
  pub next_page : Option ℕ
