-- ===== src/Api/Stacks.antt =====
-- crates/komodo-api/src/stacks.rs, and the details of stacks and the logs of crates/komodo-api/src/lib.rs.
use mcp_komodo_rs.Prelude.{Bool, Option, List}
use mcp_komodo_rs.Prelude.Int.{ℤ}
use mcp_komodo_rs.Prelude.Text.{Text}
use mcp_komodo_rs.Api.Types.{SystemCommand}

pub data AdditionalEnvFile : Type 0 where
  path : Text → AdditionalEnvFile
  settings : Text → Option Bool → AdditionalEnvFile

pub data StackFileDependency : Type 0 where
  path : Text → StackFileDependency
  settings : Text → Option (List Text) → Option Text → StackFileDependency

pub record StackConfigurationFacts : Type 0 where
  pub swarm_id : Option Text
  pub server_id : Option Text
  pub links : Option (List Text)
  pub project_name : Option Text
  pub auto_pull : Option Bool
  pub run_build : Option Bool
  pub poll_for_updates : Option Bool
  pub auto_update : Option Bool
  pub auto_update_all_services : Option Bool
  pub auto_update_skip_services : Option (List Text)
  pub destroy_before_deploy : Option Bool
  pub skip_secret_interp : Option Bool
  pub linked_repo : Option Text
  pub git_provider : Option Text
  pub git_https : Option Bool
  pub git_account : Option Text
  pub repo : Option Text
  pub branch : Option Text
  pub commit : Option Text
  pub clone_path : Option Text
  pub reclone : Option Bool
  pub additional_env_files : Option (List AdditionalEnvFile)
  pub config_files : Option (List StackFileDependency)
  pub send_alerts : Option Bool
  pub registry_provider : Option Text
  pub registry_account : Option Text
  pub extra_args : Option (List Text)
  pub build_extra_args : Option (List Text)
  pub compose_cmd_wrapper : Option Text
  pub compose_cmd_wrapper_include : Option (List Text)
  pub ignore_services : Option (List Text)

pub record StackServiceNames : Type 0 where
  pub service_name : Option Text
  pub container_name : Option Text
  pub image : Option Text
  pub image_digest : Option Text

pub record ComposeFile : Type 0 where
  pub path : Text
  pub contents : Text
  pub services : Option (List Text)
  pub requires : Option Text

pub record StackComposeProvenance : Type 0 where
  pub missing_files : Option (List Text)
  pub deployed_project_name : Option Text
  pub deployed_hash : Option Text
  pub deployed_message : Option Text
  pub deployed_services : Option (List StackServiceNames)
  pub deployed_config : Option Text
  pub latest_services : Option (List StackServiceNames)
  pub remote_errors : Option (List ComposeFile)
  pub latest_hash : Option Text
  pub latest_message : Option Text

pub record StackConfigDetail : Type 0 where
  pub facts : StackConfigurationFacts
  pub file_contents : Text
  pub environment : Text
  pub files_on_host : Bool
  pub run_directory : Text
  pub file_paths : List Text
  pub env_file_path : Text
  pub pre_deploy : SystemCommand
  pub post_deploy : SystemCommand
  pub webhook_enabled : Bool
  pub webhook_secret : Text
  pub webhook_force_deploy : Bool

pub record StackComposeInfo : Type 0 where
  pub provenance : StackComposeProvenance
  pub deployed_contents : Option (List ComposeFile)
  pub remote_contents : Option (List ComposeFile)

pub record StackDetail : Type 0 where
  pub config : StackConfigDetail
  pub info : StackComposeInfo

pub record Log : Type 0 where
  pub stage : Text
  pub command : Text
  pub stdout : Text
  pub stderr : Text
  pub success : Bool
  pub start_ts : ℤ
  pub end_ts : ℤ
