-- ===== src/Api/Resources.antt =====
-- crates/komodo-api/src/lib.rs: the resources of the inventory.
use mcp_komodo_rs.Prelude.{ℕ, Bool, Option, List}
use mcp_komodo_rs.Prelude.Int.{ℤ}
use mcp_komodo_rs.Prelude.Text.{Text}

-- f64, as its 64 bits.
abbrev pub F64 : Type 0
F64 = ℕ

pub record ResourceListItem (I : Type 0) : Type 0 where
  pub id : Text
  pub resource_type : Text
  pub name : Text
  pub template : Option Bool
  pub tags : Option (List Text)
  pub info : I

pub record ReportedError : Type 0 where
  pub error : Text
  pub trace : List Text

pub record AlertingThresholds : Type 0 where
  pub cpu_warning : F64
  pub cpu_critical : F64
  pub mem_warning : F64
  pub mem_critical : F64
  pub disk_warning : F64
  pub disk_critical : F64

pub record LoadAverage : Type 0 where
  pub one : F64
  pub five : F64
  pub fifteen : F64

pub record SystemStats : Type 0 where
  pub cpu_perc : F64
  pub load_average : LoadAverage
  pub mem_free_gb : F64
  pub mem_used_gb : F64
  pub mem_total_gb : F64
  pub mem_buff_cache_gb : F64
  pub mem_zfs_arc_gb : F64
  pub swap_total_gb : F64
  pub swap_used_gb : F64
  pub disk_total_gb : F64
  pub disk_used_gb : F64
  pub network_ingress_bytes : F64
  pub network_egress_bytes : F64
  pub polling_rate : Text
  pub refresh_ts : ℤ
  pub refresh_list_ts : ℤ

pub record ServerInfo : Type 0 where
  pub state : Text
  pub version : Option Text
  pub err : Option ReportedError
  pub stats : Option SystemStats
  pub alerting_thresholds : Option AlertingThresholds
  pub core_count : Option ℕ
  pub logical_core_count : Option ℕ
  pub region : Option Text
  pub address : Option Text
  pub external_address : Option Text
  pub public_ip : Option Text
  pub public_key : Option Text
  pub attempted_public_key : Option Text
  pub send_unreachable_alerts : Option Bool
  pub send_cpu_alerts : Option Bool
  pub send_mem_alerts : Option Bool
  pub send_disk_alerts : Option Bool
  pub send_version_mismatch_alerts : Option Bool
  pub terminals_disabled : Option Bool
  pub container_terminals_disabled : Option Bool

pub record StackService : Type 0 where
  pub service : Text
  pub image : Text
  pub update_available : Bool

pub record StackInfo : Type 0 where
  pub state : Text
  pub swarm_id : Option Text
  pub swarm_name : Option Text
  pub server_id : Option Text
  pub server_name : Option Text
  pub files_on_host : Option Bool
  pub file_contents : Option Bool
  pub linked_repo : Option Text
  pub linked_repo_name : Option Text
  pub git_provider : Option Text
  pub repo : Option Text
  pub branch : Option Text
  pub repo_link : Option Text
  pub auto_update_all_services : Option Bool
  pub status : Option Text
  pub services : List StackService
  pub project_missing : Bool
  pub missing_files : List Text
  pub deployed_hash : Option Text
  pub latest_hash : Option Text

pub record DeploymentInfo : Type 0 where
  pub state : Text
  pub status : Option Text
  pub custom_name : Option Text
  pub image : Option Text
  pub swarm_id : Option Text
  pub swarm_name : Option Text
  pub server_id : Option Text
  pub server_name : Option Text
  pub build_id : Option Text
  pub update_available : Bool

pub record ResourceVersion : Type 0 where
  pub major : ℤ
  pub minor : ℤ
  pub patch : ℤ

pub record BuildInfo : Type 0 where
  pub state : Text
  pub version : Option ResourceVersion
  pub builder_id : Option Text
  pub files_on_host : Option Bool
  pub dockerfile_contents : Option Bool
  pub linked_repo : Option Text
  pub linked_repo_name : Option Text
  pub git_provider : Option Text
  pub repo : Option Text
  pub branch : Option Text
  pub repo_link : Option Text
  pub built_hash : Option Text
  pub latest_hash : Option Text
  pub image_registry_domain : Option Text
  pub last_built_at : ℤ

pub record RepoInfo : Type 0 where
  pub state : Text
  pub server_id : Option Text
  pub server_name : Option Text
  pub builder_id : Option Text
  pub git_provider : Option Text
  pub repo : Option Text
  pub branch : Option Text
  pub repo_link : Option Text
  pub cloned_hash : Option Text
  pub cloned_message : Option Text
  pub built_hash : Option Text
  pub latest_hash : Option Text
  pub last_pulled_at : ℤ
  pub last_built_at : ℤ
