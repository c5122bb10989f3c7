-- ===== src/Mcp/Profile/Registry.antt =====
-- crates/komodo-mcp/src/lib.rs: `ToolKind`, `ToolSpec`, `ToolBehavior` and `TOOL_REGISTRY`. The
-- descriptions are left out: no code reads them but the catalog's.
use mcp_komodo_rs.Prelude.{String, Bool, true, false, List, [], ◌∷◌}
use mcp_komodo_rs.Prelude.Text.{Text, text}

pub data ToolKind : Type 0 where
  system_status servers_search servers_status servers_networks_search servers_networks_read :
      ToolKind
  stacks_search stacks_status stacks_diagnostics stacks_config_read stacks_compose_read : ToolKind
  stacks_environment_read stacks_commands_read stacks_webhook_status stacks_webhook_secret_read
        stacks_logs_tail :
      ToolKind
  deployments_search deployments_status builds_search builds_status repos_search : ToolKind
  repos_status operations_search operations_status operations_logs_read stacks_deploy : ToolKind
  stacks_restart stacks_stop deployments_deploy deployments_restart builds_run : ToolKind
  builds_cancel repos_pull stacks_config_patch stacks_compose_write stacks_environment_write :
      ToolKind
  stacks_commands_write stacks_file_write stacks_webhook_update stacks_webhook_secret_write :
      ToolKind

pub record ToolBehavior : Type 0 where
  pub read_only : Bool
  pub destructive : Bool
  pub idempotent : Bool
  pub open_world : Bool

-- ToolBehavior::read
abbrev pub read : ToolBehavior
read = record { read_only = true; destructive = false; idempotent = true; open_world = false }

-- ToolBehavior::mutation
abbrev pub mutation : ToolBehavior
mutation = record { read_only = false; destructive = false; idempotent = false; open_world = false }

abbrev pub destructive : ToolBehavior → ToolBehavior
destructive b = record b { destructive = true }

abbrev pub idempotent : ToolBehavior → ToolBehavior
idempotent b = record b { idempotent = true }

abbrev pub open_world : ToolBehavior → ToolBehavior
open_world b = record b { open_world = true }

pub record ToolSpec : Type 0 where
  pub name : Text
  pub behavior : ToolBehavior
  pub kind : ToolKind

abbrev pub read_spec : ToolKind → String → ToolSpec
read_spec kind name = record { name = text name; behavior = read; kind = kind }

abbrev pub write_spec : ToolKind → String → ToolBehavior → ToolSpec
write_spec kind name behavior = record { name = text name; behavior = behavior; kind = kind }

unfoldable pub tool_registry : List ToolSpec
tool_registry =
    read_spec system_status "system.status"
    ∷ read_spec servers_search "servers.search"
    ∷ read_spec servers_status "servers.status"
    ∷ read_spec servers_networks_search "servers.networks.search"
    ∷ read_spec servers_networks_read "servers.networks.read"
    ∷ read_spec stacks_search "stacks.search"
    ∷ read_spec stacks_status "stacks.status"
    ∷ read_spec stacks_diagnostics "stacks.diagnostics"
    ∷ read_spec stacks_config_read "stacks.config.read"
    ∷ read_spec stacks_compose_read "stacks.compose.read"
    ∷ read_spec stacks_environment_read "stacks.environment.read"
    ∷ read_spec stacks_commands_read "stacks.commands.read"
    ∷ read_spec stacks_webhook_status "stacks.webhook.status"
    ∷ read_spec stacks_webhook_secret_read "stacks.webhook.secret.read"
    ∷ read_spec stacks_logs_tail "stacks.logs.tail"
    ∷ read_spec deployments_search "deployments.search"
    ∷ read_spec deployments_status "deployments.status"
    ∷ read_spec builds_search "builds.search"
    ∷ read_spec builds_status "builds.status"
    ∷ read_spec repos_search "repos.search"
    ∷ read_spec repos_status "repos.status"
    ∷ read_spec operations_search "operations.search"
    ∷ read_spec operations_status "operations.status"
    ∷ read_spec operations_logs_read "operations.logs.read"
    ∷ write_spec stacks_deploy "stacks.deploy" (open_world (destructive mutation))
    ∷ write_spec stacks_restart "stacks.restart" mutation
    ∷ write_spec stacks_stop "stacks.stop" (idempotent (destructive mutation))
    ∷ write_spec deployments_deploy "deployments.deploy" (open_world (destructive mutation))
    ∷ write_spec deployments_restart "deployments.restart" mutation
    ∷ write_spec builds_run "builds.run" (open_world mutation)
    ∷ write_spec builds_cancel "builds.cancel" (idempotent (destructive mutation))
    ∷ write_spec repos_pull "repos.pull" (open_world (destructive mutation))
    ∷ write_spec stacks_config_patch "stacks.config.patch" (destructive mutation)
    ∷ write_spec stacks_compose_write "stacks.compose.write" (destructive mutation)
    ∷ write_spec stacks_environment_write "stacks.environment.write" (destructive mutation)
    ∷ write_spec stacks_commands_write "stacks.commands.write" (destructive mutation)
    ∷ write_spec stacks_file_write "stacks.file.write" (destructive mutation)
    ∷ write_spec stacks_webhook_update "stacks.webhook.update" (destructive mutation)
    ∷ write_spec stacks_webhook_secret_write "stacks.webhook.secret.write" (destructive mutation)
    ∷ []
