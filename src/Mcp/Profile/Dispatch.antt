-- ===== src/Mcp/Profile/Dispatch.antt =====
-- crates/komodo-mcp/src/lib.rs: `ToolProfile`, the handler's profile and credentials, the catalog and
-- the choice of a handler in `dispatch`.
use mcp_komodo_rs.Prelude.{
  Bool, true, false, not, ◌&&◌, ◌||◌, if◌then◌else◌, Option, some, none, List, retain, find, Result,
  ok, ◌>>=◌, ok_or,
}
use mcp_komodo_rs.Prelude.Text.{Text, text, str_eq}
use mcp_komodo_rs.Api.Types.{
  Action, deploy_stack, restart_stack, stop_stack, deploy_deployment, restart_deployment, run_build,
  cancel_build, pull_repo,
}
use mcp_komodo_rs.Mcp.Profile.Registry.{ToolKind, ToolSpec, tool_registry}

pub data ToolProfile : Type 0 where
  status read_only operations full : ToolProfile

-- `None` stands for the error, which has one message.
unfoldable pub from_str : Text → Option ToolProfile
from_str value =
    if str_eq value (text "status")
    then some status
    else if str_eq value (text "read-only")
    then some read_only
    else if str_eq value (text "operations")
    then some operations
    else if str_eq value (text "full")
    then some full
    else none

-- The kinds that the profile of operations adds to the reads.
unfoldable pub is_operation : ToolKind → Bool
is_operation ToolKind.stacks_deploy = true
is_operation ToolKind.stacks_restart = true
is_operation ToolKind.stacks_stop = true
is_operation ToolKind.deployments_deploy = true
is_operation ToolKind.deployments_restart = true
is_operation ToolKind.builds_run = true
is_operation ToolKind.builds_cancel = true
is_operation ToolKind.repos_pull = true
is_operation _ = false

-- ToolProfile::permits
unfoldable pub profile_permits : ToolProfile → ToolSpec → Bool
profile_permits status spec = spec.behavior.read_only
profile_permits read_only spec = spec.behavior.read_only
profile_permits operations spec = spec.behavior.read_only || is_operation spec.kind
profile_permits full spec = true

-- What `KomodoMcp` says of access: whether it has the administrative client, and its profile.
pub record Access : Type 0 where
  pub has_admin : Bool
  pub profile : ToolProfile

-- KomodoMcp::new
abbrev pub new : Access
new = record { has_admin = true; profile = full }

-- KomodoMcp::read_only and status_only
abbrev pub read_only_handler : Access
read_only_handler = record { has_admin = false; profile = status }

abbrev pub with_tool_profile : ToolProfile → Access → Access
with_tool_profile profile handler = record handler { profile = profile }

-- KomodoMcp::permits
unfoldable pub permits : Access → ToolSpec → Bool
permits handler spec =
    profile_permits handler.profile spec && (handler.has_admin || spec.behavior.read_only)

-- The specs behind the tools of a catalog.
unfoldable pub list_tools_for_profile : ToolProfile → List ToolSpec
list_tools_for_profile profile = retain (profile_permits profile) tool_registry

unfoldable pub available_tools : Access → List ToolSpec
available_tools handler =
    list_tools_for_profile (if not handler.has_admin then read_only else handler.profile)

-- The methods that `dispatch` calls.
pub data Handler : Type 0 where
  system_status search_servers server_status search_networks : Handler
  read_network search_stacks stack_status stack_diagnostics : Handler
  stack_config_read stack_compose_read stack_environment_read stack_commands_read : Handler
  stack_webhook_status stack_webhook_secret_read stack_logs_tail search_deployments : Handler
  deployment_status search_builds build_status search_repos : Handler
  repo_status search_operations operation_status operation_logs_read : Handler
  stack_config_patch stack_compose_write stack_environment_write stack_commands_write : Handler
  stack_file_write stack_webhook_update stack_webhook_secret_write : Handler
  mutate : Action → Handler

unfoldable pub route : ToolKind → Handler
route ToolKind.system_status = system_status
route ToolKind.servers_search = search_servers
route ToolKind.servers_status = server_status
route ToolKind.servers_networks_search = search_networks
route ToolKind.servers_networks_read = read_network
route ToolKind.stacks_search = search_stacks
route ToolKind.stacks_status = stack_status
route ToolKind.stacks_diagnostics = stack_diagnostics
route ToolKind.stacks_config_read = stack_config_read
route ToolKind.stacks_compose_read = stack_compose_read
route ToolKind.stacks_environment_read = stack_environment_read
route ToolKind.stacks_commands_read = stack_commands_read
route ToolKind.stacks_webhook_status = stack_webhook_status
route ToolKind.stacks_webhook_secret_read = stack_webhook_secret_read
route ToolKind.stacks_logs_tail = stack_logs_tail
route ToolKind.deployments_search = search_deployments
route ToolKind.deployments_status = deployment_status
route ToolKind.builds_search = search_builds
route ToolKind.builds_status = build_status
route ToolKind.repos_search = search_repos
route ToolKind.repos_status = repo_status
route ToolKind.operations_search = search_operations
route ToolKind.operations_status = operation_status
route ToolKind.operations_logs_read = operation_logs_read
route ToolKind.stacks_deploy = mutate deploy_stack
route ToolKind.stacks_restart = mutate restart_stack
route ToolKind.stacks_stop = mutate stop_stack
route ToolKind.deployments_deploy = mutate deploy_deployment
route ToolKind.deployments_restart = mutate restart_deployment
route ToolKind.builds_run = mutate run_build
route ToolKind.builds_cancel = mutate cancel_build
route ToolKind.repos_pull = mutate pull_repo
route ToolKind.stacks_config_patch = stack_config_patch
route ToolKind.stacks_compose_write = stack_compose_write
route ToolKind.stacks_environment_write = stack_environment_write
route ToolKind.stacks_commands_write = stack_commands_write
route ToolKind.stacks_file_write = stack_file_write
route ToolKind.stacks_webhook_update = stack_webhook_update
route ToolKind.stacks_webhook_secret_write = stack_webhook_secret_write

pub data DispatchError : Type 0 where
  method_not_found : DispatchError

unfoldable pub lookup : Access → Text → Option ToolSpec
lookup handler name = find (λ spec. str_eq spec.name name && permits handler spec) tool_registry

-- `dispatch`, up to the call of the method.
unfoldable pub dispatch : Access → Text → Result DispatchError Handler
dispatch handler name = do spec ← ok_or (lookup handler name) method_not_found; ok (route spec.kind)
