-- ===== src/Mcp/Reads/Normalize.antt =====
-- crates/komodo-mcp/src/lib.rs: what the reading methods make of resources and operations.
use mcp_komodo_rs.Prelude.{
  ℕ, Bool, not, ◌&&◌, ◌||◌, if◌then◌else◌, Option, some, none, List, length, retain,
}
use mcp_komodo_rs.Prelude.Text.{Text, text, str_eq, to_ascii_lowercase}
use mcp_komodo_rs.Api.Resources.{
  ResourceListItem, ServerInfo, StackService, StackInfo, DeploymentInfo, BuildInfo, RepoInfo,
}
use mcp_komodo_rs.Api.Types.{OperationItem, OperationTarget}
use mcp_komodo_rs.Mcp.Operations.Outcome.{operation_outcome}
use mcp_komodo_rs.Mcp.Reads.Views.{
  ServerStatus, StackStatus, DeploymentStatus, BuildStatus, RepoStatus, OperationTargetView,
  OperationStatus,
}

unfoldable pub server_health : Text → Text
unfolding to_ascii_lowercase str_eq
server_health state =
    let lower = to_ascii_lowercase state in
    if str_eq lower (text "ok")
    then text "healthy"
    else if str_eq lower (text "disabled")
    then text "disabled"
    else text "unhealthy"

unfoldable pub normalize_server : ResourceListItem ServerInfo → ServerStatus
normalize_server item = record {
  id = item.id;
  name = item.name;
  state = item.info.state;
  health = server_health item.info.state;
  version = item.info.version;
  resource = some item;
}

unfoldable pub stack_health : Text → Bool → Text
unfolding to_ascii_lowercase str_eq
stack_health state project_missing =
    let lower = to_ascii_lowercase state in
    if str_eq lower (text "running") && not project_missing
    then text "healthy"
    else if str_eq lower (text "down")
    then text "down"
    else text "unhealthy"

unfoldable pub count_service_updates : List StackService → ℕ
count_service_updates services = length (retain (λ service. service.update_available) services)

unfoldable pub normalize_stack : ResourceListItem StackInfo → StackStatus
normalize_stack item = record {
  id = item.id;
  name = item.name;
  state = item.info.state;
  health = stack_health item.info.state item.info.project_missing;
  service_count = length item.info.services;
  services_with_updates = count_service_updates item.info.services;
  project_missing = item.info.project_missing;
  resource = some item;
}

unfoldable pub deployment_health : Text → Text
unfolding to_ascii_lowercase str_eq
deployment_health state =
    let lower = to_ascii_lowercase state in
    if str_eq lower (text "running")
    then text "healthy"
    else if str_eq lower (text "not_deployed")
    then text "down"
    else text "unhealthy"

unfoldable pub normalize_deployment : ResourceListItem DeploymentInfo → DeploymentStatus
normalize_deployment item = record {
  id = item.id;
  name = item.name;
  state = item.info.state;
  health = deployment_health item.info.state;
  update_available = item.info.update_available;
  resource = some item;
}

unfoldable pub build_health : Text → Text
unfolding to_ascii_lowercase str_eq
build_health state =
    let lower = to_ascii_lowercase state in
    if str_eq lower (text "ok")
    then text "healthy"
    else if str_eq lower (text "failed")
    then text "failed"
    else if str_eq lower (text "building")
    then text "building"
    else text "unknown"

unfoldable pub normalize_build : ResourceListItem BuildInfo → BuildStatus
normalize_build item = record {
  id = item.id;
  name = item.name;
  state = item.info.state;
  health = build_health item.info.state;
  last_built_at = item.info.last_built_at;
  resource = some item;
}

unfoldable pub repo_health : Text → Text
unfolding to_ascii_lowercase str_eq
repo_health state =
    let lower = to_ascii_lowercase state in
    if str_eq lower (text "ok")
    then text "healthy"
    else if str_eq lower (text "failed")
    then text "failed"
    else if str_eq lower (text "cloning")
        || (str_eq lower (text "pulling") || str_eq lower (text "building"))
    then text "active"
    else text "unknown"

unfoldable pub normalize_repo : ResourceListItem RepoInfo → RepoStatus
normalize_repo item = record {
  id = item.id;
  name = item.name;
  state = item.info.state;
  health = repo_health item.info.state;
  last_pulled_at = item.info.last_pulled_at;
  last_built_at = item.info.last_built_at;
  resource = some item;
}

abbrev pub target_view : Option OperationTarget → Option OperationTargetView
target_view none = none
target_view (some target) = some (record { kind = target.kind; id = target.id })

unfoldable pub normalize_operation : OperationItem → OperationStatus
normalize_operation item = record {
  details = some (record {
    previous_configuration = none;
    current_configuration = none;
    other_data = item.other_data;
  });
  id = item.id;
  operation = item.operation;
  start_ts = item.start_ts;
  success = (operation_outcome item.status item.success).1;
  status = item.status;
  outcome = (operation_outcome item.status item.success).0;
  target = target_view item.target;
  operator = item.operator;
  username = item.username;
  end_ts = item.end_ts;
  version = item.version;
  commit_hash = item.commit_hash;
}
