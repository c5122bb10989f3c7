-- ===== src/Mcp/Reads/Methods.antt =====
-- crates/komodo-mcp/src/lib.rs: the methods that search resources and give their status, after the
-- parsing of their arguments, and what the reading methods have in common.
use mcp_komodo_rs.Prelude.{true, none, Result, ok}
use mcp_komodo_rs.Prelude.Text.{Text}
use mcp_komodo_rs.Prelude.Tasks.{done, call, ◌>>=◌, ◌>>◌, await, or_else}
use mcp_komodo_rs.Api.Resources.{
  ResourceListItem, ServerInfo, StackInfo, DeploymentInfo, BuildInfo, RepoInfo,
}
use mcp_komodo_rs.Api.Types.{InventoryPage, page, selector}
use mcp_komodo_rs.Api.Errors.{ApiError}
use mcp_komodo_rs.Mcp.Inputs.Validate.{validate_selector}
use mcp_komodo_rs.Mcp.Inputs.Select.{select}
use mcp_komodo_rs.Mcp.Inputs.Search.{
  Projection, summary, detail, SearchInput, validate_search, search,
}
use mcp_komodo_rs.Mcp.Tasks.Calls.{
  KomodoMcp, Tool, servers_inventory, stacks_inventory, deployments_inventory, builds_inventory,
  repos_inventory, version,
}
use mcp_komodo_rs.Mcp.Tasks.Report.{api_error, operation_lookup_error}
use mcp_komodo_rs.Mcp.Reads.Inputs.{StatusInput}
use mcp_komodo_rs.Mcp.Reads.Views.{
  SystemStatusOutput, ServerStatus, StackStatus, DeploymentStatus, BuildStatus, RepoStatus,
  SearchOutput,
}
use mcp_komodo_rs.Mcp.Reads.Normalize.{
  normalize_server, normalize_stack, normalize_deployment, normalize_build, normalize_repo,
}

-- `if input.projection == Projection::Summary { status.resource = None; }`
unfoldable pub server_view : Projection → ResourceListItem ServerInfo → ServerStatus
unfolding normalize_server
server_view summary item = record (normalize_server item) { resource = none }
server_view detail item = normalize_server item

unfoldable pub stack_view : Projection → ResourceListItem StackInfo → StackStatus
unfolding normalize_stack
stack_view summary item = record (normalize_stack item) { resource = none }
stack_view detail item = normalize_stack item

unfoldable pub deployment_view : Projection → ResourceListItem DeploymentInfo → DeploymentStatus
unfolding normalize_deployment
deployment_view summary item = record (normalize_deployment item) { resource = none }
deployment_view detail item = normalize_deployment item

unfoldable pub build_view : Projection → ResourceListItem BuildInfo → BuildStatus
unfolding normalize_build
build_view summary item = record (normalize_build item) { resource = none }
build_view detail item = normalize_build item

unfoldable pub repo_view : Projection → ResourceListItem RepoInfo → RepoStatus
unfolding normalize_repo
repo_view summary item = record (normalize_repo item) { resource = none }
repo_view detail item = normalize_repo item

module _ (handler : KomodoMcp) where
  -- `reply.map_err(|error| self.api_error(error))?`
  abbrev pub answer : {A : Type 0} → Result ApiError A → Tool A
  answer reply = or_else reply (api_error handler)

  abbrev pub looked_up : {A : Type 0} → Result ApiError A → Tool A
  looked_up reply = or_else reply (operation_lookup_error handler)

  unfoldable pub system_status : Tool SystemStatusOutput
  system_status = do
    reply ← await version
    running ← answer reply
    done (ok (record { version = running; reachable = true }))

  -- What the search methods do with a page of the inventory.
  unfoldable pub search_reply :
      {I O : Type 0}
      → SearchInput
      → (ResourceListItem I → O)
      → Result ApiError (InventoryPage I)
      → Tool (SearchOutput O)
  search_reply input normalize reply = do
    listed ← answer reply
    output ← done (search listed.items input normalize)
    done (
        ok (record {
          items = output.items;
          next_page = listed.next_page;
          next_offset = output.next_offset;
          truncated = output.truncated;
        }))

  -- `select(….items, &input.selector)?`
  unfoldable pub selected :
      {I : Type 0} → Text → Result ApiError (InventoryPage I) → Tool (ResourceListItem I)
  selected name reply = do listed ← answer reply; done (select listed.items name)

  unfoldable pub search_servers : SearchInput → Tool (SearchOutput ServerStatus)
  unfolding search_reply
  search_servers input = do
    _ ← done (validate_search input)
    call (servers_inventory (page input.page)) (search_reply input (server_view input.projection))

  unfoldable pub search_stacks : SearchInput → Tool (SearchOutput StackStatus)
  unfolding search_reply
  search_stacks input = do
    _ ← done (validate_search input)
    call (stacks_inventory (page input.page)) (search_reply input (stack_view input.projection))

  unfoldable pub search_deployments : SearchInput → Tool (SearchOutput DeploymentStatus)
  unfolding search_reply
  search_deployments input = do
    _ ← done (validate_search input)
    call (deployments_inventory (page input.page))
        (search_reply input (deployment_view input.projection))

  unfoldable pub search_builds : SearchInput → Tool (SearchOutput BuildStatus)
  unfolding search_reply
  search_builds input = do
    _ ← done (validate_search input)
    call (builds_inventory (page input.page)) (search_reply input (build_view input.projection))

  unfoldable pub search_repos : SearchInput → Tool (SearchOutput RepoStatus)
  unfolding search_reply
  search_repos input = do
    _ ← done (validate_search input)
    call (repos_inventory (page input.page)) (search_reply input (repo_view input.projection))

  unfoldable pub server_status : StatusInput → Tool ServerStatus
  unfolding selected
  server_status input = do
    done (validate_selector input.selector)
    item ← call (servers_inventory (selector input.selector)) (selected input.selector)
    done (ok (server_view input.projection item))

  unfoldable pub stack_status : StatusInput → Tool StackStatus
  unfolding selected
  stack_status input = do
    done (validate_selector input.selector)
    item ← call (stacks_inventory (selector input.selector)) (selected input.selector)
    done (ok (stack_view input.projection item))

  unfoldable pub deployment_status : StatusInput → Tool DeploymentStatus
  unfolding selected
  deployment_status input = do
    done (validate_selector input.selector)
    item ← call (deployments_inventory (selector input.selector)) (selected input.selector)
    done (ok (deployment_view input.projection item))

  unfoldable pub build_status : StatusInput → Tool BuildStatus
  unfolding selected
  build_status input = do
    done (validate_selector input.selector)
    item ← call (builds_inventory (selector input.selector)) (selected input.selector)
    done (ok (build_view input.projection item))

  unfoldable pub repo_status : StatusInput → Tool RepoStatus
  unfolding selected
  repo_status input = do
    done (validate_selector input.selector)
    item ← call (repos_inventory (selector input.selector)) (selected input.selector)
    done (ok (repo_view input.projection item))
