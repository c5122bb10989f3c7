-- ===== src/Mcp/Reads/Silent.antt =====
-- crates/komodo-mcp/src/lib.rs, networks.rs and history.rs: no reading method calls the administrative
-- client.
use mcp_komodo_rs.Prelude.{refl, is_empty, Result}
use mcp_komodo_rs.Prelude.Text.{Text}
use mcp_komodo_rs.Api.Resources.{ResourceListItem}
use mcp_komodo_rs.Api.Types.{InventoryPage}
use mcp_komodo_rs.Api.Errors.{ApiError}
use mcp_komodo_rs.Mcp.Inputs.Search.{SearchInput}
use mcp_komodo_rs.Mcp.Inputs.Validate.{LogTailInput}
use mcp_komodo_rs.Mcp.Tasks.Calls.{KomodoMcp, is_submission}
use mcp_komodo_rs.Mcp.Tasks.Counted.{
  IsReading, ended, reads, bind-IsReading, or_else-IsReading, answer-IsReading, if-IsReading,
  operation_lookup_error-IsReading,
}
use mcp_komodo_rs.Mcp.Reads.Inputs.{
  StatusInput, SelectorInput, ComposeReadInput, CollectionReadInput, OperationLogsInput,
  NetworkSearchInput, NetworkReadInput,
}
use mcp_komodo_rs.Mcp.Reads.Methods.{
  looked_up, system_status, search_reply, selected, search_servers, search_stacks,
  search_deployments, search_builds, search_repos, server_status, stack_status, deployment_status,
  build_status, repo_status,
}
use mcp_komodo_rs.Mcp.Reads.Stacks.{
  stack_diagnostics, read_stack, stack_config_read, stack_compose_read, stack_environment_read,
  stack_commands_read, stack_webhook_status, normalize_webhook_secret, stack_webhook_secret_read,
  stack_logs_tail,
}
use mcp_komodo_rs.Mcp.Reads.Networks.{search_networks, read_network}
use mcp_komodo_rs.Mcp.Reads.Operations.{operation_logs_read}

module _ (handler : KomodoMcp) where
  ruleset silent = (ended, reads, refl, bind-IsReading, answer-IsReading)

  pub system_status-IsReading : IsReading (system_status handler)
  unfolding system_status is_submission
  system_status-IsReading = search (silent)

  pub search_reply-IsReading :
      {I O : Type 0} (input : SearchInput) (normalize : ResourceListItem I → O)
      (reply : Result ApiError (InventoryPage I))
      → IsReading (search_reply handler input normalize reply)
  unfolding search_reply
  search_reply-IsReading input normalize reply = search (silent)

  pub selected-IsReading :
      {I : Type 0} (name : Text) (reply : Result ApiError (InventoryPage I))
      → IsReading (selected handler name reply)
  unfolding selected
  selected-IsReading name reply = search (silent)

  pub read_stack-IsReading : (name : Text) → IsReading (read_stack handler name)
  unfolding read_stack is_submission
  read_stack-IsReading name = search (silent, selected-IsReading)

  pub normalize_webhook_secret-IsReading :
      (secret : Text) → IsReading (normalize_webhook_secret handler secret)
  unfolding normalize_webhook_secret is_submission
  normalize_webhook_secret-IsReading secret =
      if-IsReading (is_empty secret) (ended _) (search (silent))

  pub search_servers-IsReading : (input : SearchInput) → IsReading (search_servers handler input)
  unfolding search_servers is_submission
  search_servers-IsReading input = search (silent, search_reply-IsReading)

  pub search_stacks-IsReading : (input : SearchInput) → IsReading (search_stacks handler input)
  unfolding search_stacks is_submission
  search_stacks-IsReading input = search (silent, search_reply-IsReading)

  pub search_deployments-IsReading :
      (input : SearchInput) → IsReading (search_deployments handler input)
  unfolding search_deployments is_submission
  search_deployments-IsReading input = search (silent, search_reply-IsReading)

  pub search_builds-IsReading : (input : SearchInput) → IsReading (search_builds handler input)
  unfolding search_builds is_submission
  search_builds-IsReading input = search (silent, search_reply-IsReading)

  pub search_repos-IsReading : (input : SearchInput) → IsReading (search_repos handler input)
  unfolding search_repos is_submission
  search_repos-IsReading input = search (silent, search_reply-IsReading)

  pub server_status-IsReading : (input : StatusInput) → IsReading (server_status handler input)
  unfolding server_status is_submission
  server_status-IsReading input = search (silent, selected-IsReading)

  pub stack_status-IsReading : (input : StatusInput) → IsReading (stack_status handler input)
  unfolding stack_status is_submission
  stack_status-IsReading input = search (silent, selected-IsReading)

  pub deployment_status-IsReading :
      (input : StatusInput) → IsReading (deployment_status handler input)
  unfolding deployment_status is_submission
  deployment_status-IsReading input = search (silent, selected-IsReading)

  pub build_status-IsReading : (input : StatusInput) → IsReading (build_status handler input)
  unfolding build_status is_submission
  build_status-IsReading input = search (silent, selected-IsReading)

  pub repo_status-IsReading : (input : StatusInput) → IsReading (repo_status handler input)
  unfolding repo_status is_submission
  repo_status-IsReading input = search (silent, selected-IsReading)

  pub stack_diagnostics-IsReading :
      (input : CollectionReadInput) → IsReading (stack_diagnostics handler input)
  unfolding stack_diagnostics is_submission
  stack_diagnostics-IsReading input = search (silent, selected-IsReading)

  pub stack_config_read-IsReading :
      (input : CollectionReadInput) → IsReading (stack_config_read handler input)
  unfolding stack_config_read is_submission
  stack_config_read-IsReading input = search (silent, read_stack-IsReading)

  pub stack_compose_read-IsReading :
      (input : ComposeReadInput) → IsReading (stack_compose_read handler input)
  unfolding stack_compose_read is_submission
  stack_compose_read-IsReading input = search (silent, read_stack-IsReading)

  pub stack_environment_read-IsReading :
      (input : SelectorInput) → IsReading (stack_environment_read handler input)
  unfolding stack_environment_read is_submission
  stack_environment_read-IsReading input = search (silent, read_stack-IsReading)

  pub stack_commands_read-IsReading :
      (input : SelectorInput) → IsReading (stack_commands_read handler input)
  unfolding stack_commands_read is_submission
  stack_commands_read-IsReading input = search (silent, read_stack-IsReading)

  pub stack_webhook_status-IsReading :
      (input : SelectorInput) → IsReading (stack_webhook_status handler input)
  unfolding stack_webhook_status is_submission
  stack_webhook_status-IsReading input = search (silent, read_stack-IsReading)

  pub stack_webhook_secret_read-IsReading :
      (input : SelectorInput) → IsReading (stack_webhook_secret_read handler input)
  unfolding stack_webhook_secret_read is_submission
  stack_webhook_secret_read-IsReading input =
      search (silent, read_stack-IsReading, normalize_webhook_secret-IsReading)

  pub stack_logs_tail-IsReading : (input : LogTailInput) → IsReading (stack_logs_tail handler input)
  unfolding stack_logs_tail is_submission
  stack_logs_tail-IsReading input = search (silent, selected-IsReading) depth 8

  pub search_networks-IsReading :
      (input : NetworkSearchInput) → IsReading (search_networks handler input)
  unfolding search_networks is_submission
  search_networks-IsReading input = search (silent, selected-IsReading) depth 9

  pub read_network-IsReading : (input : NetworkReadInput) → IsReading (read_network handler input)
  unfolding read_network is_submission
  read_network-IsReading input = search (silent, selected-IsReading) depth 8

  pub looked_up-IsReading :
      {A : Type 0} (reply : Result ApiError A) → IsReading (looked_up handler reply)
  looked_up-IsReading reply = or_else-IsReading reply _ (operation_lookup_error-IsReading handler)

  pub operation_logs_read-IsReading :
      (input : OperationLogsInput) → IsReading (operation_logs_read handler input)
  unfolding operation_logs_read is_submission
  operation_logs_read-IsReading input = search (silent, looked_up-IsReading)
