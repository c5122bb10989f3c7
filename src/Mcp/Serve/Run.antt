-- ===== src/Mcp/Serve/Run.antt =====
-- crates/komodo-mcp/src/lib.rs: the methods of `dispatch`, over what they parse their arguments to.
-- `prepare` takes the credentials out of a document of the operation history, and `from_utf8` is that of
-- the standard library.
use mcp_komodo_rs.Prelude.{ℕ, Option, List}
use mcp_komodo_rs.Prelude.Text.{Text}
use mcp_komodo_rs.Mcp.Inputs.Search.{SearchInput}
use mcp_komodo_rs.Mcp.Inputs.Validate.{LogTailInput}
use mcp_komodo_rs.Mcp.Operations.Outcome.{MutationOutput}
use mcp_komodo_rs.Mcp.Profile.Dispatch.{Handler}
use mcp_komodo_rs.Mcp.Tasks.Calls.{KomodoMcp, Tool}
use mcp_komodo_rs.Mcp.Reads.History.{PreparedDocument}
use mcp_komodo_rs.Mcp.Reads.Inputs.{
  StatusInput, SelectorInput, ComposeReadInput, CollectionReadInput, OperationLogsInput,
  OperationsSearchInput, OperationStatusInput, NetworkSearchInput, NetworkReadInput,
}
use mcp_komodo_rs.Mcp.Reads.Views.{
  SystemStatusOutput, ServerStatus, StackStatus, DeploymentStatus, BuildStatus, RepoStatus,
  StackDiagnostics, StackConfigView, ComposeView, EnvironmentView, CommandsView, WebhookStatusView,
  WebhookSecretView, LogTailView, NetworkSearchOutput, NetworkReadOutput, OperationLogsView,
  OperationSearchOutput, OperationStatus, SearchOutput,
}
use mcp_komodo_rs.Mcp.Reads.Methods
use mcp_komodo_rs.Mcp.Reads.Stacks
use mcp_komodo_rs.Mcp.Reads.Networks
use mcp_komodo_rs.Mcp.Reads.Operations
use mcp_komodo_rs.Mcp.Mutations.Patches.{
  ConfigPatchInput, ComposeWriteInput, EnvironmentWriteInput, CommandsWriteInput, FileWriteInput,
  WebhookUpdateInput, WebhookSecretWriteInput,
}
use mcp_komodo_rs.Mcp.Mutations.Submit.{ConfigWriteResult, mutate}
use mcp_komodo_rs.Mcp.Mutations.Methods.{FileWriteResult}
use mcp_komodo_rs.Mcp.Mutations.Methods as Writes

-- What each method parses its arguments to, and what it answers.
abbrev pub Input : Handler → Type 0
Input Handler.system_status = Unit {0}
Input Handler.search_servers = SearchInput
Input Handler.server_status = StatusInput
Input Handler.search_networks = NetworkSearchInput
Input Handler.read_network = NetworkReadInput
Input Handler.search_stacks = SearchInput
Input Handler.stack_status = StatusInput
Input Handler.stack_diagnostics = CollectionReadInput
Input Handler.stack_config_read = CollectionReadInput
Input Handler.stack_compose_read = ComposeReadInput
Input Handler.stack_environment_read = SelectorInput
Input Handler.stack_commands_read = SelectorInput
Input Handler.stack_webhook_status = SelectorInput
Input Handler.stack_webhook_secret_read = SelectorInput
Input Handler.stack_logs_tail = LogTailInput
Input Handler.search_deployments = SearchInput
Input Handler.deployment_status = StatusInput
Input Handler.search_builds = SearchInput
Input Handler.build_status = StatusInput
Input Handler.search_repos = SearchInput
Input Handler.repo_status = StatusInput
Input Handler.search_operations = OperationsSearchInput
Input Handler.operation_status = OperationStatusInput
Input Handler.operation_logs_read = OperationLogsInput
Input Handler.stack_config_patch = ConfigPatchInput
Input Handler.stack_compose_write = ComposeWriteInput
Input Handler.stack_environment_write = EnvironmentWriteInput
Input Handler.stack_commands_write = CommandsWriteInput
Input Handler.stack_file_write = FileWriteInput
Input Handler.stack_webhook_update = WebhookUpdateInput
Input Handler.stack_webhook_secret_write = WebhookSecretWriteInput
Input (Handler.mutate action) = SelectorInput

abbrev pub Output : Handler → Type 0
Output Handler.system_status = SystemStatusOutput
Output Handler.search_servers = SearchOutput ServerStatus
Output Handler.server_status = ServerStatus
Output Handler.search_networks = NetworkSearchOutput
Output Handler.read_network = NetworkReadOutput
Output Handler.search_stacks = SearchOutput StackStatus
Output Handler.stack_status = StackStatus
Output Handler.stack_diagnostics = StackDiagnostics
Output Handler.stack_config_read = StackConfigView
Output Handler.stack_compose_read = ComposeView
Output Handler.stack_environment_read = EnvironmentView
Output Handler.stack_commands_read = CommandsView
Output Handler.stack_webhook_status = WebhookStatusView
Output Handler.stack_webhook_secret_read = WebhookSecretView
Output Handler.stack_logs_tail = LogTailView
Output Handler.search_deployments = SearchOutput DeploymentStatus
Output Handler.deployment_status = DeploymentStatus
Output Handler.search_builds = SearchOutput BuildStatus
Output Handler.build_status = BuildStatus
Output Handler.search_repos = SearchOutput RepoStatus
Output Handler.repo_status = RepoStatus
Output Handler.search_operations = OperationSearchOutput
Output Handler.operation_status = OperationStatus
Output Handler.operation_logs_read = OperationLogsView
Output Handler.stack_config_patch = ConfigWriteResult
Output Handler.stack_compose_write = ConfigWriteResult
Output Handler.stack_environment_write = ConfigWriteResult
Output Handler.stack_commands_write = ConfigWriteResult
Output Handler.stack_file_write = FileWriteResult
Output Handler.stack_webhook_update = ConfigWriteResult
Output Handler.stack_webhook_secret_write = ConfigWriteResult
Output (Handler.mutate action) = MutationOutput

module _ (prepare : Text → PreparedDocument) (from_utf8 : List ℕ → Option Text)
    (handler : KomodoMcp) where
  -- The method after its arguments are parsed.
  unfoldable pub run : (method : Handler) → Input method → Tool (Output method)
  run Handler.system_status input = Methods.system_status handler
  run Handler.search_servers input = Methods.search_servers handler input
  run Handler.server_status input = Methods.server_status handler input
  run Handler.search_networks input = Networks.search_networks handler input
  run Handler.read_network input = Networks.read_network handler input
  run Handler.search_stacks input = Methods.search_stacks handler input
  run Handler.stack_status input = Methods.stack_status handler input
  run Handler.stack_diagnostics input = Stacks.stack_diagnostics handler input
  run Handler.stack_config_read input = Stacks.stack_config_read handler input
  run Handler.stack_compose_read input = Stacks.stack_compose_read handler input
  run Handler.stack_environment_read input = Stacks.stack_environment_read handler input
  run Handler.stack_commands_read input = Stacks.stack_commands_read handler input
  run Handler.stack_webhook_status input = Stacks.stack_webhook_status handler input
  run Handler.stack_webhook_secret_read input = Stacks.stack_webhook_secret_read handler input
  run Handler.stack_logs_tail input = Stacks.stack_logs_tail handler input
  run Handler.search_deployments input = Methods.search_deployments handler input
  run Handler.deployment_status input = Methods.deployment_status handler input
  run Handler.search_builds input = Methods.search_builds handler input
  run Handler.build_status input = Methods.build_status handler input
  run Handler.search_repos input = Methods.search_repos handler input
  run Handler.repo_status input = Methods.repo_status handler input
  run Handler.search_operations input = Operations.search_operations prepare handler input
  run Handler.operation_status input = Operations.operation_status prepare handler input
  run Handler.operation_logs_read input = Operations.operation_logs_read handler input
  run Handler.stack_config_patch input = Writes.stack_config_patch handler input
  run Handler.stack_compose_write input = Writes.stack_compose_write handler input
  run Handler.stack_environment_write input = Writes.stack_environment_write handler input
  run Handler.stack_commands_write input = Writes.stack_commands_write handler input
  run Handler.stack_file_write input = Writes.stack_file_write handler input
  run Handler.stack_webhook_update input = Writes.stack_webhook_update handler input
  run Handler.stack_webhook_secret_write input =
      Writes.stack_webhook_secret_write from_utf8 handler input
  run (Handler.mutate action) input = mutate handler action input.selector
