-- ===== src/Mcp/Reads/Stacks.antt =====
-- crates/komodo-mcp/src/lib.rs: the methods that read one stack.
use mcp_komodo_rs.Prelude.{true, false, if◌then◌else◌, some, none, is_empty, ok, ok_or}
use mcp_komodo_rs.Prelude.Text.{Text, text, as_bytes}
use mcp_komodo_rs.Prelude.Tasks.{done, call, ◌>>=◌, ◌>>◌, await}
use mcp_komodo_rs.Api.Resources.{ResourceListItem, StackInfo}
use mcp_komodo_rs.Api.Types.{selector}
use mcp_komodo_rs.Api.Stacks.{StackDetail}
use mcp_komodo_rs.Mcp.Errors.{invalid_params}
use mcp_komodo_rs.Mcp.Inputs.Validate.{validate_selector, LogTailInput, validate_log_tail}
use mcp_komodo_rs.Mcp.Inputs.Window.{validate}
use mcp_komodo_rs.Mcp.Tasks.Calls.{
  KomodoMcp, Tool, stacks_inventory, stack_detail, stack_log, publish,
}
use mcp_komodo_rs.Mcp.Reads.Inputs.{SelectorInput, ComposeReadInput, CollectionReadInput}
use mcp_komodo_rs.Mcp.Reads.Views.{
  StackDiagnostics, StackConfigView, ComposeView, EnvironmentView, CommandsView, WebhookStatusView,
  WebhookSecretView, LogTailView,
}
use mcp_komodo_rs.Mcp.Reads.Methods.{answer, selected}
use mcp_komodo_rs.Mcp.Reads.StackViews.{
  normalize_stack_diagnostics, normalize_stack_config, normalize_compose, normalize_commands,
  normalize_webhook_status,
}

module _ (handler : KomodoMcp) where
  unfoldable pub stack_diagnostics : CollectionReadInput → Tool StackDiagnostics
  unfolding selected
  stack_diagnostics input = do
    done (validate_selector input.selector)
    done (validate input.window)
    item ← call (stacks_inventory (selector input.selector)) (selected handler input.selector)
    done (ok (normalize_stack_diagnostics item input.window))

  -- The stack that a selector names, with its detail.
  unfoldable pub read_stack : Text → Tool (ResourceListItem StackInfo × StackDetail)
  unfolding selected
  read_stack name = do
    item ← call (stacks_inventory (selector name)) (selected handler name)
    reply ← await (stack_detail item.id)
    found ← answer handler reply
    done (ok (item, found))

  unfoldable pub stack_config_read : CollectionReadInput → Tool StackConfigView
  unfolding read_stack
  stack_config_read input = do
    done (validate_selector input.selector)
    done (validate input.window)
    stack ← read_stack input.selector
    done (ok (normalize_stack_config (stack.0).name (stack.1).config input.window))

  unfoldable pub stack_compose_read : ComposeReadInput → Tool ComposeView
  unfolding read_stack
  stack_compose_read input = do
    done (validate_selector input.selector)
    done (validate input.window)
    stack ← read_stack input.selector
    done (ok (normalize_compose input.source stack.1 input.window))

  unfoldable pub stack_environment_read : SelectorInput → Tool EnvironmentView
  unfolding read_stack
  stack_environment_read input = do
    done (validate_selector input.selector)
    stack ← read_stack input.selector
    done (ok (record { environment = (stack.1).config.environment }))

  unfoldable pub stack_commands_read : SelectorInput → Tool CommandsView
  unfolding read_stack
  stack_commands_read input = do
    done (validate_selector input.selector)
    stack ← read_stack input.selector
    done (ok (normalize_commands (stack.1).config))

  unfoldable pub stack_webhook_status : SelectorInput → Tool WebhookStatusView
  unfolding read_stack
  stack_webhook_status input = do
    done (validate_selector input.selector)
    stack ← read_stack input.selector
    done (ok (normalize_webhook_status (stack.1).config))

  unfoldable pub normalize_webhook_secret : Text → Tool WebhookSecretView
  normalize_webhook_secret secret =
      if is_empty secret
      then done (ok (record { source = text "inherited"; value_available = false; file = none }))
      else do
        owner ← done (
            ok_or handler.credential_files
              (invalid_params (text "literal credential values require native file transfer")))
        reply ←
            await (publish owner (text "webhook-token.txt") (text "text/plain") (as_bytes secret))
        file ← done reply
        done (ok (record { source = text "custom"; value_available = true; file = some file }))

  unfoldable pub stack_webhook_secret_read : SelectorInput → Tool WebhookSecretView
  unfolding read_stack normalize_webhook_secret
  stack_webhook_secret_read input = do
    done (validate_selector input.selector)
    stack ← read_stack input.selector
    normalize_webhook_secret (stack.1).config.webhook_secret

  unfoldable pub stack_logs_tail : LogTailInput → Tool LogTailView
  unfolding selected
  stack_logs_tail input = do
    done (validate_log_tail input)
    item ← call (stacks_inventory (selector input.selector)) (selected handler input.selector)
    reply ← await (stack_log item.id input.services input.tail input.timestamps)
    log ← answer handler reply
    done (
        ok (record {
          command = log.command;
          stdout = log.stdout;
          stderr = log.stderr;
          success = log.success;
        }))
