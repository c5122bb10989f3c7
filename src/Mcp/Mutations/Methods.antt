-- ===== src/Mcp/Mutations/Methods.antt =====
-- crates/komodo-mcp/src/lib.rs: the methods that write to a stack. `from_utf8` is that of the standard
-- library, on the bytes of a credential file.
use mcp_komodo_rs.Prelude.{ℕ, Option, some, List, [], ◌∷◌, ok, ok_or}
use mcp_komodo_rs.Prelude.Text.{Text, text}
use mcp_komodo_rs.Prelude.Tasks.{done, ◌>>=◌, ◌>>◌, await}
use mcp_komodo_rs.Api.Types.{default, MutationReceipt}
use mcp_komodo_rs.Mcp.Errors.{invalid_params}
use mcp_komodo_rs.Mcp.Inputs.Validate.{
  validate_selector, validate_write_content, validate_write_path,
}
use mcp_komodo_rs.Mcp.Operations.Outcome.{OperationOutcome, operation_outcome}
use mcp_komodo_rs.Mcp.Tasks.Calls.{KomodoMcp, Tool, take, write_stack_file}
use mcp_komodo_rs.Mcp.Tasks.Report.{admin}
use mcp_komodo_rs.Mcp.Mutations.Submit.{submit, resolve_stack_id, ConfigWriteResult, write_patch}
use mcp_komodo_rs.Mcp.Mutations.Patches.{
  ConfigPatchInput, ComposeWriteInput, EnvironmentWriteInput, CommandsWriteInput, FileWriteInput,
  WebhookUpdateInput, WebhookSecretInput, inherited, custom, WebhookSecretWriteInput, config_patch,
  commands_patch, webhook_patch, secret_text,
}

pub record FileWriteResult : Type 0 where
  pub target : Text
  pub applied : List Text
  pub file_path : Text
  pub operation_id : Text
  pub status : Text
  pub outcome : OperationOutcome

unfoldable pub file_write_result : FileWriteInput → Text → MutationReceipt → FileWriteResult
file_write_result input target receipt = record {
  target = target;
  applied = text "file" ∷ [];
  file_path = input.file_path;
  operation_id = receipt.operation_id;
  status = receipt.status;
  outcome = (operation_outcome receipt.status receipt.success).0;
}

module _ (handler : KomodoMcp) where
  unfoldable pub stack_config_patch : ConfigPatchInput → Tool ConfigWriteResult
  stack_config_patch input = do
    done (validate_selector input.selector)
    patched ← done (config_patch input)
    write_patch handler input.selector patched.0 patched.1 (text "stacks.config.read")

  unfoldable pub stack_compose_write : ComposeWriteInput → Tool ConfigWriteResult
  stack_compose_write input = do
    done (validate_selector input.selector)
    done (validate_write_content input.contents)
    write_patch handler input.selector (record default { file_contents = some input.contents })
        (text "fileContents" ∷ []) (text "stacks.compose.read")

  unfoldable pub stack_environment_write : EnvironmentWriteInput → Tool ConfigWriteResult
  stack_environment_write input = do
    done (validate_selector input.selector)
    done (validate_write_content input.environment)
    write_patch handler input.selector (record default { environment = some input.environment })
        (text "environment" ∷ []) (text "stacks.environment.read")

  unfoldable pub stack_commands_write : CommandsWriteInput → Tool ConfigWriteResult
  stack_commands_write input = do
    done (validate_selector input.selector)
    patched ← done (commands_patch input)
    write_patch handler input.selector patched.0 patched.1 (text "stacks.commands.read")

  unfoldable pub stack_file_write : FileWriteInput → Tool FileWriteResult
  stack_file_write input = do
    done (validate_selector input.selector)
    done (validate_write_path input.file_path)
    done (validate_write_content input.contents)
    submit handler (λ target. write_stack_file target input.file_path input.contents)
        (λ _ reply. reply) (text "operations.search") (file_write_result input)
        (resolve_stack_id handler input.selector)

  unfoldable pub stack_webhook_update : WebhookUpdateInput → Tool ConfigWriteResult
  stack_webhook_update input = do
    done (validate_selector input.selector)
    patched ← done (webhook_patch input)
    write_patch handler input.selector patched.0 patched.1 (text "stacks.webhook.status")

module _ (from_utf8 : List ℕ → Option Text) (handler : KomodoMcp) where
  unfoldable pub webhook_secret : WebhookSecretInput → Tool Text
  webhook_secret inherited = done (ok [])
  webhook_secret (custom file) = do
    owner ← done (
        ok_or handler.credential_files
          (invalid_params (text "literal credential values require native file transfer")))
    reply ← await (take owner file.uri)
    bytes ← done reply
    done (secret_text from_utf8 bytes)

  unfoldable pub stack_webhook_secret_write : WebhookSecretWriteInput → Tool ConfigWriteResult
  stack_webhook_secret_write input = do
    done (validate_selector input.selector)
    admin handler
    secret ← webhook_secret input.secret
    write_patch handler input.selector (record default { webhook_secret = some secret })
        (text "webhookSecret" ∷ []) (text "stacks.webhook.secret.read")
