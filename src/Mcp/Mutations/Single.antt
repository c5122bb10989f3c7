-- ===== src/Mcp/Mutations/Single.antt =====
-- crates/komodo-mcp/src/lib.rs: each mutating method calls the administrative client once at most.
use mcp_komodo_rs.Prelude.{ℕ, Option, refl, List, Result}
use mcp_komodo_rs.Prelude.Text.{Text}
use mcp_komodo_rs.Prelude.Tasks.{done, or_else}
use mcp_komodo_rs.Api.Types.{
  Action, deploy_stack, restart_stack, stop_stack, deploy_deployment, restart_deployment, run_build,
  cancel_build, pull_repo, InventoryPage, StackConfigPatch,
}
use mcp_komodo_rs.Api.Errors.{ApiError}
use mcp_komodo_rs.Mcp.Tasks.Calls.{KomodoMcp, Call, Reply, Tool, is_submission}
use mcp_komodo_rs.Mcp.Tasks.Report.{admin, mutation_error}
use mcp_komodo_rs.Mcp.Tasks.Counted.{
  IsReading, ended, reads, IsSingle, submits, bind-IsReading, bind-IsSingle, or_else-IsReading,
  answer-IsReading, admin-IsReading, mutation_error-IsReading,
}
use mcp_komodo_rs.Mcp.Mutations.Submit.{
  select_id, resolve_stack_id, resolve_target, submit, mutate, write_patch,
}
use mcp_komodo_rs.Mcp.Mutations.Patches.{
  ConfigPatchInput, ComposeWriteInput, EnvironmentWriteInput, CommandsWriteInput, FileWriteInput,
  WebhookUpdateInput, WebhookSecretInput, inherited, custom, WebhookSecretWriteInput,
}
use mcp_komodo_rs.Mcp.Mutations.Methods.{
  stack_config_patch, stack_compose_write, stack_environment_write, stack_commands_write,
  stack_file_write, stack_webhook_update, webhook_secret, stack_webhook_secret_write,
}

module _ (handler : KomodoMcp) where
  select_id-IsReading :
      {I : Type 0} (name : Text) (reply : Result ApiError (InventoryPage I))
      → IsReading (select_id handler name reply)
  unfolding select_id
  select_id-IsReading name reply = search (ended, bind-IsReading, answer-IsReading)

  resolve_stack_id-IsReading : (name : Text) → IsReading (resolve_stack_id handler name)
  unfolding resolve_stack_id is_submission
  resolve_stack_id-IsReading name = reads _ _ refl (select_id-IsReading name)

  resolve_target-IsReading :
      (action : Action) (name : Text) → IsReading (resolve_target handler action name)
  unfolding resolve_target is_submission
  resolve_target-IsReading deploy_stack name = reads _ _ refl (select_id-IsReading name)
  resolve_target-IsReading restart_stack name = reads _ _ refl (select_id-IsReading name)
  resolve_target-IsReading stop_stack name = reads _ _ refl (select_id-IsReading name)
  resolve_target-IsReading deploy_deployment name = reads _ _ refl (select_id-IsReading name)
  resolve_target-IsReading restart_deployment name = reads _ _ refl (select_id-IsReading name)
  resolve_target-IsReading run_build name = reads _ _ refl (select_id-IsReading name)
  resolve_target-IsReading cancel_build name = reads _ _ refl (select_id-IsReading name)
  resolve_target-IsReading pull_repo name = reads _ _ refl (select_id-IsReading name)

  submit-IsSingle :
      {A B : Type 0} (submission : Text → Call)
      (outcome : (target : Text) → Reply (submission target) → Result ApiError B) (read_tool : Text)
      (output : Text → B → A) (resolve : Tool Text)
      → IsReading resolve
      → IsSingle (submit handler submission outcome read_tool output resolve)
  unfolding submit
  submit-IsSingle submission outcome read_tool output resolve reading =
      bind-IsSingle _ resolve reading (λ target.
        bind-IsSingle _ (admin handler) (admin-IsReading handler) (λ _.
          submits (submission target) _ (λ reply.
            bind-IsReading _
              (or_else (outcome target reply) (mutation_error handler target read_tool))
              (or_else-IsReading (outcome target reply) (mutation_error handler target read_tool)
                (mutation_error-IsReading handler target read_tool))
              (λ answer. ended _))))

  pub mutate-IsSingle : (action : Action) (name : Text) → IsSingle (mutate handler action name)
  unfolding mutate
  mutate-IsSingle action name =
      bind-IsSingle _ (done _) (ended _)
        (λ _. submit-IsSingle _ _ _ _ _ (resolve_target-IsReading action name))

  write_patch-IsSingle :
      (name : Text) (patch : StackConfigPatch) (applied : List Text) (read_tool : Text)
      → IsSingle (write_patch handler name patch applied read_tool)
  unfolding write_patch
  write_patch-IsSingle name patch applied read_tool =
      submit-IsSingle _ _ _ _ _ (resolve_stack_id-IsReading name)

  pub stack_config_patch-IsSingle :
      (input : ConfigPatchInput) → IsSingle (stack_config_patch handler input)
  unfolding stack_config_patch
  stack_config_patch-IsSingle input = search (ended, bind-IsSingle, write_patch-IsSingle)

  pub stack_compose_write-IsSingle :
      (input : ComposeWriteInput) → IsSingle (stack_compose_write handler input)
  unfolding stack_compose_write
  stack_compose_write-IsSingle input = search (ended, bind-IsSingle, write_patch-IsSingle)

  pub stack_environment_write-IsSingle :
      (input : EnvironmentWriteInput) → IsSingle (stack_environment_write handler input)
  unfolding stack_environment_write
  stack_environment_write-IsSingle input = search (ended, bind-IsSingle, write_patch-IsSingle)

  pub stack_commands_write-IsSingle :
      (input : CommandsWriteInput) → IsSingle (stack_commands_write handler input)
  unfolding stack_commands_write
  stack_commands_write-IsSingle input = search (ended, bind-IsSingle, write_patch-IsSingle)

  pub stack_webhook_update-IsSingle :
      (input : WebhookUpdateInput) → IsSingle (stack_webhook_update handler input)
  unfolding stack_webhook_update
  stack_webhook_update-IsSingle input = search (ended, bind-IsSingle, write_patch-IsSingle)

  pub stack_file_write-IsSingle :
      (input : FileWriteInput) → IsSingle (stack_file_write handler input)
  unfolding stack_file_write
  stack_file_write-IsSingle input =
      search (ended, bind-IsSingle, submit-IsSingle, resolve_stack_id-IsReading) depth 8

  module _ (from_utf8 : List ℕ → Option Text) where
    webhook_secret-IsReading :
        (secret : WebhookSecretInput) → IsReading (webhook_secret from_utf8 handler secret)
    unfolding webhook_secret is_submission
    webhook_secret-IsReading inherited = ended _
    webhook_secret-IsReading (custom file) = search (ended, reads, bind-IsReading)

    pub stack_webhook_secret_write-IsSingle :
        (input : WebhookSecretWriteInput)
        → IsSingle (stack_webhook_secret_write from_utf8 handler input)
    unfolding stack_webhook_secret_write
    stack_webhook_secret_write-IsSingle input =
        search
          (ended, bind-IsSingle, write_patch-IsSingle, admin-IsReading, webhook_secret-IsReading)
          depth 8
