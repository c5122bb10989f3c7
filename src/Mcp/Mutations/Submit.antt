-- ===== src/Mcp/Mutations/Submit.antt =====
-- crates/komodo-mcp/src/lib.rs: `mutate`, `resolve_stack_id`, and what the writing methods have in
-- common: they resolve the target, check the lifetime, submit, and report.
use mcp_komodo_rs.Prelude.{List, Result, ok}
use mcp_komodo_rs.Prelude.Text.{Text, text}
use mcp_komodo_rs.Prelude.Tasks.{done, call, ◌>>=◌, ◌>>◌, await, or_else}
use mcp_komodo_rs.Api.Types.{
  Action, deploy_stack, restart_stack, stop_stack, deploy_deployment, restart_deployment, run_build,
  cancel_build, pull_repo, InventoryPage, selector, StackConfigPatch,
}
use mcp_komodo_rs.Api.Errors.{ApiError}
use mcp_komodo_rs.Mcp.Inputs.Validate.{validate_selector}
use mcp_komodo_rs.Mcp.Inputs.Select.{select}
use mcp_komodo_rs.Mcp.Operations.Outcome.{MutationOutput, normalize_receipt}
use mcp_komodo_rs.Mcp.Tasks.Calls.{
  KomodoMcp, Call, Reply, Tool, stacks_inventory, deployments_inventory, builds_inventory,
  repos_inventory, execute, update_stack,
}
use mcp_komodo_rs.Mcp.Tasks.Report.{api_error, mutation_error, admin}

pub record ConfigWriteResult : Type 0 where
  pub target : Text
  pub applied : List Text

module _ (handler : KomodoMcp) where
  -- `select(reply.map_err(…)?.items, selector)?.id`
  unfoldable pub select_id : {I : Type 0} → Text → Result ApiError (InventoryPage I) → Tool Text
  select_id name reply = do
    page ← or_else reply (api_error handler)
    item ← done (select page.items name)
    done (ok item.id)

  unfoldable pub resolve_stack_id : Text → Tool Text
  unfolding select_id
  resolve_stack_id name = call (stacks_inventory (selector name)) (select_id name)

  -- The target of `mutate`, from the inventory of the action's kind.
  unfoldable pub resolve_target : Action → Text → Tool Text
  unfolding select_id
  resolve_target deploy_stack name = call (stacks_inventory (selector name)) (select_id name)
  resolve_target restart_stack name = call (stacks_inventory (selector name)) (select_id name)
  resolve_target stop_stack name = call (stacks_inventory (selector name)) (select_id name)
  resolve_target deploy_deployment name =
      call (deployments_inventory (selector name)) (select_id name)
  resolve_target restart_deployment name =
      call (deployments_inventory (selector name)) (select_id name)
  resolve_target run_build name = call (builds_inventory (selector name)) (select_id name)
  resolve_target cancel_build name = call (builds_inventory (selector name)) (select_id name)
  resolve_target pull_repo name = call (repos_inventory (selector name)) (select_id name)

  -- `self.admin()?.…(&target, …).await.map_err(…)?`, after the target is resolved, and the output.
  unfoldable pub submit :
      {A B : Type 0} (submission : Text → Call)
      → ((target : Text) → Reply (submission target) → Result ApiError B)
      → Text
      → (Text → B → A)
      → Tool Text
      → Tool A
  submit submission outcome read_tool output resolve = do
    target ← resolve
    admin handler
    reply ← await (submission target)
    answer ← or_else (outcome target reply) (mutation_error handler target read_tool)
    done (ok (output target answer))

  unfoldable pub mutate : Action → Text → Tool MutationOutput
  mutate action name =
      done (validate_selector name)
      >> submit (execute action) (λ _ reply. reply) (text "operations.search")
          (λ target receipt. normalize_receipt receipt target) (resolve_target action name)

  -- The end of a method that patches the configuration of a stack.
  unfoldable pub write_patch : Text → StackConfigPatch → List Text → Text → Tool ConfigWriteResult
  write_patch name patch applied read_tool =
      submit (λ target. update_stack target patch) (λ _ reply. reply) read_tool
        (λ target _. record { target = target; applied = applied }) (resolve_stack_id name)
