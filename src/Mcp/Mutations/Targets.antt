-- ===== src/Mcp/Mutations/Targets.antt =====
-- crates/komodo-mcp/src/lib.rs: how the mutating methods resolve their target.
use mcp_komodo_rs.Prelude.{◌≡◌, refl, inl, inr, [], ◌∷◌, All, Result, ok, err, Result-cases}
use mcp_komodo_rs.Prelude.Text.{Text}
use mcp_komodo_rs.Prelude.Tasks.{done, ◌>>=◌, Always, After, Always-bind, Always-map}
use mcp_komodo_rs.Api.Resources.{ResourceListItem}
use mcp_komodo_rs.Api.Types.{
  Action, deploy_stack, restart_stack, stop_stack, deploy_deployment, restart_deployment, run_build,
  cancel_build, pull_repo, InventoryRequest, InventoryPage, selector,
}
use mcp_komodo_rs.Api.Errors.{ApiError}
use mcp_komodo_rs.Mcp.Errors.{McpError}
use mcp_komodo_rs.Mcp.Inputs.Select.{select}
use mcp_komodo_rs.Mcp.Inputs.Selects.{IsSelected, select_sound}
use mcp_komodo_rs.Mcp.Tasks.Calls.{
  KomodoMcp, Call, Reply, Tool, Log, is_submission, stacks_inventory, deployments_inventory,
  builds_inventory, repos_inventory,
}
use mcp_komodo_rs.Mcp.Tasks.Report.{api_error}
use mcp_komodo_rs.Mcp.Tasks.Quiet.{IsQuiet, api_error-quiet}
use mcp_komodo_rs.Mcp.Mutations.Submit.{select_id, resolve_stack_id, resolve_target}
use mcp_komodo_rs.Mcp.Mutations.Once.{Resolves, resolves, fails, IsQuiet-append}

-- The target is the id of the item that the selector picks from a page of this inventory, the one
-- call made since the earlier ones.
pub record IsTarget {I : Type 0} (inventory : InventoryRequest → Call)
    (as_reply : (q : InventoryRequest) → Result ApiError (InventoryPage I) → Reply (inventory q))
    (earlier : Log) (name target : Text) (h : Log) : Type 0 where
  pub page : InventoryPage I
  pub item : ResourceListItem I
  pub read : h ≡ (inventory (selector name), as_reply (selector name) (ok page)) ∷ earlier
  pub selected : IsSelected page.items name item
  pub id : item.id ≡ target

abbrev pub IsStack : Log → Text → Text → Log → Type 0
IsStack = IsTarget stacks_inventory (λ _ reply. reply)

-- The target of an action is one of the inventory of its kind.
abbrev pub IsTargetOf : Action → Text → Text → Log → Type 0
IsTargetOf deploy_stack = IsStack []
IsTargetOf restart_stack = IsStack []
IsTargetOf stop_stack = IsStack []
IsTargetOf deploy_deployment = IsTarget deployments_inventory (λ _ reply. reply) []
IsTargetOf restart_deployment = IsTarget deployments_inventory (λ _ reply. reply) []
IsTargetOf run_build = IsTarget builds_inventory (λ _ reply. reply) []
IsTargetOf cancel_build = IsTarget builds_inventory (λ _ reply. reply) []
IsTargetOf pull_repo = IsTarget repos_inventory (λ _ reply. reply) []

module _ (handler : KomodoMcp) where
  module _ {I : Type 0} (inventory : InventoryRequest → Call)
      (as_reply : (q : InventoryRequest) → Result ApiError (InventoryPage I) → Reply (inventory q))
      (name : Text) (earlier : Log) where
    select_id-Resolves :
        (reply : Result ApiError (InventoryPage I))
        → All IsQuiet ((inventory (selector name), as_reply (selector name) reply) ∷ earlier)
        → Always
            (Resolves (IsTarget inventory as_reply earlier name))
            ((inventory (selector name), as_reply (selector name) reply) ∷ earlier)
            (select_id handler name reply)
    unfolding select_id
    select_id-Resolves (ok page) quiet = elim (Result-cases (select page.items name)) [
      | inl (item, e) ↦ rw e (
          resolves quiet item.id refl (record {
            page = page;
            item = item;
            read = refl;
            selected = select_sound page.items name item e;
            id = refl;
          }))
      | inr (error, e) ↦ rw e (fails quiet error refl)
    ]
    select_id-Resolves (err error) quiet =
        let h : Log = (inventory (selector name), as_reply (selector name) (err error)) ∷ earlier in
        let P = Resolves (IsTarget inventory as_reply earlier name) in
        let finish : InventoryPage I → Tool Text =
          λ page. done (select page.items name) >>= λ item. done (ok item.id) in
        let raise : McpError → Tool (InventoryPage I) = λ e. done (err e) in
        Always-bind P finish h (api_error handler error >>= raise) (
          Always-bind (After P finish) raise h (api_error handler error) (
            Always-map
              (λ h' r x.
                rw (x.holds.1, x.events)
                  (fails (IsQuiet-append x.after h x.quiet quiet) x.holds.0 refl))
              h (api_error handler error) (api_error-quiet handler error h)))

  -- A stack is resolved by the selector, from its inventory.
  pub resolve_stack_id-Resolves :
      (name : Text) (h : Log)
      → All IsQuiet h
      → Always (Resolves (IsStack h name)) h (resolve_stack_id handler name)
  unfolding resolve_stack_id is_submission
  resolve_stack_id-Resolves name h quiet =
      λ reply. select_id-Resolves stacks_inventory (λ _ reply. reply) name h reply (refl, quiet)

  -- The target of an action is resolved by the selector, from the inventory of the action's kind.
  pub resolve_target-Resolves :
      (action : Action) (name : Text)
      → Always (Resolves (IsTargetOf action name)) [] (resolve_target handler action name)
  unfolding resolve_target is_submission
  resolve_target-Resolves deploy_stack name =
      λ reply. select_id-Resolves stacks_inventory (λ _ reply. reply) name [] reply (refl, tt)
  resolve_target-Resolves restart_stack name =
      λ reply. select_id-Resolves stacks_inventory (λ _ reply. reply) name [] reply (refl, tt)
  resolve_target-Resolves stop_stack name =
      λ reply. select_id-Resolves stacks_inventory (λ _ reply. reply) name [] reply (refl, tt)
  resolve_target-Resolves deploy_deployment name =
      λ reply. select_id-Resolves deployments_inventory (λ _ reply. reply) name [] reply (refl, tt)
  resolve_target-Resolves restart_deployment name =
      λ reply. select_id-Resolves deployments_inventory (λ _ reply. reply) name [] reply (refl, tt)
  resolve_target-Resolves run_build name =
      λ reply. select_id-Resolves builds_inventory (λ _ reply. reply) name [] reply (refl, tt)
  resolve_target-Resolves cancel_build name =
      λ reply. select_id-Resolves builds_inventory (λ _ reply. reply) name [] reply (refl, tt)
  resolve_target-Resolves pull_repo name =
      λ reply. select_id-Resolves repos_inventory (λ _ reply. reply) name [] reply (refl, tt)
