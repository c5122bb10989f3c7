-- ===== src/Mcp/Mutations/Promises.antt =====
-- crates/komodo-mcp/src/lib.rs: what the mutating methods promise, whatever the calls reply.
use mcp_komodo_rs.Prelude.{
  ◌≡◌, refl, inl, inr, true, false, ◌&&◌, is_some_and, [], Result, ok, Result-cases, arith,
}
use mcp_komodo_rs.Prelude.Text.{Text, text}
use mcp_komodo_rs.Prelude.Tasks.{Always, Always-map}
use mcp_komodo_rs.Api.Types.{Action}
use mcp_komodo_rs.Mcp.Execution.{has_ended}
use mcp_komodo_rs.Mcp.Errors.{McpError}
use mcp_komodo_rs.Mcp.Inputs.Validate.{validate_selector}
use mcp_komodo_rs.Mcp.Operations.Outcome.{MutationOutput, normalize_receipt}
use mcp_komodo_rs.Mcp.Tasks.Calls.{KomodoMcp, Lifetime, Log, execute}
use mcp_komodo_rs.Mcp.Tasks.Report.{admit}
use mcp_komodo_rs.Mcp.Mutations.Submit.{resolve_target, mutate}
use mcp_komodo_rs.Mcp.Mutations.Once.{Refused, Once, submit-Once}
use mcp_komodo_rs.Mcp.Mutations.Targets.{IsTargetOf, resolve_target-Resolves}

module _ (handler : KomodoMcp) where
  abbrev pub IsMutated : Action → Text → Log → Result McpError MutationOutput → Type 0
  IsMutated action name =
      Once handler (IsTargetOf action name) (execute action) (λ _ reply. reply)
        (text "operations.search") (λ target receipt. normalize_receipt receipt target)

  -- Whatever the calls reply, a mutation either fails and submits nothing, or executes its action
  -- once: directly after a check that admits it, on the id of the item that the selector picks from
  -- the inventory of the action's kind. It then answers with the receipt, or fails with an error
  -- that, if the outcome is unknown, says how to reconcile it and that a retry is not safe.
  pub mutate_once :
      (action : Action) (name : Text)
      → Always (IsMutated action name) [] (mutate handler action name)
  unfolding mutate
  mutate_once action name = elim (Result-cases (validate_selector name)) [
    | inl (_, e) ↦ rw e (
        submit-Once handler (IsTargetOf action name) (execute action) (λ _ reply. reply)
          (text "operations.search") (λ target receipt. normalize_receipt receipt target)
          (resolve_target handler action name) [] (resolve_target-Resolves handler action name))
    | inr (error, e) ↦ rw e (inl (record { quiet = tt; error = error; fails = refl }))
  ]

  -- The check admits only a handler that has the administrative client, within the budget of the
  -- request, which is not cancelled.
  admit_sound :
      (lifetime : Lifetime)
      → admit handler lifetime ≡ ok tt
      → (handler.has_admin ≡ true)
        × (is_some_and handler.budget (λ b. has_ended b lifetime.budget_cancelled lifetime.now)
            ≡ false)
        × ((handler.has_rpc_cancellation && lifetime.rpc_cancelled) ≡ false)
  unfolding admit
  admit_sound lifetime h = ground arith

  -- A handler without the administrative client submits nothing, and each mutation fails.
  pub mutate_without_admin :
      (action : Action) (name : Text)
      → handler.has_admin ≡ false
      → Always Refused [] (mutate handler action name)
  mutate_without_admin action name no_admin =
      Always-map (λ h r once. refused h r once) [] (mutate handler action name)
        (mutate_once action name)
    where
      refused :
          (h : Log) (r : Result McpError MutationOutput) → IsMutated action name h r → Refused h r
      refused h r (inl x) = x
      refused h r (inr x) = absurd (cc (no_admin, (admit_sound x.lifetime x.admitted).0))
