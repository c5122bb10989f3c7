-- ===== src/Mcp/Mutations/Succeeds.antt =====
-- crates/komodo-mcp/src/lib.rs: when a mutation succeeds, from its input and the replies alone.
use mcp_komodo_rs.Prelude.{
  if◌then◌else◌, ◌≡◌, ◌≢◌, ◌<◌, refl, ap, ◌∙◌, inl, inr, Bool, true, false, Option, some, none,
  Result, ok, Bool-cases, Option-cases, arith,
}
use mcp_komodo_rs.Prelude.Text.{Text, text, str_eq, str_eq_sound, str_eq_iff}
use mcp_komodo_rs.Prelude.Tasks.{result, result-bind, call, done, or_else, ◌>>=◌}
use mcp_komodo_rs.Api.Resources.{ResourceListItem}
use mcp_komodo_rs.Api.Errors.{ApiError}
use mcp_komodo_rs.Api.Types.{
  Action, deploy_stack, restart_stack, stop_stack, deploy_deployment, restart_deployment, run_build,
  cancel_build, pull_repo, MutationReceipt, InventoryPage, selector,
}
use mcp_komodo_rs.Mcp.Execution.{ExecutionBudget, has_ended}
use mcp_komodo_rs.Mcp.Inputs.Validate.{is_selector, validate_selector}
use mcp_komodo_rs.Mcp.Inputs.Found.{IsSelector, IsFound, select_complete}
use mcp_komodo_rs.Mcp.Operations.Outcome.{
  OperationOutcome, accepted, running, succeeded, failed, unknown, operation_outcome,
  MutationOutput, normalize_receipt,
}
use mcp_komodo_rs.Mcp.Tasks.Calls.{
  KomodoMcp, Lifetime, Call, Reply, stacks_inventory, deployments_inventory, builds_inventory,
  repos_inventory, execute, read_lifetime,
}
use mcp_komodo_rs.Mcp.Tasks.Report.{admit, admin, mutation_error}
use mcp_komodo_rs.Mcp.Mutations.Submit.{select_id, submit, resolve_target, mutate}

-- The handler has the administrative client, and nothing has ended its request.
pub record IsLive (handler : KomodoMcp) (lifetime : Lifetime) : Type 0 where
  pub has_admin : handler.has_admin ≡ true
  pub in_budget :
      (budget : ExecutionBudget)
      → handler.budget ≡ some budget
      → (lifetime.budget_cancelled ≡ false) × (lifetime.now < budget.deadline)
  pub uncancelled : lifetime.rpc_cancelled ≡ false

-- The reply is a page where the name finds an item with this id.
pub record IsListed {I : Type 0} (reply : Result ApiError (InventoryPage I)) (name target : Text)
    : Type 0 where
  pub page : InventoryPage I
  pub item : ResourceListItem I
  pub replied : reply ≡ ok page
  pub found : IsFound page.items name item
  pub id : item.id ≡ target

-- The inventory of the action's kind.
abbrev pub Lists : ((c : Call) → Reply c) → Action → Text → Text → Type 0
Lists replies deploy_stack name = IsListed (replies (stacks_inventory (selector name))) name
Lists replies restart_stack name = IsListed (replies (stacks_inventory (selector name))) name
Lists replies stop_stack name = IsListed (replies (stacks_inventory (selector name))) name
Lists replies deploy_deployment name =
    IsListed (replies (deployments_inventory (selector name))) name
Lists replies restart_deployment name =
    IsListed (replies (deployments_inventory (selector name))) name
Lists replies run_build name = IsListed (replies (builds_inventory (selector name))) name
Lists replies cancel_build name = IsListed (replies (builds_inventory (selector name))) name
Lists replies pull_repo name = IsListed (replies (repos_inventory (selector name))) name

-- What the status and the success of a receipt say of the outcome.
pub data IsOutcome (success : Bool) (status : Text) : OperationOutcome → Option Bool → Type 0 where
  queued : status ≡ text "Queued" → IsOutcome success status accepted none
  in_progress : status ≡ text "InProgress" → IsOutcome success status running none
  completed :
      status ≡ text "Complete" → success ≡ true → IsOutcome success status succeeded (some true)
  completed_badly :
      status ≡ text "Complete" → success ≡ false → IsOutcome success status failed (some false)
  other :
      status ≢ text "Queued"
      → status ≢ text "InProgress"
      → status ≢ text "Complete"
      → IsOutcome success status unknown none

pub record IsAnswer (receipt : MutationReceipt) (target : Text) (output : MutationOutput)
    : Type 0 where
  pub operation_id : output.operation_id ≡ receipt.operation_id
  pub operation : output.operation ≡ receipt.operation
  pub targets : output.target ≡ target
  pub start_ts : output.start_ts ≡ receipt.start_ts
  pub status : output.status ≡ receipt.status
  pub means : IsOutcome receipt.success receipt.status output.outcome output.success

operation_outcome-IsOutcome :
    (status : Text) (success : Bool)
    → IsOutcome success status
        (operation_outcome status success).0
        (operation_outcome status success).1
unfolding operation_outcome
operation_outcome-IsOutcome status success = elim (Bool-cases (str_eq status (text "Queued"))) [
  | inl e ↦ rw e (queued (str_eq_sound status (text "Queued") e))
  | inr e1 ↦ elim (Bool-cases (str_eq status (text "InProgress"))) [
    | inl e ↦ rw (e1, e) (in_progress (str_eq_sound status (text "InProgress") e))
    | inr e2 ↦ elim (Bool-cases (str_eq status (text "Complete"))) [
      | inl e ↦ rw (e1, e2, e) (ended success (str_eq_sound status (text "Complete") e))
      | inr e3 ↦ rw (e1, e2, e3) (other (differs e1) (differs e2) (differs e3))
    ]
  ]
]
  where
    ended :
        (success : Bool)
        → status ≡ text "Complete"
        → let made : OperationOutcome × Option Bool =
            if success then (succeeded, some true) else (failed, some false) in
          IsOutcome success status made.0 made.1
    ended true e = completed e refl
    ended false e = completed_badly e refl

    differs : {t : Text} → str_eq status t ≡ false → status ≢ t
    differs {t} h e = ground (arith, str_eq_iff status t)

module _ (handler : KomodoMcp) (replies : (c : Call) → Reply c) where
  admit_complete : (lifetime : Lifetime) → IsLive handler lifetime → admit handler lifetime ≡ ok tt
  unfolding admit has_ended
  admit_complete lifetime live = elim (Option-cases handler.budget) [
    | inl absent ↦ rw (absent, live.uncancelled, live.has_admin) (ground arith)
    | inr (budget, e) ↦
        let (uncancelled, early) = live.in_budget budget e in
        rw (e, live.uncancelled, live.has_admin, uncancelled) (ground arith)
  ]

  select_id_lem :
      {I : Type 0} (name target : Text) (reply : Result ApiError (InventoryPage I))
      → IsSelector name
      → IsListed reply name target
      → result replies (select_id handler name reply) ≡ ok target
  unfolding select_id
  select_id_lem name target reply valid listed =
      rw
        (
          listed.replied,
          select_id,
          select_complete listed.page.items name listed.item valid listed.found,
        )
        (ap ok listed.id)

  resolve_lem :
      (action : Action) (name target : Text)
      → IsSelector name
      → Lists replies action name target
      → result replies (resolve_target handler action name) ≡ ok target
  unfolding resolve_target
  resolve_lem deploy_stack name target valid listed = select_id_lem name target _ valid listed
  resolve_lem restart_stack name target valid listed = select_id_lem name target _ valid listed
  resolve_lem stop_stack name target valid listed = select_id_lem name target _ valid listed
  resolve_lem deploy_deployment name target valid listed = select_id_lem name target _ valid listed
  resolve_lem restart_deployment name target valid listed = select_id_lem name target _ valid listed
  resolve_lem run_build name target valid listed = select_id_lem name target _ valid listed
  resolve_lem cancel_build name target valid listed = select_id_lem name target _ valid listed
  resolve_lem pull_repo name target valid listed = select_id_lem name target _ valid listed

  -- A mutation succeeds if its selector has 1 to 128 bytes without a control character, the inventory of
  -- the action's kind lists an item with that id, or only one with that name and none with that id, the
  -- handler has the administrative client, neither its budget nor the request has ended, and Komodo
  -- executes the action on that item. It then answers with the receipt, the id of the item, and the
  -- outcome that the status means, which tells of success only where the operation is complete.
  pub mutate_succeeds :
      (action : Action) (name target : Text) (receipt : MutationReceipt)
      → IsSelector name
      → Lists replies action name target
      → IsLive handler (replies read_lifetime)
      → replies (execute action target) ≡ ok receipt
      → (output : MutationOutput) × (result replies (mutate handler action name) ≡ ok output)
        × IsAnswer receipt target output
  unfolding mutate submit admin normalize_receipt validate_selector is_selector
  mutate_succeeds action name target receipt valid listed live executed =
      let accepted : is_selector name ≡ true =
        ground (arith, valid.filled, valid.short, valid.plain) in
      (
        normalize_receipt receipt target,
        rw accepted (
            result-bind replies _ target (resolve_target handler action name)
              (resolve_lem action name target valid listed)
            ∙ result-bind replies _ tt (admin handler) (admit_complete (replies read_lifetime) live)
            ∙ answer),
        record {
          operation_id = refl;
          operation = refl;
          targets = refl;
          start_ts = refl;
          status = refl;
          means = operation_outcome-IsOutcome receipt.status receipt.success;
        },
      )
    where
      answer :
          result replies (
            call (execute action target) λ reply.
              or_else reply (mutation_error handler target (text "operations.search"))
              >>= λ receipt. done (ok (normalize_receipt receipt target)))
          ≡ ok (normalize_receipt receipt target)
      answer = rw (executed, result)
