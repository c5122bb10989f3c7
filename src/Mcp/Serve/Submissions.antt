-- ===== src/Mcp/Serve/Submissions.antt =====
-- crates/komodo-mcp/src/lib.rs: how often a call of a tool submits, whatever tool it is.
use mcp_komodo_rs.Prelude.{
  ℕ, zero, suc, if◌then◌else◌, ◌≤◌, ◌≡◌, refl, true, false, Option, some, none, Option-cases,
  Bool-cases, inl, inr, List, [], Result, ok, err, arith,
}
use mcp_komodo_rs.Prelude.Text.{Text}
use mcp_komodo_rs.Prelude.Tasks.{done, attempt, Always}
use mcp_komodo_rs.Mcp.Errors.{McpError}
use mcp_komodo_rs.Mcp.Profile.Dispatch.{ToolProfile, Access, Handler, DispatchError}
use mcp_komodo_rs.Mcp.Profile.Catalog.{submits, reads_only, reads_dispatch}
use mcp_komodo_rs.Mcp.Tasks.Calls.{KomodoMcp, Tool, is_submission}
use mcp_komodo_rs.Mcp.Tasks.Counted.{
  IsReading, ended, reads, IsSingle, finished, asks, submits as submits_once, IsReading-IsSingle,
  bind-IsReading, bind-IsSingle, bind-IsSingle_last, IsReading-counts, IsSingle-counts, submissions,
}
use mcp_komodo_rs.Mcp.Reads.History.{PreparedDocument}
use mcp_komodo_rs.Mcp.Reads.Silent
use mcp_komodo_rs.Mcp.Reads.SilentOperations
use mcp_komodo_rs.Mcp.Mutations.Single
use mcp_komodo_rs.Mcp.Serve.Run.{Input, run}
use mcp_komodo_rs.Mcp.Serve.CallTool.{
  CallToolRequestParams, Serde, select_biased, parse, answer, access, invocation, serve,
  dispatch_call, check_budget, call_tool,
}

module _ {A : Type 0} where
  select_biased-IsReading :
      (lifetime : Option ℕ) (t : Tool A) → IsReading t → IsReading (select_biased lifetime t)
  unfolding select_biased
  select_biased-IsReading none t h = h
  select_biased-IsReading (some zero) t h = ended _
  select_biased-IsReading (some (suc n)) _ (ended r) = ended r
  select_biased-IsReading (some (suc n)) _ (reads c k q h) =
      reads c _ q (λ r. select_biased-IsReading (some n) (k r) (h r))

  select_biased-IsSingle :
      (lifetime : Option ℕ) (t : Tool A) → IsSingle t → IsSingle (select_biased lifetime t)
  unfolding select_biased
  select_biased-IsSingle none t h = h
  select_biased-IsSingle (some zero) t h = finished _
  select_biased-IsSingle (some (suc n)) _ (finished r) = finished r
  select_biased-IsSingle (some (suc n)) _ (asks c k q h) =
      asks c _ q (λ r. select_biased-IsSingle (some n) (k r) (h r))
  select_biased-IsSingle (some (suc n)) _ (submits_once c k h) =
      submits_once c _ (λ r. select_biased-IsReading (some n) (k r) (h r))

  module _ {B : Type 0} (f : Result McpError A → Result McpError B) where
    attempt-IsReading : (t : Tool A) → IsReading t → IsReading (attempt t (λ r. done (f r)))
    attempt-IsReading _ (ended r) = ended (f r)
    attempt-IsReading _ (reads c k q h) = reads c _ q (λ r. attempt-IsReading (k r) (h r))

    attempt-IsSingle : (t : Tool A) → IsSingle t → IsSingle (attempt t (λ r. done (f r)))
    attempt-IsSingle _ (finished r) = finished (f r)
    attempt-IsSingle _ (asks c k q h) = asks c _ q (λ r. attempt-IsSingle (k r) (h r))
    attempt-IsSingle _ (submits_once c k h) = submits_once c _ (λ r. attempt-IsReading (k r) (h r))

module _ (prepare : Text → PreparedDocument) (from_utf8 : List ℕ → Option Text)
    (handler : KomodoMcp) where
  run-IsReading :
      (method : Handler)
      → submits method ≡ false
      → (input : Input method) → IsReading (run prepare from_utf8 handler method input)
  unfolding run submits
  run-IsReading Handler.system_status h input = Silent.system_status-IsReading handler
  run-IsReading Handler.search_servers h input = Silent.search_servers-IsReading handler input
  run-IsReading Handler.server_status h input = Silent.server_status-IsReading handler input
  run-IsReading Handler.search_networks h input = Silent.search_networks-IsReading handler input
  run-IsReading Handler.read_network h input = Silent.read_network-IsReading handler input
  run-IsReading Handler.search_stacks h input = Silent.search_stacks-IsReading handler input
  run-IsReading Handler.stack_status h input = Silent.stack_status-IsReading handler input
  run-IsReading Handler.stack_diagnostics h input = Silent.stack_diagnostics-IsReading handler input
  run-IsReading Handler.stack_config_read h input = Silent.stack_config_read-IsReading handler input
  run-IsReading Handler.stack_compose_read h input =
      Silent.stack_compose_read-IsReading handler input
  run-IsReading Handler.stack_environment_read h input =
      Silent.stack_environment_read-IsReading handler input
  run-IsReading Handler.stack_commands_read h input =
      Silent.stack_commands_read-IsReading handler input
  run-IsReading Handler.stack_webhook_status h input =
      Silent.stack_webhook_status-IsReading handler input
  run-IsReading Handler.stack_webhook_secret_read h input =
      Silent.stack_webhook_secret_read-IsReading handler input
  run-IsReading Handler.stack_logs_tail h input = Silent.stack_logs_tail-IsReading handler input
  run-IsReading Handler.search_deployments h input =
      Silent.search_deployments-IsReading handler input
  run-IsReading Handler.deployment_status h input = Silent.deployment_status-IsReading handler input
  run-IsReading Handler.search_builds h input = Silent.search_builds-IsReading handler input
  run-IsReading Handler.build_status h input = Silent.build_status-IsReading handler input
  run-IsReading Handler.search_repos h input = Silent.search_repos-IsReading handler input
  run-IsReading Handler.repo_status h input = Silent.repo_status-IsReading handler input
  run-IsReading Handler.search_operations h input =
      SilentOperations.search_operations-IsReading prepare handler input
  run-IsReading Handler.operation_status h input =
      SilentOperations.operation_status-IsReading prepare handler input
  run-IsReading Handler.operation_logs_read h input =
      Silent.operation_logs_read-IsReading handler input
  run-IsReading Handler.stack_config_patch h input = absurd (ground arith)
  run-IsReading Handler.stack_compose_write h input = absurd (ground arith)
  run-IsReading Handler.stack_environment_write h input = absurd (ground arith)
  run-IsReading Handler.stack_commands_write h input = absurd (ground arith)
  run-IsReading Handler.stack_file_write h input = absurd (ground arith)
  run-IsReading Handler.stack_webhook_update h input = absurd (ground arith)
  run-IsReading Handler.stack_webhook_secret_write h input = absurd (ground arith)
  run-IsReading (Handler.mutate action) h input = absurd (ground arith)

  run-IsSingle :
      (method : Handler) (input : Input method)
      → IsSingle (run prepare from_utf8 handler method input)
  unfolding run submits
  run-IsSingle Handler.stack_config_patch input = Single.stack_config_patch-IsSingle handler input
  run-IsSingle Handler.stack_compose_write input = Single.stack_compose_write-IsSingle handler input
  run-IsSingle Handler.stack_environment_write input =
      Single.stack_environment_write-IsSingle handler input
  run-IsSingle Handler.stack_commands_write input =
      Single.stack_commands_write-IsSingle handler input
  run-IsSingle Handler.stack_file_write input = Single.stack_file_write-IsSingle handler input
  run-IsSingle Handler.stack_webhook_update input =
      Single.stack_webhook_update-IsSingle handler input
  run-IsSingle Handler.stack_webhook_secret_write input =
      Single.stack_webhook_secret_write-IsSingle handler from_utf8 input
  run-IsSingle (Handler.mutate action) input = Single.mutate-IsSingle handler action input.selector
  run-IsSingle method input = IsReading-IsSingle _ (run-IsReading method refl input)

-- The submissions that a handler's access allows.
abbrev pub allowance : Access → ℕ
allowance handler = if reads_only handler then 0 else 1

check_budget-IsReading : (handler : KomodoMcp) → IsReading (check_budget handler)
unfolding check_budget is_submission
check_budget-IsReading handler = elim (Option-cases handler.budget) [
  | inl absent ↦ rw (absent, check_budget) (ended _)
  | inr (budget, e) ↦ rw (e, check_budget) (reads _ _ refl (λ lifetime. ended _))
]

module _ {V : Type 0} (serde : Serde V) (prepare : Text → PreparedDocument)
    (from_utf8 : List ℕ → Option Text) where
  serve-IsSingle :
      (handler : KomodoMcp) (params : CallToolRequestParams V) (d : Result DispatchError Handler)
      → IsSingle (serve serde prepare from_utf8 handler params d)
  unfolding serve
  serve-IsSingle handler params (err e) = finished _
  serve-IsSingle handler params (ok method) =
      bind-IsSingle _ (done (parse serde method params)) (ended _) (λ input.
        bind-IsSingle_last _ (run prepare from_utf8 handler method input)
          (run-IsSingle prepare from_utf8 handler method input)
          (λ output. bind-IsReading _ (done _) (ended _) (λ result. ended _)))

  serve-IsReading :
      (handler : KomodoMcp) (params : CallToolRequestParams V) (d : Result DispatchError Handler)
      → ((method : Handler) → d ≡ ok method → submits method ≡ false)
      → IsReading (serve serde prepare from_utf8 handler params d)
  unfolding serve
  serve-IsReading handler params (err e) quiet = ended _
  serve-IsReading handler params (ok method) quiet =
      bind-IsReading _ (done (parse serde method params)) (ended _) (λ input.
        bind-IsReading _ (run prepare from_utf8 handler method input)
          (run-IsReading prepare from_utf8 handler method (quiet method refl) input)
          (λ output. bind-IsReading _ (done _) (ended _) (λ result. ended _)))

  module _ (profile : ToolProfile) (lifetime : Option ℕ) (handler : KomodoMcp)
      (params : CallToolRequestParams V) where
    call_tool-IsSingle :
        IsSingle (call_tool serde prepare from_utf8 profile lifetime handler params)
    unfolding call_tool dispatch_call
    call_tool-IsSingle =
        bind-IsSingle _ (check_budget handler) (check_budget-IsReading handler) (λ _.
          attempt-IsSingle (answer serde) _
            (select_biased-IsSingle lifetime _ (serve-IsSingle (invocation handler) params _)))

    call_tool-IsReading :
        reads_only (access profile handler) ≡ true
        → IsReading (call_tool serde prepare from_utf8 profile lifetime handler params)
    unfolding call_tool dispatch_call
    call_tool-IsReading reading =
        bind-IsReading _ (check_budget handler) (check_budget-IsReading handler) (λ _.
          attempt-IsReading (answer serde) _ (
            select_biased-IsReading lifetime _ (
              serve-IsReading (invocation handler) params _ (λ method e.
                reads_dispatch (access profile handler) params.name method reading e))))

    -- A call of a tool, whatever its name, its arguments, the replies to its calls and the moment at
    -- which it is cancelled, submits at most once to the administrative client, and not at all where the
    -- handler has no administrative client or its profile is `status` or `read-only`.
    pub call_tool_submits :
        Always
          (λ h r. submissions h ≤ allowance (access profile handler))
          []
          (call_tool serde prepare from_utf8 profile lifetime handler params)
    call_tool_submits = elim (Bool-cases (reads_only (access profile handler))) [
      | inl reading ↦
          rw reading (IsReading-counts 0 _ (call_tool-IsReading reading) [] (omega arith))
      | inr writing ↦ rw writing (IsSingle-counts 0 _ call_tool-IsSingle [] (omega arith))
    ]
