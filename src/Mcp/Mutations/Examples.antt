-- ===== src/Mcp/Mutations/Examples.antt =====
-- crates/komodo-mcp/src/lib.rs: a mutation that succeeds, on concrete replies.
use mcp_komodo_rs.Prelude.{arith, ◌≢◌, ◌≡◌, refl, true, false, none, [], ◌∷◌, ok, err}
use mcp_komodo_rs.Prelude.Int.{pos}
use mcp_komodo_rs.Prelude.Text.{text, len, str_eq, eq_ignore_ascii_case, to_ascii_lowercase}
use mcp_komodo_rs.Prelude.Tasks.{result}
use mcp_komodo_rs.Api.Resources.{ResourceListItem, RepoInfo}
use mcp_komodo_rs.Api.Types.{pull_repo, MutationReceipt}
use mcp_komodo_rs.Api.Errors.{unavailable}
use mcp_komodo_rs.Mcp.Errors.{invalid_request}
use mcp_komodo_rs.Mcp.Operations.Outcome.{MutationOutput}
use mcp_komodo_rs.Mcp.Tasks.Calls.{
  KomodoMcp, Call, Reply, servers_inventory, stacks_inventory, deployments_inventory,
  builds_inventory, repos_inventory, version, networks, network, operations_query, update,
  update_logs, stack_detail, stack_log, read_lifetime, publish, take, execute, update_stack,
  write_stack_file,
}
use mcp_komodo_rs.Mcp.Mutations.Submit.{mutate}
use mcp_komodo_rs.Mcp.Mutations.Succeeds.{IsAnswer, mutate_succeeds}
use mcp_komodo_rs.Mcp.Inputs.Found.{IsSelector, IsFound, by_name}

abbrev administrator : KomodoMcp
administrator = record {
  has_admin = true;
  budget = none;
  has_rpc_cancellation = true;
  credential_files = none;
}

abbrev site : ResourceListItem RepoInfo
site = record {
  id = text "repo-1";
  resource_type = text "Repo";
  name = text "Site";
  template = none;
  tags = none;
  info = record {
    state = text "Ok";
    server_id = none;
    server_name = none;
    builder_id = none;
    git_provider = none;
    repo = none;
    branch = none;
    repo_link = none;
    cloned_hash = none;
    cloned_message = none;
    built_hash = none;
    latest_hash = none;
    last_pulled_at = pos 0;
    last_built_at = pos 0;
  };
}

abbrev pulled : MutationReceipt
pulled = record {
  operation_id = text "op-1";
  operation = text "PullRepo";
  start_ts = pos 5;
  success = true;
  status = text "Complete";
}

abbrev replies : (c : Call) → Reply c
replies (servers_inventory request) = err unavailable
replies (stacks_inventory request) = err unavailable
replies (deployments_inventory request) = err unavailable
replies (builds_inventory request) = err unavailable
replies (repos_inventory request) = ok (record { items = site ∷ []; next_page = none })
replies version = err unavailable
replies (networks server) = err unavailable
replies (network server name) = err unavailable
replies (operations_query page query) = err unavailable
replies (update operation_id) = err unavailable
replies (update_logs operation_id) = err unavailable
replies (stack_detail stack) = err unavailable
replies (stack_log stack services tail timestamps) = err unavailable
replies read_lifetime = record { budget_cancelled = false; now = 7; rpc_cancelled = false }
replies (publish owner name mime_type bytes) = err (invalid_request [])
replies (take owner uri) = err (invalid_request [])
replies (execute action target) = ok pulled
replies (update_stack target patch) = ok tt
replies (write_stack_file target path contents) = err unavailable

site-IsSelector : IsSelector (text "site")
unfolding len
site-IsSelector = record { filled = refl; short = omega arith; plain = refl }

site-IsFound : IsFound (site ∷ []) (text "site") site
unfolding eq_ignore_ascii_case to_ascii_lowercase str_eq
site-IsFound = by_name [] [] site refl (other_id, tt) tt refl tt
  where
    other_id : site.id ≢ text "site"
    other_id e = cc e

mutate_succeeds_example :
    (output : MutationOutput) × (result replies (mutate administrator pull_repo (text "site"))
      ≡ ok output)
    × IsAnswer pulled (text "repo-1") output
mutate_succeeds_example =
    mutate_succeeds administrator replies pull_repo (text "site") (text "repo-1") pulled
      site-IsSelector
      (record {
        page = record { items = site ∷ []; next_page = none };
        item = site;
        replied = refl;
        found = site-IsFound;
        id = refl;
      })
      (record {
        has_admin = refl;
        in_budget = λ budget given. absurd (cc given);
        uncancelled = refl;
      })
      refl
