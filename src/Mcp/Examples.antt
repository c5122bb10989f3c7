-- ===== src/Mcp/Examples.antt =====
-- crates/komodo-mcp: the tools on concrete data.
use mcp_komodo_rs.Prelude.{
  ℕ, String, ◌≡◌, refl, ◌↔◌, true, false, not, ◌&&◌, Option, some, none, List, [], ◌∷◌, ok, drop,
  Memᴰ, is_none_or, is_some_and, arith,
}
use mcp_komodo_rs.Prelude.Int.{pos, int_ltb}
use mcp_komodo_rs.Prelude.Text.{Text, text, str_eq, len, to_ascii_lowercase, eq_ignore_ascii_case}
use mcp_komodo_rs.Prelude.Tasks.{Always}
use mcp_komodo_rs.Api.Resources.{ResourceListItem}
use mcp_komodo_rs.Api.Types.{deploy_stack, pull_repo, OperationItem}
use mcp_komodo_rs.Mcp.Profile.Registry.{
  ToolSpec, tool_registry, stacks_deploy, destructive, open_world, mutation, write_spec,
}
use mcp_komodo_rs.Mcp.Profile.Dispatch.{
  new, read_only_handler, available_tools, permits, lookup, dispatch, stack_status, route,
  profile_permits, with_tool_profile, operations,
}
use mcp_komodo_rs.Mcp.Profile.Catalog.{available_tools_iff, lookup_iff}
use mcp_komodo_rs.Mcp.Inputs.Validate.{is_selector, validate_selector}
use mcp_komodo_rs.Mcp.Inputs.Select.{only, select}
use mcp_komodo_rs.Mcp.Inputs.Selects.{IsSelected, select_sound}
use mcp_komodo_rs.Mcp.Inputs.Window.{CollectionWindow, follow, follow_complete}
use mcp_komodo_rs.Mcp.Inputs.Search.{SearchInput, summary}
use mcp_komodo_rs.Mcp.Operations.Outcome.{failed, operation_outcome}
use mcp_komodo_rs.Api.Operations.{OperationQuery, complete, matches}
use mcp_komodo_rs.Mcp.Operations.Filter.{
  OperationSearchFilter, validated_query, validate_target, validate_operation, outcome_query,
}
use mcp_komodo_rs.Mcp.Operations.Matches.{same_outcome, validated_query-matches}
use mcp_komodo_rs.Mcp.Tasks.Calls.{KomodoMcp}
use mcp_komodo_rs.Mcp.Mutations.Submit.{mutate}
use mcp_komodo_rs.Mcp.Mutations.Patches.{
  WebhookUpdateInput, FileWriteInput, WebhookSecretWriteInput, custom,
}
use mcp_komodo_rs.Mcp.Mutations.Methods.{stack_file_write, stack_webhook_secret_write}
use mcp_komodo_rs.Mcp.Mutations.Once.{Refused}
use mcp_komodo_rs.Mcp.Mutations.Promises.{IsMutated, mutate_once, mutate_without_admin}
use mcp_komodo_rs.Mcp.Mutations.Writes.{
  updates_webhook, IsWritten, perform, write_once, IsFileWritten, file_write_once,
}
use mcp_komodo_rs.Mcp.Mutations.Secrets.{IsSecretWritten, secret_write_once}

abbrev handler : KomodoMcp
handler = record {
  has_admin = true;
  budget = some (record { deadline = 100 });
  has_rpc_cancellation = true;
  credential_files = some (text "alice");
}

abbrev reader : KomodoMcp
reader = record handler { has_admin = false }

mutate_once_example :
    Always
      (IsMutated handler deploy_stack (text "web"))
      []
      (mutate handler deploy_stack (text "web"))
mutate_once_example = mutate_once handler deploy_stack (text "web")

mutate_without_admin_example : Always Refused [] (mutate reader pull_repo (text "web"))
mutate_without_admin_example = mutate_without_admin reader pull_repo (text "web") refl

abbrev webhook : WebhookUpdateInput
webhook = record { selector = text "web"; enabled = some true; force_deploy = none }

write_once_example :
    Always
      (IsWritten handler (updates_webhook webhook))
      []
      (perform handler (updates_webhook webhook))
write_once_example = write_once handler (updates_webhook webhook)

abbrev file : FileWriteInput
file = record {
  selector = text "web";
  file_path = text "compose.yaml";
  contents = text "services: {}";
}

file_write_once_example : Always (IsFileWritten handler file) [] (stack_file_write handler file)
file_write_once_example = file_write_once handler file

abbrev secret : WebhookSecretWriteInput
secret = record {
  selector = text "web";
  secret = custom (record {
    uri = text "mcp-file://komodo/A";
    name = none;
    mime_type = none;
    size = none;
    digest = none;
  });
}

abbrev ascii : List ℕ → Option Text
ascii bytes = some bytes

secret_write_once_example :
    Always
      (IsSecretWritten ascii handler secret)
      []
      (stack_webhook_secret_write ascii handler secret)
secret_write_once_example = secret_write_once ascii handler secret

abbrev deploy_spec : ToolSpec
deploy_spec = write_spec stacks_deploy "stacks.deploy" (open_world (destructive mutation))

available_tools_iff_example :
    Memᴰ deploy_spec (available_tools read_only_handler)
    ↔ (Memᴰ deploy_spec tool_registry × (permits read_only_handler deploy_spec ≡ true))
available_tools_iff_example = available_tools_iff read_only_handler deploy_spec

lookup_iff_example :
    (lookup (with_tool_profile operations new) (text "stacks.deploy") ≡ some deploy_spec) ↔ (
      Memᴰ deploy_spec (available_tools (with_tool_profile operations new))
      × (deploy_spec.name ≡ text "stacks.deploy"))
lookup_iff_example =
    lookup_iff (with_tool_profile operations new) (text "stacks.deploy") deploy_spec

reads_stack_status : dispatch read_only_handler (text "stacks.status") ≡ ok stack_status
unfolding dispatch lookup tool_registry permits profile_permits str_eq route
reads_stack_status = refl

abbrev item : String → String → ResourceListItem ℕ
item id name = record {
  id = text id;
  resource_type = text "Stack";
  name = text name;
  template = none;
  tags = none;
  info = 0;
}

abbrev stacks : List (ResourceListItem ℕ)
stacks = item "1" "Web" ∷ item "2" "db" ∷ item "3" "worker" ∷ []

selected : select stacks (text "web") ≡ ok (item "1" "Web")
unfolding select validate_selector is_selector len str_eq eq_ignore_ascii_case to_ascii_lowercase
    only
selected = refl

select_sound_example : IsSelected stacks (text "web") (item "1" "Web")
select_sound_example = select_sound stacks (text "web") (item "1" "Web") selected

abbrev window : CollectionWindow
window = record { offset = 0; limit = 2 }

follow_complete_example : follow 4 stacks window ≡ ok (drop 0 stacks)
follow_complete_example = follow_complete 4 stacks window refl (omega arith) (omega arith)

abbrev searching : SearchInput
searching = record {
  projection = summary;
  page = 0;
  query = some (text " W ");
  offset = 0;
  limit = 1;
}

abbrev filter : OperationSearchFilter
filter = record {
  target = none;
  operation = some (text "DeployStack");
  outcome = some failed;
  started_after = some (pos 10);
  started_before = some (pos 20);
}

abbrev query : OperationQuery
query = record {
  target = none;
  operation = some (text "DeployStack");
  status = some complete;
  success = some false;
  started_after = some (pos 10);
  started_before = some (pos 20);
}

filter-valid : validated_query filter ≡ ok query
unfolding validated_query validate_target validate_operation validate_selector is_selector len
    outcome_query int_ltb
filter-valid = refl

abbrev operation : OperationItem
operation = record {
  id = text "1";
  operation = text "DeployStack";
  start_ts = pos 10;
  success = false;
  status = text "Complete";
  operator = none;
  username = none;
  end_ts = none;
  version = none;
  commit_hash = none;
  other_data = none;
  prev_toml = none;
  current_toml = none;
  target = none;
}

validated_query-matches_example : matches query operation ≡ (
    is_none_or filter.target (λ target.
      is_some_and operation.target (λ t. str_eq t.kind target.kind && str_eq t.id target.id))
    && (is_none_or filter.operation (str_eq operation.operation)
        && (is_none_or filter.outcome
              (same_outcome (operation_outcome operation.status operation.success).0)
            && (is_none_or filter.started_after (λ after. not (int_ltb operation.start_ts after))
                && is_none_or filter.started_before (int_ltb operation.start_ts)))))
validated_query-matches_example = validated_query-matches filter query operation filter-valid
