-- ===== src/Mcp/Serve/Examples.antt =====
-- crates/komodo-mcp/src/lib.rs: `call_tool` on concrete requests.
use mcp_komodo_rs.Prelude.{◌≡◌, refl, ◌≤◌, true, false, Option, some, none, [], err}
use mcp_komodo_rs.Prelude.Text.{Text, text, str_eq}
use mcp_komodo_rs.Prelude.Tasks.{done, Always}
use mcp_komodo_rs.Mcp.Profile.Registry.{tool_registry}
use mcp_komodo_rs.Mcp.Profile.Dispatch.{
  ToolProfile, Handler, dispatch, lookup, permits, profile_permits,
}
use mcp_komodo_rs.Mcp.Tasks.Calls.{KomodoMcp}
use mcp_komodo_rs.Mcp.Tasks.Counted.{submissions}
use mcp_komodo_rs.Mcp.Reads.History.{PreparedDocument}
use mcp_komodo_rs.Mcp.Serve.Run.{Input}
use mcp_komodo_rs.Mcp.Serve.CallTool.{
  CallToolRequestParams, Serde, access, call_tool, dispatch_call, method_not_found, serve,
}
use mcp_komodo_rs.Mcp.Serve.Submissions.{allowance, call_tool_submits}
use mcp_komodo_rs.Mcp.Serve.Failures.{IsReported, call_tool-IsReported}

-- Arguments that are a selector, and the results without their fields.
abbrev from_value : (method : Handler) → Text → Option (Input method)
from_value (Handler.mutate action) value = some (record { selector = value })
from_value _ value = none

abbrev serde : Serde Text
serde = record {
  from_value = from_value;
  to_value = λ method output. some (text "output");
  failure_to_value = λ output. some output.message;
  empty_object = [];
}

abbrev prepare : Text → PreparedDocument
prepare document = record {
  toml = document;
  credential_fields = [];
  original = none;
  format_error = none;
}

abbrev administrator : KomodoMcp
administrator = record {
  has_admin = true;
  budget = some (record { deadline = 100 });
  has_rpc_cancellation = false;
  credential_files = none;
}

abbrev pulls : CallToolRequestParams Text
pulls = record { name = text "repos.pull"; arguments = some (text "site") }

-- The tool is stopped after two of its calls.
call_tool_submits_example :
    Always
      (λ h r. submissions h ≤ allowance (access ToolProfile.operations administrator))
      []
      (call_tool serde prepare
        (λ bytes. some bytes)
        ToolProfile.operations
        (some 2)
        administrator
        pulls)
call_tool_submits_example =
    call_tool_submits serde prepare (λ bytes. some bytes) ToolProfile.operations (some 2)
      administrator pulls

call_tool-IsReported_example :
    Always
      (λ h r. IsReported r)
      []
      (call_tool serde prepare
        (λ bytes. some bytes)
        ToolProfile.operations
        none
        administrator
        pulls)
call_tool-IsReported_example =
    call_tool-IsReported serde prepare (λ bytes. some bytes) ToolProfile.operations none
      administrator pulls

-- A handler for reads does not find the tool.
unlisted :
    dispatch_call serde prepare (λ bytes. some bytes) ToolProfile.read_only administrator pulls
    ≡ done (err method_not_found)
unfolding dispatch_call serve dispatch lookup tool_registry str_eq permits profile_permits
unlisted = refl
