-- ===== src/Mcp/Serve/CallTool.antt =====
-- crates/komodo-mcp/src/lib.rs: `parse`, `structured`, `trust_annotated`, `dispatch` and `call_tool`. The
-- JSON of arguments and results is serde's, an argument here.
use mcp_komodo_rs.Prelude.{
  ℕ, zero, suc, ◌||◌, Bool, true, false, if◌then◌else◌, Option, some, none, is_some, is_some_and,
  unwrap_or, List, Result, ok, err, ok_or, map_ok, refuse,
}
use mcp_komodo_rs.Prelude.Text.{Text, text}
use mcp_komodo_rs.Prelude.Tasks.{done, call, ◌>>=◌, ◌>>◌, attempt}
use mcp_komodo_rs.Mcp.Execution.{has_ended}
use mcp_komodo_rs.Mcp.Errors.{
  ErrorCode, method_not_found_code, McpError, CredentialFailureData, invalid_params, internal_error,
  ended,
}
use mcp_komodo_rs.Mcp.Profile.Dispatch.{ToolProfile, Access, Handler, DispatchError, dispatch}
use mcp_komodo_rs.Mcp.Tasks.Calls.{KomodoMcp, Tool, read_lifetime}
use mcp_komodo_rs.Mcp.Reads.History.{PreparedDocument}
use mcp_komodo_rs.Mcp.Serve.Run.{Input, Output, run}

pub record CallToolRequestParams (V : Type 0) : Type 0 where
  pub name : Text
  pub arguments : Option V

-- The result's JSON, its `isError`, and the `untrusted` of its trust annotation, where it has one.
pub record CallToolResult (V : Type 0) : Type 0 where
  pub structured_content : V
  pub is_error : Bool
  pub untrusted : Option Bool

pub record CredentialFailureOutput : Type 0 where
  pub code : ErrorCode
  pub message : Text
  pub error_data : CredentialFailureData

-- What serde does: `from_value` and `to_value` of each type, and the empty object.
pub record Serde (V : Type 0) : Type 0 where
  pub from_value : (method : Handler) → V → Option (Input method)
  pub to_value : (method : Handler) → Output method → Option V
  pub failure_to_value : CredentialFailureOutput → Option V
  pub empty_object : V

-- McpError::method_not_found
abbrev pub method_not_found : McpError
method_not_found = record {
  code = method_not_found_code;
  message = text "tools/call";
  error_data = none;
}

-- `tokio::select!`, biased to the end of the request's lifetime: `none` where the tool ends before, and
-- otherwise the number of calls that it has sent by then. What it has sent stays sent.
unfoldable pub select_biased : {A : Type 0} → Option ℕ → Tool A → Tool A
select_biased none t = t
select_biased (some zero) t = done (err ended)
select_biased (some (suc n)) (done r) = done r
select_biased (some (suc n)) (call c k) = call c λ r. select_biased (some n) (k r)

-- What the handler and its profile say of access.
abbrev pub access : ToolProfile → KomodoMcp → Access
access profile handler = record { has_admin = handler.has_admin; profile = profile }

-- The clone of the handler, with the request's cancellation.
abbrev pub invocation : KomodoMcp → KomodoMcp
invocation handler = record handler { has_rpc_cancellation = true }

-- `budget.check()?`, where the handler has a budget.
unfoldable pub check_budget : KomodoMcp → Tool (Unit {0})
unfolding has_ended
check_budget handler = elim handler.budget [
  | none ↦ done (ok tt)
  | some budget ↦
      call read_lifetime
        λ lifetime. done (refuse (has_ended budget lifetime.budget_cancelled lifetime.now) ended)
]

-- Whether the error's data tell of a file with credentials.
unfoldable pub has_credential_file : McpError → Bool
has_credential_file error = is_some_and error.error_data λ details.
    is_some_and details.upstream
      λ upstream. is_some upstream.diagnostic_file || is_some upstream.diagnostic_file_unavailable

module _ {V : Type 0} (serde : Serde V) where
  -- The arguments that are absent are an empty object.
  unfoldable pub parse :
      (method : Handler) → CallToolRequestParams V → Result McpError (Input method)
  parse method params =
      ok_or (serde.from_value method (unwrap_or params.arguments serde.empty_object))
        (invalid_params (text "arguments do not match the advertised schema"))

  unfoldable pub structured : Option V → Result McpError (CallToolResult V)
  structured value = elim value [
    | none ↦ err (internal_error (text "failed to serialize bounded result") none)
    | some v ↦ ok (record { structured_content = v; is_error = false; untrusted = none })
  ]

  abbrev pub trust_annotated : CallToolResult V → CallToolResult V
  trust_annotated result = record result { untrusted = some true }

  -- The result that stands for such an error.
  unfoldable pub failure_result : McpError → Result McpError (CallToolResult V)
  unfolding structured
  failure_result error = elim error.error_data [
    | none ↦ err error
    | some details ↦
        map_ok (λ result. trust_annotated (record result { is_error = true }))
          (structured (
            serde.failure_to_value
              (record { code = error.code; message = error.message; error_data = details })))
  ]

  -- The last `match` of `call_tool`.
  unfoldable pub answer : Result McpError (CallToolResult V) → Result McpError (CallToolResult V)
  unfolding has_credential_file failure_result
  answer (ok result) = ok result
  answer (err error) = if has_credential_file error then failure_result error else err error

  module _ (prepare : Text → PreparedDocument) (from_utf8 : List ℕ → Option Text) where
    -- The choice of a method by `dispatch`, or its failure, and what follows.
    unfoldable pub serve :
        KomodoMcp → CallToolRequestParams V → Result DispatchError Handler → Tool (CallToolResult V)
    unfolding parse structured run
    serve handler params (err e) = done (err method_not_found)
    serve handler params (ok method) = do
      input ← done (parse method params)
      output ← run prepare from_utf8 handler method input
      result ← done (structured (serde.to_value method output))
      done (ok (trust_annotated result))

    -- `dispatch`, with the handler's access to the tools.
    unfoldable pub dispatch_call :
        ToolProfile → KomodoMcp → CallToolRequestParams V → Tool (CallToolResult V)
    unfolding dispatch serve
    dispatch_call profile handler params =
        serve handler params (dispatch (access profile handler) params.name)

    -- `lifetime` is when the request's cancellation or deadline stops the tool.
    unfoldable pub call_tool :
        ToolProfile → Option ℕ → KomodoMcp → CallToolRequestParams V → Tool (CallToolResult V)
    unfolding check_budget select_biased dispatch_call answer
    call_tool profile lifetime handler params =
        check_budget handler
        >> attempt (select_biased lifetime (dispatch_call profile (invocation handler) params))
            (λ r. done (answer r))
