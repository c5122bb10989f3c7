-- ===== src/Mcp/Tasks/Report.antt =====
-- crates/komodo-mcp/src/errors.rs: `api_error` and `mutation_error`; and `admin` of
-- crates/komodo-mcp/src/lib.rs.
use mcp_komodo_rs.Prelude.{
  ℕ, true, false, ◌&&◌, if◌then◌else◌, some, none, is_some_and, unwrap_or, List, Result, ok, err,
}
use mcp_komodo_rs.Prelude.Text.{Text, text}
use mcp_komodo_rs.Prelude.Tasks.{done, call, ◌>>=◌}
use mcp_komodo_rs.Api.Errors.{
  ApiError, upstream, UpstreamFailure, display, take_credential_document, mutation_outcome_unknown,
  resource_not_found,
}
use mcp_komodo_rs.Mcp.Execution.{has_ended}
use mcp_komodo_rs.Mcp.Errors.{
  McpError, invalid_params_code, internal_error, invalid_request, UpstreamDiagnostic, no_data,
  ended,
}
use mcp_komodo_rs.Mcp.Tasks.Calls.{KomodoMcp, Lifetime, Tool, read_lifetime, publish}

-- The fields of `upstream` before the credential document is looked at.
abbrev pub upstream_diagnostic : UpstreamFailure → UpstreamDiagnostic
upstream_diagnostic failure = record {
  http_status = failure.status;
  request = failure.request;
  diagnostic = failure.diagnostic;
  diagnostic_unavailable = failure.diagnostic_unavailable;
  untrusted = true;
  credential_values_present = failure.credential_values_present;
  diagnostic_file = none;
  diagnostic_file_unavailable = none;
}

abbrev pub upstream_error : Text → UpstreamDiagnostic → McpError
upstream_error message diagnostic =
    internal_error message (some (record no_data { upstream = some diagnostic }))

module _ (handler : KomodoMcp) where
  -- The publication of the credential document.
  unfoldable pub publish_document : Text → UpstreamDiagnostic → List ℕ → Tool McpError
  publish_document message diagnostic bytes = elim handler.credential_files [
    | none ↦ done (
        ok (
          upstream_error message (record diagnostic {
            diagnostic_file_unavailable = some (text "native file transfer required");
          })))
    | some owner ↦
        call (publish owner (text "komodo-diagnostic.txt") (text "text/plain") bytes) λ reply.
          done (
            ok (elim reply [
              | ok file ↦ upstream_error message (record diagnostic { diagnostic_file = some file })
              | err _ ↦ upstream_error message (record diagnostic {
                diagnostic_file_unavailable = some (text "native file capacity unavailable");
              })
            ]))
  ]

  unfoldable pub api_error : ApiError → Tool McpError
  unfolding publish_document
  api_error (upstream failure) = elim (take_credential_document failure).0 [
    | none ↦ done (ok (upstream_error (display (upstream failure)) (upstream_diagnostic failure)))
    | some bytes ↦ publish_document (display (upstream failure)) (upstream_diagnostic failure) bytes
  ]
  api_error error = done (ok (internal_error (display error) none))

  -- What `mutation_error` sets where the outcome is unknown.
  unfoldable pub reconcile : Text → Text → McpError → McpError
  reconcile target read_tool error = record error {
    message = text "Komodo mutation outcome is unknown; reconcile before any new write";
    error_data = some (record (unwrap_or error.error_data no_data) {
      outcome = some (text "unknown");
      target = some target;
      retry_safe = some false;
      operation_id_available = some false;
      reconcile_with = some read_tool;
      operator_verification_required = some true;
    });
  }

  unfoldable pub mutation_error : Text → Text → ApiError → Tool McpError
  mutation_error target read_tool error = do
    result ← api_error error
    done (ok (if mutation_outcome_unknown error then reconcile target read_tool result else result))

  unfoldable pub operation_lookup_error : ApiError → Tool McpError
  operation_lookup_error error = do
    result ← api_error error
    done (
        ok (
          if resource_not_found error
          then record result { code = invalid_params_code; message = text "operation not found" }
          else result))

  -- Whether `admin` gives the administrative client, after what it reads.
  unfoldable pub admit : Lifetime → Result McpError (Unit {0})
  admit lifetime =
      if is_some_and handler.budget (λ b. has_ended b lifetime.budget_cancelled lifetime.now)
      then err ended
      else if handler.has_rpc_cancellation && lifetime.rpc_cancelled
      then err ended
      else if handler.has_admin
      then ok tt
      else err (invalid_request (text "administrative upstream credentials unavailable"))

  unfoldable pub admin : Tool (Unit {0})
  admin = call read_lifetime λ lifetime. done (admit lifetime)
