-- ===== src/Mcp/Errors.antt =====
-- crates/komodo-mcp/src/errors.rs, the data of a failure, and the errors of rmcp that the tools build.
use mcp_komodo_rs.Prelude.{ℕ, Bool, true, false, Option, some, none}
use mcp_komodo_rs.Prelude.Text.{Text, text}
use mcp_komodo_rs.Api.Errors.{Diagnostic}
use mcp_komodo_rs.Mcp.Files.{FileValue}

pub data ErrorCode : Type 0 where
  invalid_params_code invalid_request_code internal_error_code method_not_found_code : ErrorCode

pub record UpstreamDiagnostic : Type 0 where
  pub http_status : ℕ
  pub request : Text
  pub diagnostic : Option Diagnostic
  pub diagnostic_unavailable : Option Text
  pub untrusted : Bool
  pub credential_values_present : Option Bool
  pub diagnostic_file : Option FileValue
  pub diagnostic_file_unavailable : Option Text

-- The JSON object of an error's data: `None` is an absent key.
pub record CredentialFailureData : Type 0 where
  pub upstream : Option UpstreamDiagnostic
  pub outcome : Option Text
  pub target : Option Text
  pub retry_safe : Option Bool
  pub operation_id_available : Option Bool
  pub reconcile_with : Option Text
  pub operator_verification_required : Option Bool

-- `json!({})`
abbrev pub no_data : CredentialFailureData
no_data = record {
  upstream = none;
  outcome = none;
  target = none;
  retry_safe = none;
  operation_id_available = none;
  reconcile_with = none;
  operator_verification_required = none;
}

pub record McpError : Type 0 where
  pub code : ErrorCode
  pub message : Text
  pub error_data : Option CredentialFailureData

abbrev pub invalid_params : Text → McpError
invalid_params message = record { code = invalid_params_code; message = message; error_data = none }

abbrev pub invalid_request : Text → McpError
invalid_request message = record {
  code = invalid_request_code;
  message = message;
  error_data = none;
}

abbrev pub internal_error : Text → Option CredentialFailureData → McpError
internal_error message error_data = record {
  code = internal_error_code;
  message = message;
  error_data = error_data;
}

-- crates/komodo-mcp/src/execution.rs
unfoldable pub ended : McpError
ended =
    internal_error
      (text
        "request cancelled or deadline exceeded; a submitted mutation may have taken effect; reconcile with its documented read before another write")
      (some (record no_data {
        outcome = some (text "unknown");
        retry_safe = some false;
        operator_verification_required = some true;
      }))
