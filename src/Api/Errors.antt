-- ===== src/Api/Errors.antt =====
-- crates/komodo-api/src/lib.rs, `ApiError`, and crates/komodo-api/src/errors.rs, the failure that Core
-- reports.
use mcp_komodo_rs.Prelude.{
  ℕ, Bool, true, false, not, ◌&&◌, ◌||◌, ◌==◌, leb, if◌then◌else◌, Option, some, none, List, ◌++◌,
}
use mcp_komodo_rs.Prelude.Text.{Text, text}

pub data DiagnosticText : Type 0 where
  complete : Text → DiagnosticText
  segments : List Text → DiagnosticText

pub record Diagnostic : Type 0 where
  pub error : DiagnosticText
  pub trace : List DiagnosticText

pub record UpstreamFailure : Type 0 where
  pub status : ℕ
  pub request : Text
  pub diagnostic : Option Diagnostic
  pub diagnostic_unavailable : Option Text
  pub credential_values_present : Option Bool
  pub original : Option (List ℕ)

-- The Display of UpstreamFailure.
unfoldable pub display_failure : UpstreamFailure → Text
display_failure failure =
    let status = failure.status in
    if status == 401
    then text "Komodo authentication failed"
    else if status == 403
    then text "Komodo denied the operation"
    else if status == 404
    then text "the requested Komodo resource was not found"
    else if leb 500 status && leb status 599
    then text "Komodo is temporarily unavailable"
    else text "Komodo rejected the named request"

unfoldable pub without_body : ℕ → Text → Text → UpstreamFailure
without_body status request reason = record {
  status = status;
  request = request;
  diagnostic = none;
  diagnostic_unavailable = some reason;
  credential_values_present = none;
  original = none;
}

-- The bytes taken, and the failure without them.
abbrev pub take_credential_document : UpstreamFailure → Option (List ℕ) × UpstreamFailure
take_credential_document failure = (failure.original, record failure { original = none })

pub data ApiError : Type 0 where
  upstream : UpstreamFailure → ApiError
  invalid_configuration : Text → ApiError
  authentication forbidden not_found unavailable incompatible_response : ApiError
  response_too_large inventory_pagination_unsupported inventory_selector_too_broad : ApiError

-- The Display of ApiError.
unfoldable pub display : ApiError → Text
display (upstream failure) = display_failure failure
display (invalid_configuration label) = text "invalid Komodo client configuration: " ++ label
display authentication = text "Komodo authentication failed"
display forbidden = text "Komodo denied the operation"
display not_found = text "the requested Komodo resource was not found"
display unavailable = text "Komodo is temporarily unavailable"
display incompatible_response = text "Komodo returned an incompatible response"
display response_too_large = text "Komodo response exceeded the configured bound"
display inventory_pagination_unsupported =
    text "inventory pagination requires Komodo Core 2.3 or later; use page zero on older Core"
display inventory_selector_too_broad =
    text
      "resource lookup exceeded its bounded search; use the exact resource id or check Core reachability"

unfoldable pub mutation_outcome_unknown : ApiError → Bool
mutation_outcome_unknown unavailable = true
mutation_outcome_unknown incompatible_response = true
mutation_outcome_unknown response_too_large = true
mutation_outcome_unknown (upstream failure) =
    not (failure.status == 401 || (failure.status == 403 || failure.status == 404))
mutation_outcome_unknown _ = false

unfoldable pub resource_not_found : ApiError → Bool
resource_not_found not_found = true
resource_not_found (upstream failure) = failure.status == 404
resource_not_found _ = false
