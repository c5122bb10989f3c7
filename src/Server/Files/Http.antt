-- ===== src/Server/Files/Http.antt =====
-- crates/komodo-server/src/files.rs: the transfers over HTTP, in the state of the registry. What axum
-- reads of a request, its body within the bound included, and of the clock, are arguments.
use mcp_komodo_rs.Prelude.{
  ℕ, Bool, true, false, ◌&&◌, ◌==◌, if◌then◌else◌, Option, some, none, List, [], ◌∷◌, is_empty,
  is_none_or, ok, err,
}
use mcp_komodo_rs.Prelude.Text.{Text, text, str_eq, strip_prefix, len}
use mcp_komodo_rs.Mcp.Execution.{ExecutionBudget, has_ended}
use mcp_komodo_rs.Server.Files.Types.{Bytes, http_prefix, Direction, TransferFiles, Platform}
use mcp_komodo_rs.Server.Files.Grants.{Outcome, is_file_id}
use mcp_komodo_rs.Server.Files.Authorize.{admits_grant}
use mcp_komodo_rs.Server.Files.Transfer.{upload, download}
use mcp_komodo_rs.Server.Files.Body.{DownloadBody}

-- The values of the header, each of which may not be text, and the budget that the request carries.
pub record Request : Type 0 where
  pub method : Text
  pub path : Text
  pub authorization : List (Option Text)
  pub budget : Option ExecutionBudget

pub data StatusCode : Type 0 where
  no_content bad_request unauthorized method_not_allowed payload_too_large : StatusCode
  service_unavailable : StatusCode

-- A response is a status, or the stream of a file.
pub data Response : Type 0 where
  status : StatusCode → Response
  file : DownloadBody → Response

-- `(values.next().is_none() && token.len() == 43).then_some(token)`
unfoldable pub only_token : List (Option Text) → Option Text → Option Text
unfolding len
only_token values none = none
only_token values (some token) = if is_empty values && len token == 43 then some token else none

unfoldable pub bearer : List (Option Text) → Option Text
bearer [] = none
bearer (none ∷ values) = none
bearer (some value ∷ values) = only_token values (strip_prefix (text "Bearer ") value)

unfoldable pub direction_of : Text → Option Direction
direction_of method =
    if str_eq method (text "PUT")
    then some Direction.upload
    else if str_eq method (text "GET")
    then some Direction.download
    else none

module _ (p : Platform) where
  -- What follows `id.zip(bearer(&request))`: whether the request is admitted.
  unfoldable pub admits :
      Option Text → Option Text → Direction → ℕ → ℕ → TransferFiles → Bool × TransferFiles
  admits none token direction pruned checked s = (false, s)
  admits (some id) none direction pruned checked s = (false, s)
  admits (some id) (some token) direction pruned checked s =
      if is_file_id id then admits_grant p id token direction pruned checked s else (false, s)

  abbrev pub continued :
      (TransferFiles → Response × TransferFiles) → Bool × TransferFiles → Response × TransferFiles
  continued next (true, s) = next s
  continued next (false, s) = (status unauthorized, s)

  unfoldable pub authenticate_transfer :
      (Request → TransferFiles → Response × TransferFiles)
      → Request
      → ℕ
      → ℕ
      → TransferFiles
      → Response × TransferFiles
  authenticate_transfer next request pruned checked s = elim (direction_of request.method) [
    | none ↦ (status method_not_allowed, s)
    | some direction ↦ continued (next request) (
        admits (strip_prefix http_prefix request.path) (bearer request.authorization) direction
          pruned checked s)
  ]

  abbrev pub responds : {A : Type 0} → (A → Response) → Outcome A → Response × TransferFiles
  responds respond (ok a, s) = (respond a, s)
  responds respond (err e, s) = (status bad_request, s)

  unfoldable pub upload_http :
      Text → Request → Option Bytes → Bool → ℕ → ℕ → ℕ → TransferFiles → Response × TransferFiles
  upload_http id request body cancelled now pruned checked s = elim request.budget [
    | none ↦ (status service_unavailable, s)
    | some budget ↦ elim (bearer request.authorization) [
      | none ↦ (status unauthorized, s)
      | some token ↦ elim body [
        | none ↦ (status payload_too_large, s)
        | some bytes ↦
            if has_ended budget cancelled now
            then (status service_unavailable, s)
            else responds (λ _. status no_content) (upload p id token bytes pruned checked s)
      ]
    ]
  ]

  unfoldable pub download_http :
      Text → Request → Bool → ℕ → ℕ → ℕ → TransferFiles → Response × TransferFiles
  download_http id request cancelled now pruned checked s =
      if is_none_or request.budget (λ budget. has_ended budget cancelled now)
      then (status service_unavailable, s)
      else elim (bearer request.authorization) [
        | none ↦ (status unauthorized, s)
        | some token ↦
            responds (λ stored. file (record { stored = stored; offset = 0 }))
              (download p id token pruned checked s)
      ]
