-- ===== src/Server/Lifecycle/Scoped.antt =====
-- crates/komodo-server/src/lifecycle.rs: `call_tool` and `on_custom_request` of `ScopedMcp`, and
-- `supports_http` of crates/komodo-server/src/files.rs. The parsers of parameters and of URLs, the clock and
-- the entropy source are arguments.
use mcp_komodo_rs.Prelude.{
  ℕ, Bool, true, false, ◌&&◌, ◌||◌, if◌then◌else◌, is_some_and, Option, some, none, ◌++◌, Result,
  ok, err, ◌>>=◌, ◌>>◌, refuse, ok_or, map_err,
}
use mcp_komodo_rs.Prelude.Text.{Text, text, str_eq}
use mcp_komodo_rs.Api.Json.{Json, bool, string, array, Items, nil, item, get}
use mcp_komodo_rs.Mcp.Errors.{McpError, internal_error}
use mcp_komodo_rs.Mcp.Execution.{has_ended}
use mcp_komodo_rs.Mcp.Files.{FileValue}
use mcp_komodo_rs.Mcp.Tasks.Calls.{KomodoMcp}
use mcp_komodo_rs.Server.Files.Types.{
  Bytes, Error, Direction, TransferFiles, UploadParams, Descriptor, Platform,
}
use mcp_komodo_rs.Server.Files.Authorize.{authorize_upload, authorize_download}
use mcp_komodo_rs.Server.Lifecycle.Limits.{RequestLease}

-- The parts of the HTTP request of a call: the subject of the principal, the lease, and the host.
pub record Parts : Type 0 where
  pub owner : Option Text
  pub lease : Option RequestLease
  pub host : Option Text

-- `parts.and_then(…)`
abbrev pub part : {A : Type 0} → (Parts → Option A) → Option Parts → Option A
part field none = none
part field (some parts) = field parts

-- ScopedMcp::call_tool up to the call of the handler.
unfoldable pub scope : Option Parts → KomodoMcp → Result McpError KomodoMcp
scope parts handler = do
  lease ←
      ok_or (part (λ p. p.lease) parts) (internal_error (text "request lifetime unavailable") none)
  owner ←
      ok_or (part (λ p. p.owner) parts)
        (internal_error (text "verified file owner unavailable") none)
  ok (record handler { budget = some lease.budget; credential_files = some owner })

abbrev pub and_then_get : Text → Option Json → Option Json
and_then_get key none = none
and_then_get key (some value) = get key value

abbrev pub is_true : Option Json → Bool
is_true (some (bool b)) = b
is_true _ = false

abbrev pub is_http : Json → Bool
is_http (string s) = str_eq s (text "http")
is_http _ = false

abbrev pub any_http : Items → Bool
any_http nil = false
any_http (item value items) = is_http value || any_http items

abbrev pub lists_http : Option Json → Bool
lists_http (some (array items)) = any_http items
lists_http _ = false

abbrev pub direction_name : Direction → Text
direction_name Direction.upload = text "upload"
direction_name Direction.download = text "download"

unfoldable pub supports_http : Json → Direction → Bool
supports_http meta direction =
    is_some_and
      (and_then_get (text "files") (get (text "io.modelcontextprotocol/clientCapabilities") meta))
      (λ v. is_true (get (direction_name direction) v) && lists_http (get (text "transports") v))

-- The errors, one for each message.
pub data RequestError : Type 0 where
  method_not_found transport_unsupported context_unavailable owner_unavailable : RequestError
  lifetime_unavailable lifetime_ended origin_unavailable : RequestError
  invalid_upload missing_upload invalid_download missing_download : RequestError
  file_error : Error → RequestError

-- A request with what its parameters parse to, if they do, and the metadata of its context.
pub record CustomRequest : Type 0 where
  pub method : Text
  pub upload_params : Result (Unit {0}) (Option UploadParams)
  pub download_uri : Result (Unit {0}) (Option Text)
  pub meta : Json
  pub parts : Option Parts

-- What is read while the request is served.
pub record Readings : Type 0 where
  pub cancelled : Bool
  pub now : ℕ
  pub id_entropy : Option Bytes
  pub token_entropy : Option Bytes
  pub issued : ℕ
  pub pruned : ℕ
  pub inserted : ℕ

unfoldable pub direction_of_method : Text → Option Direction
direction_of_method method =
    if str_eq method (text "files/authorizeUpload")
    then some Direction.upload
    else if str_eq method (text "files/authorizeDownload")
    then some Direction.download
    else none

-- The checks before the parameters are read: the direction, the owner and the base of the URL.
unfoldable pub check_request :
    (Text → Option Text) → CustomRequest → Readings → Result RequestError (Direction × Text × Text)
check_request parse_url request readings = do
  direction ← ok_or (direction_of_method request.method) method_not_found
  refuse (if supports_http request.meta direction then false else true) transport_unsupported
  parts ← ok_or request.parts context_unavailable
  principal ← ok_or parts.owner owner_unavailable
  lease ← ok_or parts.lease lifetime_unavailable
  refuse (has_ended lease.budget readings.cancelled readings.now) lifetime_ended
  host ← ok_or parts.host origin_unavailable
  base ← ok_or (parse_url (text "http://" ++ (host ++ text "/"))) origin_unavailable
  ok (direction, principal, base)

abbrev pub Answered : Type 0
Answered = Result RequestError (FileValue × Descriptor) × TransferFiles

abbrev pub answered : Result Error (FileValue × Descriptor) × TransferFiles → Answered
answered (result, s) = (map_err file_error result, s)

-- `request.params_as()` with its two errors.
abbrev pub params_of :
    {A : Type 0}
    → Result (Unit {0}) (Option A)
    → RequestError
    → RequestError
    → Result RequestError A
params_of (err _) invalid missing = err invalid
params_of (ok given) invalid missing = ok_or given missing

module _ (p : Platform) where
  unfoldable pub authorize :
      CustomRequest → Readings → Direction → Text → Text → TransferFiles → Answered
  authorize request readings Direction.upload owner base s =
      elim (params_of request.upload_params invalid_upload missing_upload) [
        | err e ↦ (err e, s)
        | ok params ↦ answered (
            authorize_upload p owner params base readings.id_entropy readings.token_entropy
              readings.issued readings.pruned readings.inserted s)
      ]
  authorize request readings Direction.download owner base s =
      elim (params_of request.download_uri invalid_download missing_download) [
        | err e ↦ (err e, s)
        | ok uri ↦ answered (
            authorize_download p owner uri base readings.token_entropy readings.issued
              readings.pruned s)
      ]

  unfoldable pub on_custom_request :
      (Text → Option Text) → CustomRequest → Readings → TransferFiles → Answered
  unfolding check_request authorize
  on_custom_request parse_url request readings s = elim (check_request parse_url request readings) [
    | err e ↦ (err e, s)
    | ok (direction, owner, base) ↦ authorize request readings direction owner base s
  ]
