-- ===== src/Server/Lifecycle/Examples.antt =====
-- crates/komodo-server/src/lifecycle.rs: a limit of one request, and a custom request, on concrete data.
use mcp_komodo_rs.Prelude.{
  ℕ, ◌<◌, ◌≡◌, ◌↔◌, ◌++◌, refl, true, false, is_some, some, none, length, ok, err,
}
use mcp_komodo_rs.Prelude.Text.{Text, text, str_eq, len}
use mcp_komodo_rs.Prelude.Dict.{get}
use mcp_komodo_rs.Api.Json.{Json, bool, string, array, object, nil, item, end, field}
use mcp_komodo_rs.Mcp.Execution.{has_ended}
use mcp_komodo_rs.Mcp.Files.{FileValue}
use mcp_komodo_rs.Server.Files.Types.{uri_prefix, http_prefix, Direction, TransferFiles, Descriptor}
use mcp_komodo_rs.Server.Files.Grants.{
  default, exceeds_bounds, is_long_or_control, random_id, descriptor, prune, release_dropped,
  refuse_if,
}
use mcp_komodo_rs.Server.Files.Authorize.{
  expected_digest, insert_new, upload_entry, prepare_upload, authorize_upload,
}
use mcp_komodo_rs.Server.Files.Examples.{local, local-Counts, key}
use mcp_komodo_rs.Server.Lifecycle.Limits.{RequestLimits, new, enter, start, later, entered}
use mcp_komodo_rs.Server.Lifecycle.Permits.{IsCounted, Reach-IsBounded}
use mcp_komodo_rs.Server.Lifecycle.Scoped.{
  CustomRequest, Readings, direction_of_method, supports_http, check_request, authorize,
  on_custom_request,
}
use mcp_komodo_rs.Server.Lifecycle.Opened.{IsOpened}
use mcp_komodo_rs.Server.Lifecycle.Owners.{IsAllowed, on_custom_request_authorized}

-- One request holds the permit.
abbrev busy : RequestLimits
busy = (enter local 0 (new 1 10)).1

second_refused : (enter local 5 busy).0 ≡ none
unfolding enter new
second_refused = refl

Reach-IsBounded_example :
    IsCounted 1 busy
    × ((now : ℕ)
        → (is_some (enter local now busy).0 ≡ true)
          ↔ ((busy.shutdown ≡ false) × (length busy.leases < 1)))
Reach-IsBounded_example = Reach-IsBounded local local-Counts 1 (later start (entered 0))

abbrev capabilities : Json
capabilities = object (
    field (text "files")
      (object (
        field (text "upload") (bool true)
          (field (text "transports") (array (item (string (text "http")) nil)) end)))
      end)

abbrev request : CustomRequest
request = record {
  method = text "files/authorizeUpload";
  upload_params =
      ok (some (record { name = none; mime_type = none; size = some 32; digest = none }));
  download_uri = err tt;
  meta = object (field (text "io.modelcontextprotocol/clientCapabilities") capabilities end);
  parts = some (record {
    owner = some (text "alice");
    lease = some (record { owners = 2; budget = record { deadline = 10 }; cancelled = false });
    host = some (text "mcp");
  });
}

abbrev readings : Readings
readings = record {
  cancelled = false;
  now = 5;
  id_entropy = some key;
  token_entropy = some (text "token");
  issued = 5;
  pruned = 5;
  inserted = 5;
}

abbrev given : FileValue × Descriptor
given = (
  record { uri = uri_prefix ++ key; name = none; mime_type = none; size = some 32; digest = none },
  record {
    method = text "PUT";
    url = text "http://mcp/" ++ (http_prefix ++ key);
    authorization = text "Bearer token";
  },
)

abbrev opened : TransferFiles
opened = (on_custom_request local (λ url. some url) request readings default).1

opens : on_custom_request local (λ url. some url) request readings default ≡ (ok given, opened)
unfolding on_custom_request check_request authorize direction_of_method supports_http str_eq len
    has_ended authorize_upload prepare_upload exceeds_bounds is_long_or_control expected_digest
    insert_new upload_entry random_id descriptor prune release_dropped refuse_if get
opens = refl

on_custom_request_authorized_example :
    (direction : Direction) × (owner : Text) × (base : Text) × IsAllowed
      (λ url. some url)
      request
      readings
      direction
      owner
      base
    × IsOpened local request readings direction owner base given opened
on_custom_request_authorized_example =
    on_custom_request_authorized local (λ url. some url) request readings default opened given opens
