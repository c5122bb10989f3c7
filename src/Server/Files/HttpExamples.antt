-- ===== src/Server/Files/HttpExamples.antt =====
-- crates/komodo-server/src/files.rs: a download over HTTP on concrete data.
use mcp_komodo_rs.Prelude.{◌≡◌, ◌⊎◌, refl, true, false, not, is_some_and, some, none, [], ◌∷◌, ◌++◌}
use mcp_komodo_rs.Prelude.Text.{Text, text, str_eq, len, strip_prefix}
use mcp_komodo_rs.Prelude.Dict.{get, remove, HasDistinctKeys}
use mcp_komodo_rs.Mcp.Execution.{has_ended}
use mcp_komodo_rs.Server.Files.Types.{http_prefix, Direction, Entry, TransferFiles}
use mcp_komodo_rs.Server.Files.Grants.{valid_grant, prune, release_dropped, with_entry}
use mcp_komodo_rs.Server.Files.Authorize.{upload_entry}
use mcp_komodo_rs.Server.Files.Transfer.{download, take_out}
use mcp_komodo_rs.Server.Files.Body.{DownloadBody}
use mcp_komodo_rs.Server.Files.Access.{MayDownload}
use mcp_komodo_rs.Server.Files.Http.{
  Request, Response, file, bearer, only_token, authenticate_transfer, download_http,
}
use mcp_komodo_rs.Server.Files.Admits.{IsRefused, GoesOn, authenticate_transfer_sound}
use mcp_komodo_rs.Server.Files.Streams.{download_http_authorized}
use mcp_komodo_rs.Server.Files.Examples.{local, local-ComparesBytes, key, payload, full, emptied}

abbrev granted : Entry
granted = record full {
  grant = some (record { hash = key; expires = 10; direction = Direction.download });
}

abbrev offering : TransferFiles
offering = record { entries = (key, granted) ∷ []; capacity = 100 }

offering-HasDistinctKeys : HasDistinctKeys offering.entries
unfolding get
offering-HasDistinctKeys = (refl, tt)

abbrev get_request : Request
get_request = record {
  method = text "GET";
  path = http_prefix ++ key;
  authorization = some (text "Bearer " ++ key) ∷ [];
  budget = some (record { deadline = 100 });
}

abbrev streamed : DownloadBody
streamed = record { stored = record { bytes = payload; permits = 32 }; offset = 0 }

abbrev handle : Request → TransferFiles → Response × TransferFiles
handle request s = download_http local key request false 5 2 2 s

authenticate_transfer_sound_example :
    IsRefused local offering 1 (authenticate_transfer local handle get_request 1 1 offering)
    ⊎ GoesOn local handle get_request 1 1 offering
        (authenticate_transfer local handle get_request 1 1 offering)
authenticate_transfer_sound_example =
    authenticate_transfer_sound local local-ComparesBytes offering offering-HasDistinctKeys handle
      get_request 1 1

downloaded : download_http local key get_request false 5 1 1 offering ≡ (file streamed, emptied)
unfolding download_http bearer only_token len strip_prefix has_ended download with_entry take_out
    valid_grant prune release_dropped get remove str_eq upload_entry
downloaded = refl

download_http_authorized_example :
    (token : Text) × (get_request.authorization ≡ some (text "Bearer " ++ token) ∷ [])
    × (is_some_and get_request.budget (λ budget. not (has_ended budget false 5)) ≡ true)
    × (streamed.offset ≡ 0)
    × MayDownload local offering key token 1 1 streamed.stored
    × (get key emptied.entries ≡ none)
download_http_authorized_example =
    download_http_authorized local local-ComparesBytes offering offering-HasDistinctKeys key
      get_request false 5 1 1 streamed emptied downloaded
