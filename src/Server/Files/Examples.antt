-- ===== src/Server/Files/Examples.antt =====
-- crates/komodo-server/src/files.rs: runs of `TransferFiles` on concrete data, with a platform whose hash
-- and whose encodings are the identity.
use mcp_komodo_rs.Prelude.{
  ℕ, ◌+◌, ◌-◌, ◌≡◌, refl, true, false, leb, if◌then◌else◌, some, none, [], ◌∷◌, ◌++◌, ok, arith,
}
use mcp_komodo_rs.Prelude.Text.{Text, text, str_eq, str_eq_iff, len, strip_prefix}
use mcp_komodo_rs.Prelude.Dict.{get, remove, HasDistinctKeys}
use mcp_komodo_rs.Server.Files.Types.{
  Bytes, uri_prefix, http_prefix, grant_ttl, Direction, Grant, Entry, TransferFiles, UploadParams,
  Descriptor, Platform, Counts, ComparesBytes,
}
use mcp_komodo_rs.Server.Files.Grants.{
  default, is_file_id, file_id, is_long_or_control, exceeds_bounds, random_id, descriptor,
  release_dropped, prune, with_entry, valid_grant,
}
use mcp_komodo_rs.Server.Files.Authorize.{
  expected_digest, upload_file, upload_entry, prepare_upload, authorize_upload, authorize_download,
}
use mcp_komodo_rs.Server.Files.Transfer.{
  mismatches, upload, published_file, publish, download, take, take_out, consume,
}
use mcp_komodo_rs.Server.Files.Body.{DownloadBody, drain, is_end_stream, size_hint}
use mcp_komodo_rs.Server.Files.Bounded.{
  publishes, prunes, downloads, drops, start, run, IsSystemBounded, run_bounded,
}
use mcp_komodo_rs.Server.Files.Access.{MayDownload, MayTake, download_authorized, take_authorized}
use mcp_komodo_rs.Server.Files.RoundTrip.{upload_then_take}
use mcp_komodo_rs.Server.Files.Download.{descriptor_for, publish_then_download}
use mcp_komodo_rs.Server.Files.Body.{drain_complete}

abbrev pub local : Platform
local = record {
  sha256 = λ bytes. bytes;
  ct_eq = str_eq;
  encode = λ bytes. bytes;
  decode = λ value. some value;
  join = λ base path. some (base ++ path);
  try_acquire_many = λ n k. if leb k n then some (n - k) else none;
  release = λ n k. n + k;
}

pub local-Counts : Counts local
local-Counts = record {
  acquired = λ n k left h. ground arith;
  acquires = λ n k h. ground arith;
  released = λ n k. refl;
}

pub local-ComparesBytes : ComparesBytes local
local-ComparesBytes = record { ct_eq_iff = str_eq_iff }

abbrev pub key : Text
key = text "AAAAAAAAAAAAAAAAAAAAAAAAAAAAAAAAAAAAAAAAAAA"

abbrev token : Text
token = text "token"

abbrev alice : Text
alice = text "alice"

abbrev base : Text
base = text "https://example.net"

abbrev pub payload : Bytes
payload = text "0123456789abcdef0123456789abcdef"

abbrev params : UploadParams
params = record {
  name = some (text "token.txt");
  mime_type = none;
  size = some 32;
  digest = some (record { algorithm = text "sha-256"; value = payload });
}

abbrev upload_grant : Grant
upload_grant = record { hash = token; expires = grant_ttl; direction = Direction.upload }

abbrev put_descriptor : Descriptor
put_descriptor = record {
  method = text "PUT";
  url = base ++ (http_prefix ++ key);
  authorization = text "Bearer " ++ token;
}

prepared :
    prepare_upload local params base (some key) (some token) 0
    ≡ ok (some payload, key, upload_grant, put_descriptor)
unfolding prepare_upload exceeds_bounds is_long_or_control len expected_digest str_eq random_id
    descriptor
prepared = refl

key-is_file_id : is_file_id key ≡ true
unfolding is_file_id len
key-is_file_id = refl

pruned_default : (now : ℕ) → prune local now default ≡ default
unfolding prune release_dropped
pruned_default now = refl

fresh : get key (prune local 0 default).entries ≡ none
unfolding prune get
fresh = refl

abbrev waiting : Entry
waiting =
    upload_entry local alice params (upload_file local key params) (some payload) upload_grant 0

matching : mismatches local waiting payload ≡ false
unfolding mismatches upload_entry str_eq
matching = refl

upload_then_take_example :
    let authorized =
      authorize_upload local alice params base (some key) (some token) 0 0 0 default in
    let filled = upload local key token payload 1 1 authorized.1 in
    (authorized.0 ≡ ok (upload_file local key params, put_descriptor))
    × (filled.0 ≡ ok tt)
    × ((take local alice (upload_file local key params).uri 2 filled.1).0 ≡ ok payload)
unfolding prune
upload_then_take_example =
    upload_then_take local local-Counts local-ComparesBytes alice params base key token 0 0 0 1 1 2
      (some payload) key upload_grant put_descriptor payload default prepared key-is_file_id
      (omega arith) fresh (omega arith) (omega arith) (omega arith) (omega arith) (omega arith)
      matching

abbrev pub full : Entry
full = record waiting {
  bytes = some (record { bytes = payload; permits = 32 });
  grant = some (record { hash = token; expires = 10; direction = Direction.download });
}

abbrev holding : TransferFiles
holding = record { entries = (key, full) ∷ []; capacity = 100 }

abbrev pub emptied : TransferFiles
emptied = record { entries = []; capacity = 100 }

holding-HasDistinctKeys : HasDistinctKeys holding.entries
unfolding get
holding-HasDistinctKeys = (refl, tt)

downloaded :
    download local key token 1 1 holding ≡ (ok (record { bytes = payload; permits = 32 }), emptied)
unfolding download with_entry take_out valid_grant prune release_dropped get remove str_eq
    upload_entry
downloaded = refl

download_authorized_example :
    MayDownload local holding key token 1 1 (record { bytes = payload; permits = 32 })
    × (get key emptied.entries ≡ none)
download_authorized_example =
    download_authorized local holding holding-HasDistinctKeys 1 local-ComparesBytes key token 1
      (record { bytes = payload; permits = 32 }) emptied downloaded

taken :
    take local alice (uri_prefix ++ key) 1 holding ≡ (ok payload, record emptied { capacity = 132 })
unfolding take file_id is_file_id len strip_prefix with_entry consume prune release_dropped get
    remove str_eq upload_entry
taken = refl

take_authorized_example :
    MayTake local holding (record emptied { capacity = 132 }) alice (uri_prefix ++ key) 1 payload
take_authorized_example =
    take_authorized local holding holding-HasDistinctKeys 1 alice (uri_prefix ++ key) payload
      (record emptied { capacity = 132 }) taken

run_bounded_example : IsSystemBounded local local-Counts (
    run local start (
      publishes alice (text "token.txt") (text "text/plain") payload (some key) 0 0
      ∷ downloads key token 1 1
      ∷ drops
      ∷ prunes 5
      ∷ []))
run_bounded_example = run_bounded local local-Counts (
    publishes alice (text "token.txt") (text "text/plain") payload (some key) 0 0
    ∷ downloads key token 1 1
    ∷ drops
    ∷ prunes 5
    ∷ [])

publish_then_download_example :
    let file = published_file local key (text "token.txt") (text "text/plain") payload in
    let made =
      publish local alice (text "token.txt") (text "text/plain") payload (some key) 0 0 default in
    let authorized = authorize_download local alice file.uri base (some token) 1 1 made.1 in
    (made.0 ≡ ok file)
    × (authorized.0 ≡ ok (file, descriptor_for local token (base ++ (http_prefix ++ key))))
    × ((download local key token 2 2 authorized.1).0
        ≡ ok (record { bytes = payload; permits = 32 }))
unfolding prune
publish_then_download_example =
    publish_then_download local local-Counts local-ComparesBytes alice (text "token.txt")
      (text "text/plain") base (base ++ (http_prefix ++ key)) payload key token 0 0 1 1 2 2 default
      (omega arith) (omega arith) fresh (omega arith) key-is_file_id refl (omega arith)
      (omega arith) (omega arith)

abbrev body : DownloadBody
body = record { stored = record { bytes = payload; permits = 32 }; offset = 30 }

drain_complete_example :
    ((drain 3 body).0 ≡ text "ef")
    × (is_end_stream (drain 3 body).1 ≡ true)
    × (size_hint (drain 3 body).1 ≡ 0)
unfolding size_hint
drain_complete_example = drain_complete 3 body (omega arith) (omega arith)
