-- ===== src/Server/Files/Authorize.antt =====
-- crates/komodo-server/src/files.rs: the authorizations of `TransferFiles`. A method takes the lock
-- for its whole body, so it is one step on the state, which comes back beside an error too.
use mcp_komodo_rs.Prelude.{
  ℕ, ◌+◌, Bool, true, not, ◌&&◌, ◌==◌, leb, Option, some, none, is_some, is_some_and, ◌∷◌, ◌++◌,
  length, Result, ok, err, ◌>>=◌, ◌>>◌, refuse, ok_or,
}
use mcp_komodo_rs.Prelude.Text.{Text, text, str_eq}
use mcp_komodo_rs.Prelude.Dict.{get, contains_key, put}
use mcp_komodo_rs.Server.Files.Types.{
  Bytes, uri_prefix, max_entries, file_ttl, Error, capacity_unavailable, metadata_exceeds,
  unsupported_digest, invalid_digest, identifier_collision, Direction, Grant, FileDigest, FileValue,
  Entry, TransferFiles, UploadParams, Descriptor, Platform,
}
use mcp_komodo_rs.Server.Files.Grants.{
  Outcome, file_id, exceeds_bounds, random_id, descriptor, valid_grant, prune, with_entry,
  refuse_if,
}

module _ (p : Platform) where
  -- `None` where no digest is declared.
  unfoldable pub expected_digest : Option FileDigest → Result Error (Option Bytes)
  expected_digest none = ok none
  expected_digest (some digest) = do
    refuse (not (str_eq digest.algorithm (text "sha-256"))) unsupported_digest
    value ← ok_or (p.decode digest.value) invalid_digest
    refuse (not (length value == 32)) invalid_digest
    ok (some value)

  -- `admit`, the collision check and the insertion of `authorize_upload`.
  unfoldable pub insert_new : Text → Entry → TransferFiles → Outcome (Unit {0})
  insert_new id entry s =
      refuse_if (leb max_entries (length s.entries)) capacity_unavailable
        (λ s.
          refuse_if (contains_key id s.entries) identifier_collision
            (λ s. (ok tt, record s { entries = (id, entry) ∷ s.entries })) s)
        s

  unfoldable pub upload_entry : Text → UploadParams → FileValue → Option Bytes → Grant → ℕ → Entry
  upload_entry owner params file digest grant now = record {
    owner = owner;
    file = file;
    bytes = none;
    expected_digest = digest;
    expected_size = params.size;
    expires = now + file_ttl;
    grant = some grant;
    uploaded = true;
  }

  abbrev pub upload_file : Text → UploadParams → FileValue
  upload_file id params = record {
    uri = uri_prefix ++ id;
    name = params.name;
    mime_type = params.mime_type;
    size = params.size;
    digest = none;
  }

  -- What `authorize_upload` does before it takes the lock.
  unfoldable pub prepare_upload :
      UploadParams
      → Text
      → Option Bytes
      → Option Bytes
      → ℕ
      → Result Error (Option Bytes × Text × Grant × Descriptor)
  prepare_upload params base id_entropy token_entropy issued = do
    refuse (exceeds_bounds params) metadata_exceeds
    digest ← expected_digest params.digest
    id ← random_id p id_entropy
    granted ← descriptor p base id Direction.upload token_entropy issued
    ok (digest, id, granted.0, granted.1)

  unfoldable pub authorize_upload :
      Text
      → UploadParams
      → Text
      → Option Bytes
      → Option Bytes
      → ℕ
      → ℕ
      → ℕ
      → TransferFiles
      → Outcome (FileValue × Descriptor)
  authorize_upload owner params base id_entropy token_entropy issued pruned inserted s =
      elim (prepare_upload params base id_entropy token_entropy issued) [
        | err e ↦ (err e, s)
        | ok (digest, id, grant, upload) ↦
            let file = upload_file id params in
            let (result, s') =
              insert_new id (upload_entry owner params file digest grant inserted)
                (prune p pruned s) in
            (result >> ok (file, upload), s')
      ]

  -- The write of the grant through `get_mut(id).filter(…)`.
  unfoldable pub grant_download :
      Text → Text → Grant → Descriptor → TransferFiles → Outcome (FileValue × Descriptor)
  grant_download owner id grant download =
      with_entry id (λ entry. str_eq entry.owner owner && is_some entry.bytes)
        λ entry s. (
          ok (entry.file, download),
          record s { entries = put id (record entry { grant = some grant }) s.entries },
        )

  -- What `authorize_download` does before it takes the lock.
  unfoldable pub prepare_download :
      Text → Text → Option Bytes → ℕ → Result Error (Text × Grant × Descriptor)
  prepare_download uri base token_entropy issued = do
    id ← file_id uri
    granted ← descriptor p base id Direction.download token_entropy issued
    ok (id, granted.0, granted.1)

  unfoldable pub authorize_download :
      Text → Text → Text → Option Bytes → ℕ → ℕ → TransferFiles → Outcome (FileValue × Descriptor)
  authorize_download owner uri base token_entropy issued pruned s =
      elim (prepare_download uri base token_entropy issued) [
        | err e ↦ (err e, s)
        | ok (id, grant, download) ↦ grant_download owner id grant download (prune p pruned s)
      ]

  unfoldable pub admits_grant :
      Text → Text → Direction → ℕ → ℕ → TransferFiles → Bool × TransferFiles
  admits_grant id token direction pruned checked s =
      let s' = prune p pruned s in
      (
        is_some_and (get id s'.entries) λ entry.
            valid_grant p entry token direction checked && elim direction [
              | Direction.upload ↦ not (is_some entry.bytes)
              | Direction.download ↦ is_some entry.bytes
            ],
        s',
      )
