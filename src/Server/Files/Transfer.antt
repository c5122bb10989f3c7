-- ===== src/Server/Files/Transfer.antt =====
-- crates/komodo-server/src/files.rs: the transfers of `TransferFiles`, with `CredentialFiles` for it.
-- A method takes the lock for its whole body, so it is one step on the state, which comes back beside
-- an error too.
use mcp_komodo_rs.Prelude.{
  ℕ, ◌+◌, ◌^◌, Bool, false, not, ◌&&◌, ◌||◌, ◌==◌, ltb, leb, if◌then◌else◌, Option, some, none,
  is_some, is_some_and, [], ◌∷◌, ◌++◌, length, Result, ok, err, ◌>>=◌, ◌>>◌, refuse, ok_or,
}
use mcp_komodo_rs.Prelude.Text.{Text, str_eq}
use mcp_komodo_rs.Prelude.Dict.{contains_key, remove, put}
use mcp_komodo_rs.Server.Files.Types.{
  Bytes, uri_prefix, max_upload_bytes, max_download_bytes, max_entries, file_ttl, Error,
  unavailable, capacity_unavailable, identifier_collision, upload_exceeds, integrity_mismatch,
  download_exceeds, panicked, Direction, FileValue, StoredBytes, Entry, TransferFiles, Platform,
}
use mcp_komodo_rs.Server.Files.Grants.{
  Outcome, file_id, random_id, valid_grant, release_dropped, prune, with_entry, refuse_if,
}

module _ (p : Platform) where
  unfoldable pub store_bytes : Bytes → TransferFiles → Result Error (StoredBytes × TransferFiles)
  store_bytes bytes s = do
    refuse (leb (2 ^ 32) (length bytes)) panicked
    left ← ok_or (p.try_acquire_many s.capacity (length bytes)) capacity_unavailable
    ok (record { bytes = bytes; permits = length bytes }, record s { capacity = left })

  -- `self.store_bytes(bytes)?`, and what follows with the bytes that are stored.
  unfoldable pub with_stored :
      {A : Type 0} → Bytes → (StoredBytes → TransferFiles → Outcome A) → TransferFiles → Outcome A
  unfolding store_bytes
  with_stored bytes act s = elim (store_bytes bytes s) [
    | err e ↦ (err e, s)
    | ok (stored, s') ↦ act stored s'
  ]

  unfoldable pub drop_bytes : StoredBytes → TransferFiles → TransferFiles
  drop_bytes stored s = record s { capacity = p.release s.capacity stored.permits }

  -- The integrity test of `upload`.
  unfoldable pub mismatches : Entry → Bytes → Bool
  mismatches entry bytes =
      is_some_and entry.expected_size (λ size. not (size == length bytes))
      || is_some_and entry.expected_digest (λ expected. not (p.ct_eq (p.sha256 bytes) expected))

  unfoldable pub uploaded_entry : Entry → StoredBytes → Entry
  uploaded_entry entry stored = record entry {
    file = record entry.file { size = some (length stored.bytes) };
    bytes = some stored;
    grant = none;
  }

  -- `upload` with the entry that its filter let through.
  unfoldable pub fill_entry : Text → Entry → Bytes → TransferFiles → Outcome (Unit {0})
  fill_entry id entry bytes = refuse_if (ltb max_upload_bytes (length bytes)) upload_exceeds λ s.
      refuse_if (mismatches entry bytes) integrity_mismatch
        (λ s.
          with_stored bytes
            (λ stored s'.
              (ok tt, record s' { entries = put id (uploaded_entry entry stored) s'.entries }))
            s)
        s

  unfoldable pub upload : Text → Text → Bytes → ℕ → ℕ → TransferFiles → Outcome (Unit {0})
  upload id token bytes pruned checked s =
      with_entry id
        (λ entry. not (is_some entry.bytes) && valid_grant p entry token Direction.upload checked)
        (λ entry s'. fill_entry id entry bytes s') (prune p pruned s)

  -- `entries.remove(id).and_then(|entry| entry.bytes).ok_or_else(unavailable)`. The permits go with
  -- the bytes.
  unfoldable pub take_out : Text → Entry → TransferFiles → Outcome StoredBytes
  take_out id entry s = (ok_or entry.bytes unavailable, record s { entries = remove id s.entries })

  unfoldable pub download : Text → Text → ℕ → ℕ → TransferFiles → Outcome StoredBytes
  download id token pruned checked s =
      with_entry id
        (λ entry. is_some entry.bytes && valid_grant p entry token Direction.download checked)
        (λ entry s'. take_out id entry s') (prune p pruned s)

  abbrev pub published_file : Text → Text → Text → Bytes → FileValue
  published_file id name mime_type bytes = record {
    uri = uri_prefix ++ id;
    name = some name;
    mime_type = some mime_type;
    size = some (length bytes);
    digest = none;
  }

  unfoldable pub published_entry : Text → FileValue → StoredBytes → ℕ → Entry
  published_entry owner file stored now = record {
    owner = owner;
    file = file;
    bytes = some stored;
    expected_digest = none;
    expected_size = none;
    expires = now + file_ttl;
    grant = none;
    uploaded = false;
  }

  -- The collision check and the insertion of `publish`. A collision drops the bytes that were stored,
  -- and their permits.
  unfoldable pub insert_stored :
      Text → Text → FileValue → ℕ → StoredBytes → TransferFiles → Outcome FileValue
  insert_stored owner id file now stored s =
      if contains_key id s.entries
      then (err identifier_collision, drop_bytes stored s)
      else (ok file, record s { entries = (id, published_entry owner file stored now) ∷ s.entries })

  -- `publish` under the lock.
  unfoldable pub insert_published :
      Text → Text → FileValue → Bytes → ℕ → TransferFiles → Outcome FileValue
  insert_published owner id file bytes now s =
      refuse_if (leb max_entries (length s.entries)) capacity_unavailable
        (λ s. with_stored bytes (insert_stored owner id file now) s) s

  unfoldable pub publish :
      Text → Text → Text → Bytes → Option Bytes → ℕ → ℕ → TransferFiles → Outcome FileValue
  publish owner name mime_type bytes entropy pruned inserted s =
      refuse_if (ltb max_download_bytes (length bytes)) download_exceeds
        (λ s. elim (random_id p entropy) [
          | err e ↦ (err e, s)
          | ok id ↦
              insert_published owner id (published_file id name mime_type bytes) bytes inserted
                (prune p pruned s)
        ])
        s

  -- The bytes leave their permits behind.
  unfoldable pub consume : Text → Entry → TransferFiles → Outcome Bytes
  consume id entry s = elim entry.bytes [
    | none ↦ (err unavailable, record s { entries = remove id s.entries })
    | some stored ↦ (
      ok stored.bytes,
      record { entries = remove id s.entries; capacity = p.release s.capacity stored.permits },
    )
  ]

  unfoldable pub take : Text → Text → ℕ → TransferFiles → Outcome Bytes
  take owner uri pruned s = elim (file_id uri) [
    | err e ↦ (err e, s)
    | ok id ↦
        with_entry id (λ entry. str_eq entry.owner owner && (entry.uploaded && is_some entry.bytes))
          (λ entry s'. consume id entry s') (prune p pruned s)
  ]

  -- The branch of `expire_until_shutdown` on cancellation: `clear()`.
  unfoldable pub clear : TransferFiles → TransferFiles
  clear s = record { entries = []; capacity = release_dropped p (λ _. false) s.entries s.capacity }
