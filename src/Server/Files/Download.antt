-- ===== src/Server/Files/Download.antt =====
-- crates/komodo-server/src/files.rs: what is published is what its owner downloads.
use mcp_komodo_rs.Prelude.{
  ℕ, ◌+◌, ◌-◌, ◌≤◌, ◌<◌, ◌≡◌, refl, ap, ◌∙◌, true, false, ltb, leb, some, none, is_some, ◌∷◌, ◌++◌,
  length, ok, arith,
}
use mcp_komodo_rs.Prelude.Text.{Text}
use mcp_komodo_rs.Prelude.Dict.{get, put}
use mcp_komodo_rs.Server.Files.Types.{
  Bytes, max_download_bytes, max_entries, StoredBytes, Entry, Grant, Direction, TransferFiles,
  Descriptor, Platform, Counts,
}
use mcp_komodo_rs.Server.Files.Grants.{
  Outcome, random_id, descriptor, valid_grant, prune, refuse_if,
}
use mcp_komodo_rs.Server.Files.Authorize.{grant_download, prepare_download, authorize_download}
use mcp_komodo_rs.Server.Files.Transfer.{
  take_out, download, published_entry, insert_stored, insert_published, publish,
}
use mcp_komodo_rs.Prelude.Dict.Laws.{get-cons_self, get-put_self}
use mcp_komodo_rs.Server.Files.Types.{ComparesBytes, uri_prefix, http_prefix, file_ttl, grant_ttl}
use mcp_komodo_rs.Prelude.Text.{text, as_bytes, str_eq_complete}
use mcp_komodo_rs.Server.Files.Transfer.{published_file}
use mcp_komodo_rs.Server.Files.Grants.{with_entry_acts, is_file_id, refuse_if}
use mcp_komodo_rs.Server.Files.RoundTrip.{file_id-append, get-prune, with_stored_acts}

module _ (p : Platform) where
  -- A file within the bound, with room and a fresh identifier, is published.
  publish_lists :
      Counts p
      → (owner name mime_type : Text) (bytes id_bytes : Bytes) (pruned inserted : ℕ)
        (s : TransferFiles)
      → length bytes ≤ max_download_bytes
      → length (prune p pruned s).entries < max_entries
      → get (p.encode id_bytes) (prune p pruned s).entries ≡ none
      → length bytes ≤ (prune p pruned s).capacity
      → publish p owner name mime_type bytes (some id_bytes) pruned inserted s ≡ (
        ok (published_file p (p.encode id_bytes) name mime_type bytes),
        record {
          entries =
              (
                p.encode id_bytes,
                published_entry p owner
                    (published_file p (p.encode id_bytes) name mime_type bytes)
                    (record { bytes = bytes; permits = length bytes })
                    inserted,
              )
              ∷ (prune p pruned s).entries;
          capacity = (prune p pruned s).capacity - length bytes;
        },
      )
  unfolding publish random_id insert_published insert_stored refuse_if
  publish_lists counts owner name mime_type bytes id_bytes pruned inserted s small room fresh
        space =
      let small' : ltb max_download_bytes (length bytes) ≡ false = ground arith in
      let room' : leb max_entries (length (prune p pruned s).entries) ≡ false = ground arith in
      rw (small', room')
        (with_stored_acts p counts bytes _ (prune p pruned s) (omega arith) space ∙ rw fresh)

  abbrev granted_for : Text → ℕ → Grant
  granted_for token expires = record {
    hash = p.sha256 (as_bytes token);
    expires = expires;
    direction = Direction.download;
  }

  abbrev pub descriptor_for : Text → Text → Descriptor
  descriptor_for token url = record {
    method = text "GET";
    url = url;
    authorization = text "Bearer " ++ token;
  }

  prepare_download_lem :
      (id base : Text) (token_bytes : Bytes) (issued : ℕ) (url : Text)
      → is_file_id id ≡ true
      → p.join base (http_prefix ++ id) ≡ some url
      → prepare_download p (uri_prefix ++ id) base (some token_bytes) issued
        ≡ ok (
          id,
          granted_for (p.encode token_bytes) (issued + grant_ttl),
          descriptor_for (p.encode token_bytes) url,
        )
  unfolding prepare_download descriptor random_id
  prepare_download_lem id base token_bytes issued url valid joined =
      rw (file_id-append id valid, joined)

  -- The owner of a stored file is granted its download.
  authorize_download_grants :
      (owner id base : Text) (token_bytes : Bytes) (issued pruned : ℕ) (entry : Entry) (url : Text)
      (s : TransferFiles)
      → is_file_id id ≡ true
      → p.join base (http_prefix ++ id) ≡ some url
      → get id s.entries ≡ some entry
      → pruned < entry.expires
      → entry.owner ≡ owner
      → is_some entry.bytes ≡ true
      → authorize_download p owner (uri_prefix ++ id) base (some token_bytes) issued pruned s ≡ (
        ok (entry.file, descriptor_for (p.encode token_bytes) url),
        record {
          entries =
              put id
                (record entry {
                  grant = some (granted_for (p.encode token_bytes) (issued + grant_ttl));
                })
                (prune p pruned s).entries;
          capacity = (prune p pruned s).capacity;
        },
      )
  unfolding authorize_download grant_download
  authorize_download_grants owner id base token_bytes issued pruned entry url s valid joined found
        live owned full =
      rw (prepare_download_lem id base token_bytes issued url valid joined, authorize_download)
        (with_entry_acts id _ _ entry (prune p pruned s) (get-prune p pruned id entry s found live)
          (ground (arith, str_eq_complete entry.owner owner owned)))

  -- A live download grant gives the bytes.
  download_gives :
      (id token : Text) (pruned checked : ℕ) (entry : Entry) (stored : StoredBytes)
      (s : TransferFiles)
      → get id s.entries ≡ some entry
      → pruned < entry.expires
      → entry.bytes ≡ some stored
      → valid_grant p entry token Direction.download checked ≡ true
      → (download p id token pruned checked s).0 ≡ ok stored
  unfolding download take_out
  download_gives id token pruned checked entry stored s found live full granted =
      ap (λ (r : Outcome StoredBytes). r.0)
        (with_entry_acts id _ _ entry (prune p pruned s) (get-prune p pruned id entry s found live)
          (ground arith))
      ∙ rw full

  download_grant :
      ComparesBytes p
      → (entry : Entry) (token : Text) (expires checked : ℕ) → checked < expires
      → valid_grant p
          (record entry { grant = some (granted_for token expires) })
          token
          Direction.download
          checked
        ≡ true
  unfolding valid_grant
  download_grant compares entry token expires checked live =
      ground (arith, compares.ct_eq_iff (p.sha256 (as_bytes token)) (p.sha256 (as_bytes token)))

  -- A stored file that its owner is authorized to download, within the lifetimes of the file and of
  -- the grant, is downloaded with the bytes that are stored.
  authorize_then_download :
      ComparesBytes p
      → (owner id base : Text) (token_bytes : Bytes) (issued pruned swept checked : ℕ)
        (entry : Entry) (stored : StoredBytes) (url : Text) (s : TransferFiles)
      → is_file_id id ≡ true
      → p.join base (http_prefix ++ id) ≡ some url
      → get id s.entries ≡ some entry
      → pruned < entry.expires
      → swept < entry.expires
      → checked < issued + grant_ttl
      → entry.owner ≡ owner
      → entry.bytes ≡ some stored
      → let authorized =
          authorize_download p owner (uri_prefix ++ id) base (some token_bytes) issued pruned s in
        (authorized.0 ≡ ok (entry.file, descriptor_for (p.encode token_bytes) url))
        × ((download p id (p.encode token_bytes) swept checked authorized.1).0 ≡ ok stored)
  authorize_then_download compares owner id base token_bytes issued pruned swept checked entry
        stored url s valid joined found live unswept granted owned full =
      let entry' = record entry {
        grant = some (granted_for (p.encode token_bytes) (issued + grant_ttl));
      } in
      let pruned_s = prune p pruned s in
      rw
        (authorize_download_grants owner id base token_bytes issued pruned entry url s valid joined
          found live owned (ground arith))
        (
          refl,
          download_gives id (p.encode token_bytes) swept checked entry' stored
              (record pruned_s { entries = put id entry' pruned_s.entries })
              (get-put_self id entry' pruned_s.entries (get-prune p pruned id entry s found live))
              unswept full
              (download_grant compares entry (p.encode token_bytes) (issued + grant_ttl) checked
                granted),
        )

  -- A file within the bound that is published with room for it and under a fresh identifier of the
  -- right form, and that its owner is authorized to download and downloads within the lifetimes of the
  -- file and of the grant, arrives with the bytes that were published: all three calls succeed.
  pub publish_then_download :
      Counts p
      → ComparesBytes p
      → (owner name mime_type base url : Text) (bytes id_bytes token_bytes : Bytes)
        (published inserted issued pruned swept checked : ℕ) (s : TransferFiles)
      → length bytes ≤ max_download_bytes
      → length (prune p published s).entries < max_entries
      → get (p.encode id_bytes) (prune p published s).entries ≡ none
      → length bytes ≤ (prune p published s).capacity
      → is_file_id (p.encode id_bytes) ≡ true
      → p.join base (http_prefix ++ p.encode id_bytes) ≡ some url
      → pruned < inserted + file_ttl
      → swept < inserted + file_ttl
      → checked < issued + grant_ttl
      → let file = published_file p (p.encode id_bytes) name mime_type bytes in
        let made = publish p owner name mime_type bytes (some id_bytes) published inserted s in
        let authorized =
          authorize_download p owner file.uri base (some token_bytes) issued pruned made.1 in
        (made.0 ≡ ok file)
        × (authorized.0 ≡ ok (file, descriptor_for (p.encode token_bytes) url))
        × ((download p (p.encode id_bytes) (p.encode token_bytes) swept checked authorized.1).0
            ≡ ok (record { bytes = bytes; permits = length bytes }))
  unfolding published_entry
  publish_then_download counts compares owner name mime_type base url bytes id_bytes token_bytes
        published inserted issued pruned swept checked s small room fresh space valid joined live
        unswept granted =
      let stored : StoredBytes = record { bytes = bytes; permits = length bytes } in
      let file = published_file p (p.encode id_bytes) name mime_type bytes in
      let entry = published_entry p owner file stored inserted in
      let pruned_s = prune p published s in
      let s1 : TransferFiles = record {
        entries = (p.encode id_bytes, entry) ∷ pruned_s.entries;
        capacity = pruned_s.capacity - length bytes;
      } in
      let (authorized, got) =
        authorize_then_download compares owner (p.encode id_bytes) base token_bytes issued pruned
          swept checked entry stored url s1 valid joined
          (get-cons_self (p.encode id_bytes) entry pruned_s.entries) live unswept granted refl
          refl in
      rw
        (publish_lists counts owner name mime_type bytes id_bytes published inserted s small room
          fresh space)
        (refl, authorized, got)
