-- ===== src/Server/Files/RoundTrip.antt =====
-- crates/komodo-server/src/files.rs: what is uploaded is what is taken, and what is published is what
-- is downloaded.
use mcp_komodo_rs.Prelude.{
  ℕ, ◌+◌, ◌-◌, ◌^◌, ◌≤◌, ◌<◌, ◌≡◌, refl, ap, ◌∙◌, Bool, true, false, ltb, leb, Option, some, none,
  [], ◌∷◌, ◌++◌, length, ok, arith, Bool-cases, inl, inr,
}
use mcp_komodo_rs.Prelude.Text.{Text}
use mcp_komodo_rs.Prelude.Dict.{Dict, get, put}
use mcp_komodo_rs.Server.Files.Types.{
  Bytes, max_upload_bytes, max_entries, StoredBytes, Entry, Grant, Direction, TransferFiles,
  UploadParams, Descriptor, Platform, Counts,
}
use mcp_komodo_rs.Server.Files.Grants.{
  Outcome, file_id, random_id, descriptor, valid_grant, release_bytes, release_dropped, prune,
  refuse_if,
}
use mcp_komodo_rs.Server.Files.Authorize.{
  insert_new, upload_entry, upload_file, prepare_upload, authorize_upload,
}
use mcp_komodo_rs.Server.Files.Transfer.{
  store_bytes, with_stored, uploaded_entry, fill_entry, upload, consume, take,
}
use mcp_komodo_rs.Prelude.Dict.Laws.{get-cons_self, get-put_self, get-retain_complete}
use mcp_komodo_rs.Server.Files.Types.{ComparesBytes, uri_prefix, file_ttl, grant_ttl}
use mcp_komodo_rs.Server.Files.Capacity.{release_bytes_lem}
use mcp_komodo_rs.Prelude.Text.{as_bytes, str_eq_complete, strip_prefix-append}
use mcp_komodo_rs.Server.Files.Transfer.{mismatches}
use mcp_komodo_rs.Server.Files.Grants.{with_entry_acts, is_file_id}

-- An identifier of the right form is found again in the URI that names it.
pub file_id-append : (id : Text) → is_file_id id ≡ true → file_id (uri_prefix ++ id) ≡ ok id
unfolding file_id
file_id-append id valid = rw (strip_prefix-append uri_prefix id, valid)

module _ (p : Platform) where
  pub get-prune :
      (now : ℕ) (id : Text) (entry : Entry) (s : TransferFiles)
      → get id s.entries ≡ some entry
      → now < entry.expires
      → get id (prune p now s).entries ≡ some entry
  unfolding prune
  get-prune now id entry s found live =
      get-retain_complete (λ e. ltb now e.expires) id s.entries entry found (ground arith)

  module _ (laws : Counts p) where
    release_dropped_le :
        (keep : Entry → Bool) (m : Dict Entry) (c : ℕ) → c ≤ release_dropped p keep m c
    unfolding release_dropped
    release_dropped_le keep [] c = omega arith
    release_dropped_le keep ((id, e) ∷ m) c = elim (Bool-cases (keep e)) [
      | inl kept ↦ rw kept (release_dropped_le keep m c)
      | inr gone ↦ rw gone (
          omega (
            arith,
            release_dropped_le keep m (release_bytes p e.bytes c),
            release_bytes_lem p laws e.bytes c,
          ))
    ]

    pub prune_capacity : (now : ℕ) (s : TransferFiles) → s.capacity ≤ (prune p now s).capacity
    unfolding prune
    prune_capacity now s = release_dropped_le (λ e. ltb now e.expires) s.entries s.capacity

    pub with_stored_acts :
        {A : Type 0} (bytes : Bytes) (act : StoredBytes → TransferFiles → Outcome A)
        (s : TransferFiles)
        → length bytes < 2 ^ 32
        → length bytes ≤ s.capacity
        → with_stored p bytes act s
          ≡ act
              (record { bytes = bytes; permits = length bytes })
              (record s { capacity = s.capacity - length bytes })
    unfolding with_stored store_bytes
    with_stored_acts bytes act s small room =
        let fits : leb (2 ^ 32) (length bytes) ≡ false = ground arith in
        rw (fits, with_stored, store_bytes, laws.acquires s.capacity (length bytes) room)

    -- An upload through a live grant, of bytes that match what was declared, fills the entry.
    upload_fills :
        (id token : Text) (bytes : Bytes) (pruned checked : ℕ) (entry : Entry) (s : TransferFiles)
        → get id s.entries ≡ some entry
        → pruned < entry.expires
        → entry.bytes ≡ none
        → valid_grant p entry token Direction.upload checked ≡ true
        → length bytes ≤ max_upload_bytes
        → mismatches p entry bytes ≡ false
        → length bytes ≤ s.capacity
        → upload p id token bytes pruned checked s ≡ (
          ok tt,
          record {
            entries =
                put id
                  (uploaded_entry p entry (record { bytes = bytes; permits = length bytes }))
                  (prune p pruned s).entries;
            capacity = (prune p pruned s).capacity - length bytes;
          },
        )
    unfolding upload fill_entry refuse_if
    upload_fills id token bytes pruned checked entry s found live empty granted small matches room =
        let small' : ltb max_upload_bytes (length bytes) ≡ false = ground arith in
        with_entry_acts id _ _ entry (prune p pruned s) (get-prune pruned id entry s found live)
          (ground arith)
        ∙ rw (small', matches)
            (with_stored_acts bytes _ (prune p pruned s) (omega arith)
              (omega (arith, prune_capacity pruned s)))

    -- A file of the owner that was uploaded in full and is live is taken, and only once.
    take_consumes :
        (owner id : Text) (pruned : ℕ) (entry : Entry) (stored : StoredBytes) (s : TransferFiles)
        → is_file_id id ≡ true
        → get id s.entries ≡ some entry
        → pruned < entry.expires
        → entry.owner ≡ owner
        → entry.uploaded ≡ true
        → entry.bytes ≡ some stored
        → (take p owner (uri_prefix ++ id) pruned s).0 ≡ ok stored.bytes
    unfolding take consume
    take_consumes owner id pruned entry stored s valid found live owned up full =
        rw (file_id-append id valid, take)
          (ap (λ (r : Outcome Bytes). r.0)
              (with_entry_acts id _ _ entry (prune p pruned s)
                (get-prune pruned id entry s found live)
                (ground (arith, str_eq_complete entry.owner owner owned)))
            ∙ rw (full, consume))

  prepare_upload_lem :
      (params : UploadParams) (base : Text) (id_bytes token_bytes : Bytes) (issued : ℕ)
      (digest : Option Bytes) (id : Text) (grant : Grant) (d : Descriptor)
      → prepare_upload p params base (some id_bytes) (some token_bytes) issued
        ≡ ok (digest, id, grant, d)
      → (id ≡ p.encode id_bytes)
        × (grant.direction ≡ Direction.upload)
        × (grant.expires ≡ issued + grant_ttl)
        × (grant.hash ≡ p.sha256 (as_bytes (p.encode token_bytes)))
  unfolding prepare_upload descriptor random_id
  prepare_upload_lem params base id_bytes token_bytes issued digest id grant d e = ground arith

  -- An authorization with a prepared grant, room and a fresh identifier succeeds, and lists its entry.
  authorize_upload_lists :
      (owner : Text) (params : UploadParams) (base : Text) (id_entropy token_entropy : Option Bytes)
      (issued pruned inserted : ℕ) (digest : Option Bytes) (id : Text) (grant : Grant)
      (d : Descriptor) (s : TransferFiles)
      → prepare_upload p params base id_entropy token_entropy issued ≡ ok (digest, id, grant, d)
      → length (prune p pruned s).entries < max_entries
      → get id (prune p pruned s).entries ≡ none
      → authorize_upload p owner params base id_entropy token_entropy issued pruned inserted s ≡ (
        ok (upload_file p id params, d),
        record {
          entries =
              (id, upload_entry p owner params (upload_file p id params) digest grant inserted)
              ∷ (prune p pruned s).entries;
          capacity = (prune p pruned s).capacity;
        },
      )
  unfolding authorize_upload insert_new refuse_if
  authorize_upload_lists owner params base id_entropy token_entropy issued pruned inserted digest id
        grant d s ready room fresh =
      let fits : leb max_entries (length (prune p pruned s).entries) ≡ false = ground arith in
      rw (ready, authorize_upload, fits, fresh)

  upload_entry-grants :
      ComparesBytes p
      → (owner : Text) (params : UploadParams) (base : Text) (id_bytes token_bytes : Bytes)
        (issued inserted checked : ℕ) (digest : Option Bytes) (id : Text) (grant : Grant)
        (d : Descriptor)
      → prepare_upload p params base (some id_bytes) (some token_bytes) issued
        ≡ ok (digest, id, grant, d)
      → checked < issued + grant_ttl
      → valid_grant p
          (upload_entry p owner params (upload_file p id params) digest grant inserted)
          (p.encode token_bytes)
          Direction.upload
          checked
        ≡ true
  unfolding valid_grant upload_entry
  upload_entry-grants compares owner params base id_bytes token_bytes issued inserted checked digest
        id grant d ready live =
      ground (
        arith,
        prepare_upload_lem params base id_bytes token_bytes issued digest id grant d ready,
        compares.ct_eq_iff (p.sha256 (as_bytes (p.encode token_bytes))) grant.hash,
      )

  upload_taken :
      Counts p
      → (owner id token : Text) (bytes : Bytes) (uploaded checked taken : ℕ) (entry : Entry)
        (s : TransferFiles)
      → is_file_id id ≡ true
      → get id s.entries ≡ some entry
      → uploaded < entry.expires
      → taken < entry.expires
      → entry.bytes ≡ none
      → entry.owner ≡ owner
      → entry.uploaded ≡ true
      → valid_grant p entry token Direction.upload checked ≡ true
      → length bytes ≤ max_upload_bytes
      → mismatches p entry bytes ≡ false
      → length bytes ≤ s.capacity
      → let filled = upload p id token bytes uploaded checked s in
        (filled.0 ≡ ok tt) × ((take p owner (uri_prefix ++ id) taken filled.1).0 ≡ ok bytes)
  unfolding uploaded_entry
  upload_taken counts owner id token bytes uploaded checked taken entry s valid found unexpired live
        empty owned up may small matches space =
      let stored : StoredBytes = record { bytes = bytes; permits = length bytes } in
      let left = prune p uploaded s in
      rw
        (upload_fills counts id token bytes uploaded checked entry s found unexpired empty may small
          matches space)
        (
          refl,
          take_consumes counts owner id taken (uploaded_entry p entry stored) stored
              (record {
                entries = put id (uploaded_entry p entry stored) left.entries;
                capacity = left.capacity - length bytes;
              })
              valid
              (get-put_self id (uploaded_entry p entry stored) left.entries
                (get-prune uploaded id entry s found unexpired))
              live owned up refl,
        )

  -- A client that is authorized, uploads what it declared within the lifetimes of the grant and of the
  -- file, and takes the file, gets the bytes that it uploaded: given room for one more entry and for
  -- the bytes, a fresh identifier of the right form, and bytes within the bound that match the
  -- declared size and digest, all three calls succeed.
  pub upload_then_take :
      Counts p
      → ComparesBytes p
      → (owner : Text) (params : UploadParams) (base : Text) (id_bytes token_bytes : Bytes)
        (issued pruned inserted uploaded checked taken : ℕ) (digest : Option Bytes) (id : Text)
        (grant : Grant) (d : Descriptor) (bytes : Bytes) (s : TransferFiles)
      → prepare_upload p params base (some id_bytes) (some token_bytes) issued
        ≡ ok (digest, id, grant, d)
      → is_file_id id ≡ true
      → length (prune p pruned s).entries < max_entries
      → get id (prune p pruned s).entries ≡ none
      → uploaded < inserted + file_ttl
      → checked < issued + grant_ttl
      → taken < inserted + file_ttl
      → length bytes ≤ max_upload_bytes
      → length bytes ≤ (prune p pruned s).capacity
      → mismatches p
          (upload_entry p owner params (upload_file p id params) digest grant inserted)
          bytes
        ≡ false
      → let authorized =
          authorize_upload p owner params base
            (some id_bytes)
            (some token_bytes)
            issued
            pruned
            inserted
            s in
        let filled = upload p id (p.encode token_bytes) bytes uploaded checked authorized.1 in
        (authorized.0 ≡ ok (upload_file p id params, d))
        × (filled.0 ≡ ok tt)
        × ((take p owner (upload_file p id params).uri taken filled.1).0 ≡ ok bytes)
  unfolding upload_entry
  upload_then_take counts compares owner params base id_bytes token_bytes issued pruned inserted
        uploaded checked taken digest id grant d bytes s ready valid room fresh unexpired granted
        live small space matches =
      let entry = upload_entry p owner params (upload_file p id params) digest grant inserted in
      let pruned_s = prune p pruned s in
      let listed =
        authorize_upload_lists owner params base (some id_bytes) (some token_bytes) issued pruned
          inserted digest id grant d s ready room fresh in
      let s1 : TransferFiles = record pruned_s { entries = (id, entry) ∷ pruned_s.entries } in
      let found = get-cons_self id entry pruned_s.entries in
      let may =
        upload_entry-grants compares owner params base id_bytes token_bytes issued inserted checked
          digest id grant d ready granted in
      let (filled, got) =
        upload_taken counts owner id (p.encode token_bytes) bytes uploaded checked taken entry s1
          valid found unexpired live refl refl refl may small matches space in
      rw listed (refl, filled, got)
