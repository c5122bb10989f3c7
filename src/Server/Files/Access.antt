-- ===== src/Server/Files/Access.antt =====
-- crates/komodo-server/src/files.rs: who gets the bytes of a file, and how often.
use mcp_komodo_rs.Prelude.{
  ℕ, ◌<◌, ◌≡◌, sym, ap, subst, true, ◌&&◌, ltb, some, none, is_some, ok, arith, Option-cases,
  Result-cases, inl, inr, ltb→lt,
}
use mcp_komodo_rs.Prelude.Text.{Text, str_eq}
use mcp_komodo_rs.Prelude.Dict.{get, remove, HasDistinctKeys}
use mcp_komodo_rs.Prelude.Dict.Laws.{retain-HasDistinctKeys}
use mcp_komodo_rs.Server.Files.Types.{
  Bytes, StoredBytes, Entry, Grant, Direction, TransferFiles, Platform,
}
use mcp_komodo_rs.Server.Files.Grants.{Outcome, file_id, valid_grant, prune, with_entry_cases}
use mcp_komodo_rs.Server.Files.Transfer.{take_out, download, consume, take}
use mcp_komodo_rs.Prelude.Dict.Laws.{get-remove_self, get-retain_sound}
use mcp_komodo_rs.Server.Files.Types.{ComparesBytes}
use mcp_komodo_rs.Prelude.Text.{as_bytes, str_eq_iff}

module _ (p : Platform) where
  -- The entry holds a grant for the token, the direction and the time.
  pub record Grants (entry : Entry) (token : Text) (direction : Direction) (now : ℕ) : Type 0 where
    pub grant : Grant
    pub held : entry.grant ≡ some grant
    pub directed : grant.direction ≡ direction
    pub live : now < grant.expires
    pub hashed : p.sha256 (as_bytes token) ≡ grant.hash

  pub valid_grant_sound :
      (laws : ComparesBytes p) (entry : Entry) (token : Text) (direction : Direction) (now : ℕ)
      → valid_grant p entry token direction now ≡ true
      → Grants entry token direction now
  unfolding valid_grant
  valid_grant_sound laws entry token direction now h = elim (Option-cases entry.grant) [
    | inl missing ↦ absurd (ground arith)
    | inr (grant, held) ↦ record {
      grant = grant;
      held = held;
      directed = ground arith;
      live = ground arith;
      hashed = ground (arith, laws.ct_eq_iff (p.sha256 (as_bytes token)) grant.hash);
    }
  ]

  -- What a successful download shows of the registry that it was made on.
  pub record MayDownload (s : TransferFiles) (id token : Text) (pruned checked : ℕ)
      (stored : StoredBytes) : Type 0 where
    pub entry : Entry
    pub listed : get id s.entries ≡ some entry
    pub unexpired : pruned < entry.expires
    pub bytes : entry.bytes ≡ some stored
    pub granted : Grants entry token Direction.download checked

  -- What a successful take shows of the registry that it was made on, and of the one that it leaves.
  pub record MayTake (s s' : TransferFiles) (owner uri : Text) (pruned : ℕ) (bytes : Bytes)
      : Type 0 where
    pub id : Text
    pub entry : Entry
    pub named : file_id uri ≡ ok id
    pub listed : get id s.entries ≡ some entry
    pub unexpired : pruned < entry.expires
    pub owned : entry.owner ≡ owner
    pub uploaded : entry.uploaded ≡ true
    pub permits : ℕ
    pub bytes_of : entry.bytes ≡ some (record { bytes = bytes; permits = permits })
    pub removed : get id s'.entries ≡ none

  consume_lem :
      (id : Text) (entry : Entry) (s : TransferFiles) (bytes : Bytes) (s' : TransferFiles)
      → consume p id entry s ≡ (ok bytes, s')
      → (permits : ℕ) × (entry.bytes ≡ some (record { bytes = bytes; permits = permits }))
        × (s'.entries ≡ remove id s.entries)
  unfolding consume
  consume_lem id entry s bytes s' e = elim (Option-cases entry.bytes) [
    | inl empty ↦ absurd (cc (ap (λ (r : Outcome Bytes). r.0) (rw (empty, consume) at e)))
    | inr (stored, full) ↦
        let e' = rw (full, consume) at e in
        let same : stored.bytes ≡ bytes = cc (ap (λ (r : Outcome Bytes). r.0) e') in
        (
          stored.permits,
          rw full (ap (λ (b : Bytes). some (record { bytes = b; permits = stored.permits })) same),
          sym (ap (λ (r : Outcome Bytes). r.1.entries) e'),
        )
  ]

  module _ (s : TransferFiles) (distinct : HasDistinctKeys s.entries) (pruned : ℕ) where
    pruned-distinct : HasDistinctKeys (prune p pruned s).entries
    unfolding prune
    pruned-distinct = retain-HasDistinctKeys (λ e. ltb pruned e.expires) s.entries distinct

    -- An entry that is left after pruning was there and has not expired.
    pub get-prune_sound :
        (id : Text) (entry : Entry)
        → get id (prune p pruned s).entries ≡ some entry
        → (get id s.entries ≡ some entry) × (pruned < entry.expires)
    unfolding prune
    get-prune_sound id entry e =
        let (listed, live) =
          get-retain_sound (λ e. ltb pruned e.expires) id s.entries entry distinct e in
        (listed, ltb→lt _ _ live)

    -- A download succeeds only on an entry that is listed under the identifier, has not expired, holds
    -- exactly the bytes that are returned, and carries a download grant that has not expired, for a
    -- token with the hash of the one supplied. The entry is then gone.
    pub download_authorized :
        ComparesBytes p
        → (id token : Text) (checked : ℕ) (stored : StoredBytes) (s' : TransferFiles)
        → download p id token pruned checked s ≡ (ok stored, s')
        → MayDownload s id token pruned checked stored × (get id s'.entries ≡ none)
    unfolding download take_out
    download_authorized laws id token checked stored s' =
        with_entry_cases
          (λ r.
            r ≡ (ok stored, s')
            → MayDownload s id token pruned checked stored × (get id s'.entries ≡ none))
          id _ _ (prune p pruned s) (λ e. absurd (cc (ap (λ (r : Outcome StoredBytes). r.0) e)))
          λ entry found passed e.
            let (listed, live) = get-prune_sound id entry found in
            (
              record {
                entry = entry;
                listed = listed;
                unexpired = live;
                bytes = ground (arith, ap (λ (r : Outcome StoredBytes). r.0) e);
                granted =
                    valid_grant_sound laws entry token Direction.download checked (ground arith);
              },
              subst (λ m. get id m ≡ none) (ap (λ (r : Outcome StoredBytes). r.1.entries) e)
                  (get-remove_self id (prune p pruned s).entries pruned-distinct),
            )

    taken :
        (owner uri id : Text) (entry : Entry) (bytes : Bytes) (s' : TransferFiles)
        → file_id uri ≡ ok id
        → get id (prune p pruned s).entries ≡ some entry
        → (str_eq entry.owner owner && (entry.uploaded && is_some entry.bytes)) ≡ true
        → consume p id entry (prune p pruned s) ≡ (ok bytes, s')
        → MayTake s s' owner uri pruned bytes
    taken owner uri id entry bytes s' valid found passed e =
        let (listed, live) = get-prune_sound id entry found in
        let (permits, held, rest) = consume_lem id entry (prune p pruned s) bytes s' e in
        record {
          id = id;
          entry = entry;
          named = valid;
          listed = listed;
          unexpired = live;
          owned = ground (arith, str_eq_iff entry.owner owner);
          uploaded = ground arith;
          permits = permits;
          bytes_of = held;
          removed = rw rest (get-remove_self id (prune p pruned s).entries pruned-distinct);
        }

    -- A take succeeds only on a file that the same owner uploaded under the identifier, whose upload
    -- is complete and which has not expired; the bytes are those of the upload, and the entry is gone.
    pub take_authorized :
        (owner uri : Text) (bytes : Bytes) (s' : TransferFiles)
        → take p owner uri pruned s ≡ (ok bytes, s')
        → MayTake s s' owner uri pruned bytes
    unfolding take
    take_authorized owner uri bytes s' e = elim (Result-cases (file_id uri)) [
      | inr (error, failed) ↦ absurd (cc (ap (λ (r : Outcome Bytes). r.0) (rw (failed, take) at e)))
      | inl (id, valid) ↦
          with_entry_cases (λ r. r ≡ (ok bytes, s') → MayTake s s' owner uri pruned bytes) id _ _
            (prune p pruned s) (λ e. absurd (cc (ap (λ (r : Outcome Bytes). r.0) e)))
            (λ entry found passed. taken owner uri id entry bytes s' valid found passed)
            (rw (valid, take) at e)
    ]
