-- ===== src/Server/Files/Bounded.antt =====
-- crates/komodo-server/src/files.rs: the bounds of the registry under every method, and after any
-- sequence of them.
use mcp_komodo_rs.Prelude.{
  ℕ, ◌+◌, ◌≡◌, refl, sym, ap, subst, false, Option, List, [], ◌∷◌, Result, ok, err, arith,
  Result-cases, inl, inr,
}
use mcp_komodo_rs.Prelude.Text.{Text}
use mcp_komodo_rs.Prelude.Dict.{Dict, retain_values, total}
use mcp_komodo_rs.Server.Files.Types.{
  Bytes, Error, StoredBytes, Entry, Direction, TransferFiles, UploadParams, Platform, Counts,
}
use mcp_komodo_rs.Server.Files.Grants.{
  default, file_id, random_id, prune, with_entry_cases, refuse_if_cases,
}
use mcp_komodo_rs.Server.Files.Authorize.{
  upload_entry, prepare_upload, authorize_upload, prepare_download, authorize_download,
  admits_grant,
}
use mcp_komodo_rs.Server.Files.Transfer.{drop_bytes, upload, download, publish, take, clear}
use native.Mathlib.Nat.{add-zero}
use mcp_komodo_rs.Server.Files.Capacity.{
  held, IsBounded, lends, default-IsBounded, prune-IsBounded, insert_new-IsBounded,
  grant_download-IsBounded, fill_entry-IsBounded, insert_published-IsBounded, consume-IsBounded,
  take_out-IsBounded, release_dropped_lem,
}

-- One call of a method, with what it reads from the clock and the entropy source. `drops` is the end
-- of a download: its bytes, and their permits, are dropped.
pub data Call : Type 0 where
  authorizes_upload : Text → UploadParams → Text → Option Bytes → Option Bytes → ℕ → ℕ → ℕ → Call
  authorizes_download : Text → Text → Text → Option Bytes → ℕ → ℕ → Call
  admits : Text → Text → Direction → ℕ → ℕ → Call
  uploads : Text → Text → Bytes → ℕ → ℕ → Call
  downloads : Text → Text → ℕ → ℕ → Call
  publishes : Text → Text → Text → Bytes → Option Bytes → ℕ → ℕ → Call
  takes : Text → Text → ℕ → Call
  prunes : ℕ → Call
  clears : Call
  drops : Call

-- The registry, and the bytes of the downloads that are being sent.
pub record System : Type 0 where
  pub files : TransferFiles
  pub sending : List StoredBytes

abbrev pub start : System
start = record { files = default; sending = [] }

abbrev sent : Result Error StoredBytes → List StoredBytes → List StoredBytes
sent (ok stored) sending = stored ∷ sending
sent (err e) sending = sending

module _ (p : Platform) where
  pub step : System → Call → System
  step y (authorizes_upload owner params base id token issued pruned inserted) = record y {
    files = (authorize_upload p owner params base id token issued pruned inserted y.files).1;
  }
  step y (authorizes_download owner uri base token issued pruned) = record y {
    files = (authorize_download p owner uri base token issued pruned y.files).1;
  }
  step y (admits id token direction pruned checked) = record y {
    files = (admits_grant p id token direction pruned checked y.files).1;
  }
  step y (uploads id token bytes pruned checked) = record y {
    files = (upload p id token bytes pruned checked y.files).1;
  }
  step y (downloads id token pruned checked) =
      let (result, files) = download p id token pruned checked y.files in
      record { files = files; sending = sent result y.sending }
  step y (publishes owner name mime_type bytes entropy pruned inserted) = record y {
    files = (publish p owner name mime_type bytes entropy pruned inserted y.files).1;
  }
  step y (takes owner uri pruned) = record y { files = (take p owner uri pruned y.files).1 }
  step y (prunes now) = record y { files = prune p now y.files }
  step y clears = record y { files = clear p y.files }
  step y drops = elim y.sending [
    | [] ↦ y
    | stored ∷ rest ↦ record { files = drop_bytes p stored y.files; sending = rest }
  ]

  pub run : System → List Call → System
  run y [] = y
  run y (c ∷ cs) = run (step y c) cs

abbrev pub lent : List StoredBytes → ℕ
lent [] = 0
lent (stored ∷ rest) = stored.permits + lent rest

retain_none : (m : Dict Entry) → retain_values (λ _. false) m ≡ []
retain_none [] = refl
retain_none (x ∷ m) = retain_none m

module _ (p : Platform) (laws : Counts p) {out : ℕ} (s : TransferFiles) (v : IsBounded out s) where
  authorize_upload-IsBounded :
      (owner : Text) (params : UploadParams) (base : Text) (id_entropy token_entropy : Option Bytes)
      (issued pruned inserted : ℕ)
      → IsBounded out
          (authorize_upload p owner params base id_entropy token_entropy issued pruned inserted s).1
  unfolding authorize_upload upload_entry
  authorize_upload-IsBounded owner params base id_entropy token_entropy issued pruned inserted =
      elim (Result-cases (prepare_upload p params base id_entropy token_entropy issued)) [
        | inl ((digest, id, grant, d), ready) ↦
            rw (ready, authorize_upload)
              (insert_new-IsBounded p laws id _ (prune p pruned s) refl
                (prune-IsBounded p laws pruned s v))
        | inr (e, failed) ↦ rw (failed, authorize_upload) v
      ]

  authorize_download-IsBounded :
      (owner uri base : Text) (token_entropy : Option Bytes) (issued pruned : ℕ)
      → IsBounded out (authorize_download p owner uri base token_entropy issued pruned s).1
  unfolding authorize_download
  authorize_download-IsBounded owner uri base token_entropy issued pruned =
      elim (Result-cases (prepare_download p uri base token_entropy issued)) [
        | inl ((id, grant, d), ready) ↦
            rw (ready, authorize_download)
              (grant_download-IsBounded p laws owner id grant d (prune p pruned s)
                (prune-IsBounded p laws pruned s v))
        | inr (e, failed) ↦ rw (failed, authorize_download) v
      ]

  upload-IsBounded :
      (id token : Text) (bytes : Bytes) (pruned checked : ℕ)
      → IsBounded out (upload p id token bytes pruned checked s).1
  unfolding upload
  upload-IsBounded id token bytes pruned checked =
      let v' = prune-IsBounded p laws pruned s v in
      with_entry_cases (λ r. IsBounded out r.1) id _ _ _ v'
        λ entry found free. fill_entry-IsBounded p laws id entry bytes _ v' found (ground arith)

  download-IsBounded :
      (id token : Text) (pruned checked : ℕ)
      → IsBounded
          (out + lends (download p id token pruned checked s).0)
          (download p id token pruned checked s).1
  unfolding download
  download-IsBounded id token pruned checked =
      let v' = prune-IsBounded p laws pruned s v in
      with_entry_cases (λ r. IsBounded (out + lends r.0) r.1) id _ _ _ (rw add-zero v')
        λ entry found _. take_out-IsBounded p laws id entry _ v' found

  publish-IsBounded :
      (owner name mime_type : Text) (bytes : Bytes) (entropy : Option Bytes) (pruned inserted : ℕ)
      → IsBounded out (publish p owner name mime_type bytes entropy pruned inserted s).1
  unfolding publish
  publish-IsBounded owner name mime_type bytes entropy pruned inserted =
      refuse_if_cases (λ r. IsBounded out r.1) _ _ _ s (λ _. v)
        λ small. elim (Result-cases (random_id p entropy)) [
          | inl (id, drawn) ↦
              rw (drawn, publish)
                (insert_published-IsBounded p laws owner id _ bytes inserted (prune p pruned s)
                  (prune-IsBounded p laws pruned s v) (ground arith))
          | inr (e, failed) ↦ rw (failed, publish) v
        ]

  take-IsBounded : (owner uri : Text) (pruned : ℕ) → IsBounded out (take p owner uri pruned s).1
  unfolding take
  take-IsBounded owner uri pruned = elim (Result-cases (file_id uri)) [
    | inl (id, valid) ↦
        rw (valid, take)
          (let v' = prune-IsBounded p laws pruned s v in
            with_entry_cases (λ r. IsBounded out r.1) id _ _ _ v'
              λ entry found _. consume-IsBounded p laws id entry _ v' found)
    | inr (e, failed) ↦ rw (failed, take) v
  ]

  clear-IsBounded : IsBounded out (clear p s)
  unfolding clear total
  clear-IsBounded = record {
    counted = omega arith;
    distinct = tt;
    balanced = omega (
      arith,
      release_dropped_lem p laws (λ _. false) s.entries s.capacity,
      ap held (retain_none s.entries),
      v.balanced,
    );
    sized = tt;
  }

module _ (p : Platform) (laws : Counts p) where
  abbrev pub IsSystemBounded : System → Type 0
  IsSystemBounded y = IsBounded (lent y.sending) y.files

  drops-IsBounded :
      (files : TransferFiles) (stored : StoredBytes) (rest : List StoredBytes)
      → IsBounded (lent (stored ∷ rest)) files
      → IsBounded (lent rest) (drop_bytes p stored files)
  unfolding drop_bytes
  drops-IsBounded files stored rest v = record {
    counted = v.counted;
    distinct = v.distinct;
    balanced = omega (arith, laws.released files.capacity stored.permits, v.balanced);
    sized = v.sized;
  }

  sent_lem :
      (r : Result Error StoredBytes) (sending : List StoredBytes)
      → lent (sent r sending) ≡ lent sending + lends r
  sent_lem (ok stored) sending = omega arith
  sent_lem (err e) sending = omega arith

  step-IsBounded : (y : System) (c : Call) → IsSystemBounded y → IsSystemBounded (step p y c)
  unfolding step admits_grant
  step-IsBounded y (authorizes_upload owner params base id token issued pruned inserted) v =
      authorize_upload-IsBounded p laws y.files v owner params base id token issued pruned inserted
  step-IsBounded y (authorizes_download owner uri base token issued pruned) v =
      authorize_download-IsBounded p laws y.files v owner uri base token issued pruned
  step-IsBounded y (admits id token direction pruned checked) v =
      prune-IsBounded p laws pruned y.files v
  step-IsBounded y (uploads id token bytes pruned checked) v =
      upload-IsBounded p laws y.files v id token bytes pruned checked
  step-IsBounded y (downloads id token pruned checked) v =
      subst (λ n. IsBounded n (download p id token pruned checked y.files).1)
        (sym (sent_lem (download p id token pruned checked y.files).0 y.sending))
        (download-IsBounded p laws y.files v id token pruned checked)
  step-IsBounded y (publishes owner name mime_type bytes entropy pruned inserted) v =
      publish-IsBounded p laws y.files v owner name mime_type bytes entropy pruned inserted
  step-IsBounded y (takes owner uri pruned) v = take-IsBounded p laws y.files v owner uri pruned
  step-IsBounded y (prunes now) v = prune-IsBounded p laws now y.files v
  step-IsBounded y clears v = clear-IsBounded p laws y.files v
  step-IsBounded y drops v = drops_cases y.files y.sending v
    where
      drops_cases :
          (files : TransferFiles) (sending : List StoredBytes)
          → IsBounded (lent sending) files
          → IsSystemBounded (step p (record { files = files; sending = sending }) drops)
      drops_cases files [] v = v
      drops_cases files (stored ∷ rest) v = drops-IsBounded files stored rest v

  run-IsBounded : (y : System) (cs : List Call) → IsSystemBounded y → IsSystemBounded (run p y cs)
  unfolding run
  run-IsBounded y [] v = v
  run-IsBounded y (c ∷ cs) v = run-IsBounded (step p y c) cs (step-IsBounded y c v)

  -- After any calls from the start the registry has at most 64 entries, under distinct identifiers;
  -- the permits that are left, those of the stored bytes and those of the downloads being sent add up
  -- to 16 MiB; and each stored file has a permit for each byte and at most 2 MiB.
  pub run_bounded : (cs : List Call) → IsSystemBounded (run p start cs)
  run_bounded cs = run-IsBounded start cs default-IsBounded
