-- ===== src/Server/Lifecycle/Opened.antt =====
-- crates/komodo-server/src/lifecycle.rs and files.rs: the file that the authorization of a custom request
-- opens to a transfer.
use mcp_komodo_rs.Prelude.{
  ℕ, ◌+◌, ◌≡◌, none, refl, ap, ◌∙◌, ◌>>◌, leb, Option, some, length, Result, ok, err, ok_or,
  ok_or-ok, refuse, bind_elim, Result-cases, inl, inr, arith, ◌++◌, not,
}
use mcp_komodo_rs.Prelude.Text.{
  Text, text, as_bytes, str_eq_sound, strip_prefix, strip_prefix-eq-some,
}
use mcp_komodo_rs.Prelude.Dict.{get, contains_key}
use mcp_komodo_rs.Prelude.Dict.Laws.{get-put_self, get-cons_self}
use mcp_komodo_rs.Server.Files.Types.{
  Bytes, uri_prefix, http_prefix, grant_ttl, max_entries, unavailable, url_unavailable,
  entropy_unavailable, metadata_exceeds, capacity_unavailable, identifier_collision, Direction,
  Grant, FileValue, Entry, TransferFiles, UploadParams, Descriptor, Platform,
}
use mcp_komodo_rs.Server.Files.Grants.{
  Outcome, is_file_id, file_id, exceeds_bounds, random_id, descriptor, refuse_if_cases,
  with_entry_cases, prune,
}
use mcp_komodo_rs.Server.Files.Authorize.{
  expected_digest, prepare_upload, upload_entry, upload_file, insert_new, authorize_upload,
  prepare_download, grant_download, authorize_download,
}
use mcp_komodo_rs.Server.Files.Admits.{IsReady}
use mcp_komodo_rs.Server.Lifecycle.Scoped.{
  CustomRequest, Readings, Answered, answered, params_of, RequestError, invalid_upload,
  missing_upload, invalid_download, missing_download, authorize,
}

abbrev pub verb : Direction → Text
verb Direction.upload = text "PUT"
verb Direction.download = text "GET"

-- The file that the request asks for: one with its name, type and size, or one with its URI.
abbrev pub IsAsked : CustomRequest → Direction → Text → Entry → Type 0
IsAsked request Direction.upload id entry =
    (params : UploadParams) × (request.upload_params ≡ ok (some params))
    × (entry.file ≡ record {
      uri = uri_prefix ++ id;
      name = params.name;
      mime_type = params.mime_type;
      size = params.size;
      digest = none;
    })
    × (entry.expected_size ≡ params.size)
IsAsked request Direction.download id entry = request.download_uri ≡ ok (some (uri_prefix ++ id))

verb_lem :
    (direction : Direction)
    → (elim direction [ Direction.upload ↦ text "PUT" | Direction.download ↦ text "GET" ])
      ≡ verb direction
verb_lem Direction.upload = refl
verb_lem Direction.download = refl

params_of_sound :
    {A : Type 0} (given : Result (Unit {0}) (Option A)) (invalid missing : RequestError) (a : A)
    → params_of given invalid missing ≡ ok a
    → given ≡ ok (some a)
params_of_sound (err _) invalid missing a h = absurd (cc h)
params_of_sound (ok given) invalid missing a h = ap ok (ok_or-ok given missing a h)

file_id_sound : (uri id : Text) → file_id uri ≡ ok id → uri ≡ uri_prefix ++ id
unfolding file_id
file_id_sound uri id h = bind_elim (ok_or (strip_prefix uri_prefix uri) unavailable) h λ rest e h.
    bind_elim (refuse (not (is_file_id rest)) unavailable) h λ _ _ h.
      let same : rest ≡ id = cc h in
      strip_prefix-eq-some uri_prefix uri rest (ok_or-ok _ _ _ e) ∙ ap (λ r. uri_prefix ++ r) same

module _ (p : Platform) where
  -- A grant of the direction, of the token that is drawn, and the descriptor that carries the token, to the
  -- address of the file.
  pub record IsGranted (base id : Text) (direction : Direction) (entropy : Option Bytes)
      (issued : ℕ) (grant : Grant) (described : Descriptor) : Type 0 where
    pub drawn : Bytes
    pub url : Text
    pub random : entropy ≡ some drawn
    pub joined : p.join base (http_prefix ++ id) ≡ some url
    pub grants : grant ≡ record {
      hash = p.sha256 (as_bytes (p.encode drawn));
      expires = issued + grant_ttl;
      direction = direction;
    }
    pub describes : described ≡ record {
      method = verb direction;
      url = url;
      authorization = text "Bearer " ++ p.encode drawn;
    }

  descriptor_sound :
      (base id : Text) (direction : Direction) (entropy : Option Bytes) (issued : ℕ) (grant : Grant)
      (described : Descriptor)
      → descriptor p base id direction entropy issued ≡ ok (grant, described)
      → IsGranted base id direction entropy issued grant described
  unfolding descriptor random_id
  descriptor_sound base id direction entropy issued grant described h =
      bind_elim (random_id p entropy) h λ token e1 h.
        bind_elim (ok_or entropy entropy_unavailable) e1 λ drawn e2 encoded.
          bind_elim (ok_or (p.join base (http_prefix ++ id)) url_unavailable) h λ url e3 h.
            let same : p.encode drawn ≡ token = cc encoded in
            let sent : described ≡ record {
              method = elim direction [
                | Direction.upload ↦ text "PUT"
                | Direction.download ↦ text "GET"
              ];
              url = url;
              authorization = text "Bearer " ++ token;
            } =
              cc h in
            record {
              drawn = drawn;
              url = url;
              random = ok_or-ok _ _ _ e2;
              joined = ok_or-ok _ _ _ e3;
              grants = rw same (cc h);
              describes = rw same (
                  sent
                  ∙ ap
                      (λ (m : Text). record {
                        method = m;
                        url = url;
                        authorization = text "Bearer " ++ token;
                      })
                      (verb_lem direction));
            }

  pub record IsOpened (request : CustomRequest) (readings : Readings) (direction : Direction)
      (owner base : Text) (given : FileValue × Descriptor) (s : TransferFiles) : Type 0 where
    pub id : Text
    pub entry : Entry
    pub grant : Grant
    pub listed : get id s.entries ≡ some entry
    pub owned : entry.owner ≡ owner
    pub asked : IsAsked request direction id entry
    pub answers : given.0 ≡ entry.file
    pub granted : entry.grant ≡ some grant
    pub carried : IsGranted base id direction readings.token_entropy readings.issued grant given.1
    pub ready : IsReady p direction entry

  abbrev pub Opens : CustomRequest → Readings → Direction → Text → Text → Answered → Type 0
  Opens request readings direction owner base (err e, s) = Unit
  Opens request readings direction owner base (ok given, s) =
      IsOpened request readings direction owner base given s

  prepare_upload_sound :
      (params : UploadParams) (base : Text) (id_entropy token_entropy : Option Bytes) (issued : ℕ)
      (digest : Option Bytes) (id : Text) (grant : Grant) (upload : Descriptor)
      → prepare_upload p params base id_entropy token_entropy issued
        ≡ ok (digest, id, grant, upload)
      → IsGranted base id Direction.upload token_entropy issued grant upload
  unfolding prepare_upload
  prepare_upload_sound params base id_entropy token_entropy issued digest id grant upload h =
      bind_elim (refuse (exceeds_bounds params) metadata_exceeds) h λ _ _ h.
        bind_elim (expected_digest p params.digest) h λ d _ h.
          bind_elim (random_id p id_entropy) h λ i _ h.
            bind_elim (descriptor p base i Direction.upload token_entropy issued) h λ g e h.
              let same : i ≡ id = cc h in
              let granted : g ≡ (grant, upload) = cc h in
              rw (← same) (
                descriptor_sound base i Direction.upload token_entropy issued grant upload
                  (e ∙ ap ok granted))

  prepare_download_sound :
      (uri base : Text) (token_entropy : Option Bytes) (issued : ℕ) (id : Text) (grant : Grant)
      (download : Descriptor)
      → prepare_download p uri base token_entropy issued ≡ ok (id, grant, download)
      → (uri ≡ uri_prefix ++ id)
        × IsGranted base id Direction.download token_entropy issued grant download
  unfolding prepare_download
  prepare_download_sound uri base token_entropy issued id grant download h =
      bind_elim (file_id uri) h λ i named h.
        bind_elim (descriptor p base i Direction.download token_entropy issued) h λ g e h.
          let same : i ≡ id = cc h in
          let granted : g ≡ (grant, download) = cc h in
          rw (← same) (
            file_id_sound uri i named,
            descriptor_sound base i Direction.download token_entropy issued grant download
                (e ∙ ap ok granted),
          )

  module _ (request : CustomRequest) (readings : Readings) (owner base : Text)
      (s : TransferFiles) where
    upload-Opens :
        (params : UploadParams)
        → request.upload_params ≡ ok (some params)
        → Opens request readings Direction.upload owner base (
            answered (
              authorize_upload p owner params base readings.id_entropy readings.token_entropy
                readings.issued readings.pruned readings.inserted s))
    unfolding authorize_upload insert_new upload_entry
    upload-Opens params read =
        elim (Result-cases (
          prepare_upload p params base readings.id_entropy readings.token_entropy
            readings.issued)) [
              | inr (e, failed) ↦ rw (failed, authorize_upload) tt
              | inl ((digest, id, grant, upload), made) ↦
                  let s' = prune p readings.pruned s in
                  let file = upload_file p id params in
                  let entry = upload_entry p owner params file digest grant readings.inserted in
                  let Q : Outcome (Unit {0}) → Type 0 = λ o.
                    Opens request readings Direction.upload owner base
                      (answered ((o.0 >> ok (file, upload)), o.1)) in
                  rw (made, authorize_upload)
                    (refuse_if_cases Q (leb max_entries (length s'.entries)) capacity_unavailable _
                      s' (λ full. tt)
                      (λ fits.
                        refuse_if_cases Q (contains_key id s'.entries) identifier_collision _ s'
                          (λ taken. tt)
                          (λ fresh. record {
                            id = id;
                            entry = entry;
                            grant = grant;
                            listed = get-cons_self id entry s'.entries;
                            owned = refl;
                            asked = (params, read, refl, refl);
                            answers = refl;
                            granted = refl;
                            carried =
                                prepare_upload_sound params base readings.id_entropy
                                  readings.token_entropy readings.issued digest id grant upload
                                  made;
                            ready = refl;
                          })))
            ]

    download-Opens :
        (uri : Text)
        → request.download_uri ≡ ok (some uri)
        → Opens request readings Direction.download owner base (
            answered (
              authorize_download p owner uri base readings.token_entropy readings.issued
                readings.pruned s))
    unfolding authorize_download grant_download
    download-Opens uri read =
        elim (Result-cases (prepare_download p uri base readings.token_entropy readings.issued)) [
          | inr (e, failed) ↦ rw (failed, authorize_download) tt
          | inl ((id, grant, download), made) ↦
              let s' = prune p readings.pruned s in
              let (named, carried) =
                prepare_download_sound uri base readings.token_entropy readings.issued id grant
                  download made in
              rw (made, authorize_download)
                (with_entry_cases
                  (λ o. Opens request readings Direction.download owner base (answered o)) id _ _ s'
                  tt
                  (λ entry found test. record {
                    id = id;
                    entry = record entry { grant = some grant };
                    grant = grant;
                    listed = get-put_self id (record entry { grant = some grant }) s'.entries found;
                    owned = str_eq_sound entry.owner owner (ground arith);
                    asked = read ∙ ap (λ (u : Text). ok (some u)) named;
                    answers = refl;
                    granted = refl;
                    carried = carried;
                    ready = ground arith;
                  }))
        ]

    pub authorize-Opens :
        (direction : Direction)
        → Opens request readings direction owner base
            (authorize p request readings direction owner base s)
    unfolding authorize
    authorize-Opens Direction.upload =
        elim (Result-cases (params_of request.upload_params invalid_upload missing_upload)) [
          | inr (e, failed) ↦ rw (failed, authorize) tt
          | inl (params, read) ↦
              rw (read, authorize) (upload-Opens params (params_of_sound _ _ _ params read))
        ]
    authorize-Opens Direction.download =
        elim (Result-cases (params_of request.download_uri invalid_download missing_download)) [
          | inr (e, failed) ↦ rw (failed, authorize) tt
          | inl (uri, read) ↦
              rw (read, authorize) (download-Opens uri (params_of_sound _ _ _ uri read))
        ]
