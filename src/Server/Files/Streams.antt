-- ===== src/Server/Files/Streams.antt =====
-- crates/komodo-server/src/files.rs: the files that `download_http` streams.
use mcp_komodo_rs.Prelude.{
  ℕ, ◌≡◌, ap, Bool, true, false, not, Option, some, none, [], ◌∷◌, ◌++◌, is_some_and, is_none_or,
  arith, Bool-cases, Option-cases, inl, inr, ok, err,
}
use mcp_komodo_rs.Prelude.Text.{Text, text}
use mcp_komodo_rs.Prelude.Dict.{get, HasDistinctKeys}
use mcp_komodo_rs.Mcp.Execution.{ExecutionBudget, has_ended}
use mcp_komodo_rs.Server.Files.Types.{StoredBytes, TransferFiles, Platform, ComparesBytes}
use mcp_komodo_rs.Server.Files.Grants.{Outcome}
use mcp_komodo_rs.Server.Files.Transfer.{download}
use mcp_komodo_rs.Server.Files.Access.{MayDownload, download_authorized}
use mcp_komodo_rs.Server.Files.Http.{Request, Response, file, bearer, responds, download_http}
use mcp_komodo_rs.Server.Files.Body.{DownloadBody}
use mcp_komodo_rs.Server.Files.Admits.{bearer_sound}

module _ (p : Platform) where
  responds_lem :
      (r : Outcome StoredBytes) (body : DownloadBody) (s' : TransferFiles)
      → responds p (λ stored. file (record { stored = stored; offset = 0 })) r ≡ (file body, s')
      → (body.offset ≡ 0) × (r ≡ (ok body.stored, s'))
  responds_lem (ok stored, t) body s' h =
      let same : file (record { stored = stored; offset = 0 }) ≡ file body =
        ap (λ (r : Response × TransferFiles). r.0) h in
      let left : t ≡ s' = ap (λ (r : Response × TransferFiles). r.1) h in
      let stored' : stored ≡ body.stored = cc same in (cc same, cc (left, stored'))
  responds_lem (err e, t) body s' h = absurd (cc (ap (λ (r : Response × TransferFiles). r.0) h))

  budget_lem :
      (budget : Option ExecutionBudget) (test : ExecutionBudget → Bool)
      → is_none_or budget test ≡ false
      → is_some_and budget (λ b. not (test b)) ≡ true
  budget_lem none test h = cc h
  budget_lem (some b) test h = ground arith

  module _ (laws : ComparesBytes p) (s : TransferFiles) (distinct : HasDistinctKeys s.entries) where
    -- The response to a download streams a file only for a request that carries a budget which has not
    -- ended, and one authorization header, whose bearer is the token of a grant to download the file.
    -- The stream starts at the first of the bytes that the file had, and the file is gone then.
    pub download_http_authorized :
        (id : Text) (request : Request) (cancelled : Bool) (now pruned checked : ℕ)
        (body : DownloadBody) (s' : TransferFiles)
        → download_http p id request cancelled now pruned checked s ≡ (file body, s')
        → (token : Text) × (request.authorization ≡ some (text "Bearer " ++ token) ∷ [])
          × (is_some_and request.budget (λ budget. not (has_ended budget cancelled now)) ≡ true)
          × (body.offset ≡ 0)
          × MayDownload p s id token pruned checked body.stored
          × (get id s'.entries ≡ none)
    unfolding download_http
    download_http_authorized id request cancelled now pruned checked body s' h =
        elim (Bool-cases (is_none_or request.budget (λ budget. has_ended budget cancelled now))) [
          | inl ended ↦ absurd (cc (ap (λ (r : Response × TransferFiles). r.0) (rw ended at h)))
          | inr live ↦ elim (Option-cases (bearer request.authorization)) [
            | inl missing ↦
                absurd (cc (ap (λ (r : Response × TransferFiles). r.0) (rw (live, missing) at h)))
            | inr (token, given) ↦
                let (started, e) =
                  responds_lem (download p id token pruned checked s) body s'
                    (rw (live, given) at h) in
                let (may, gone) =
                  download_authorized p s distinct pruned laws id token checked body.stored s' e in
                (
                  token,
                  bearer_sound request.authorization token given,
                  budget_lem request.budget (λ budget. has_ended budget cancelled now) live,
                  started,
                  may,
                  gone,
                )
          ]
        ]
