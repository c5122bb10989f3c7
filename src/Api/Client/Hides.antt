-- ===== src/Api/Client/Hides.antt =====
-- crates/komodo-api/src/lib.rs: a failure that the client reports does not repeat its credentials, nor the
-- webhook secret that an update carries.
use mcp_komodo_rs.Prelude.{
  ℕ, ◌≡◌, ◌+◌, ◌++◌, ◌∙◌, ap, length, ltb, refl, Bool, true, false, not, is_empty, retain, Option,
  some, none, List, [], ◌∷◌, Result, ok, err, Bool-cases, Result-cases, Option-cases, subst, inl,
  inr,
}
use mcp_komodo_rs.Prelude.Text.{Text, text, str_eq}
use mcp_komodo_rs.Prelude.Tasks.{Always, Always-map}
use mcp_komodo_rs.Api.Types.{StackConfigPatch}
use mcp_komodo_rs.Api.Errors.{ApiError, upstream, Diagnostic, UpstreamFailure, without_body}
use mcp_komodo_rs.Api.Failures.Project.{from_response}
use mcp_komodo_rs.Api.Failures.Hides.{Searches, IsCleanDiagnostic, from_response_hides}
use mcp_komodo_rs.Api.Json.{
  Json, Fields, end, field, optional_field, get_field, as_str, object, string, bool, array, strings,
  command_json, patch_json,
}
use mcp_komodo_rs.Api.Client.Http.{
  Libraries, Client, Response, known_credentials, given_secret, written_secret,
  maximum_response_bytes, collect, read_body, receive, post, broken, is_success,
}
use mcp_komodo_rs.Api.Client.Requests.{Bodies, update_stack}
use mcp_komodo_rs.Api.Client.Posts.{Log, Attempts, unsent, once, twice, post-Attempts}

abbrev secret_of : Fields → Option Text
secret_of fields = given_secret (some (object fields))

-- A field with another key is not read.
skipped :
    (other : Text) (value : Json) (fields : Fields)
    → str_eq other (text "webhook_secret") ≡ false
    → get_field (text "webhook_secret") (field other value fields)
      ≡ get_field (text "webhook_secret") fields
skipped other value fields different = rw (different, get_field) refl

secret_of-optional_field :
    {A : Type 0} (other : Text) (to_json : A → Json) (o : Option A) (fields : Fields)
    → str_eq other (text "webhook_secret") ≡ false
    → secret_of (optional_field other to_json o fields) ≡ secret_of fields
secret_of-optional_field other to_json none fields different = refl
secret_of-optional_field other to_json (some a) fields different =
    ap (λ (o : Option Json). elim o [ none ↦ none | some secret ↦ as_str secret ])
      (skipped other (to_json a) fields different)

secret_of-last :
    (secret : Option Text) (forced : Option Bool)
    → secret_of (
        optional_field
          (text "webhook_secret")
          string
          secret
          (optional_field (text "webhook_force_deploy") bool forced end))
      ≡ secret
unfolding str_eq
secret_of-last none none = refl
secret_of-last none (some b) = refl
secret_of-last (some s) forced = refl

-- The secret that `written_secret` reads is that of the patch.
given_secret-patch_json :
    (patch : StackConfigPatch) → given_secret (some (patch_json patch)) ≡ patch.webhook_secret
unfolding patch_json str_eq
given_secret-patch_json patch =
    secret_of-optional_field (text "file_contents") string patch.file_contents _ refl
    ∙ secret_of-optional_field (text "environment") string patch.environment _ refl
    ∙ secret_of-optional_field (text "pre_deploy") command_json patch.pre_deploy _ refl
    ∙ secret_of-optional_field (text "post_deploy") command_json patch.post_deploy _ refl
    ∙ secret_of-optional_field (text "files_on_host") bool patch.files_on_host _ refl
    ∙ secret_of-optional_field (text "run_directory") string patch.run_directory _ refl
    ∙ secret_of-optional_field (text "file_paths") (λ paths. array (strings paths)) patch.file_paths
        _ refl
    ∙ secret_of-optional_field (text "env_file_path") string patch.env_file_path _ refl
    ∙ secret_of-optional_field (text "webhook_enabled") bool patch.webhook_enabled _ refl
    ∙ secret_of-last patch.webhook_secret patch.webhook_force_deploy

abbrev pub listed : Option Text → List Text
listed none = []
listed (some token) = token ∷ []

written_secret-patch_json :
    (id : Text) (patch : StackConfigPatch)
    → written_secret
        (text "UpdateStack")
        (object (field (text "id") (string id) (field (text "config") (patch_json patch) end)))
      ≡ listed patch.webhook_secret
unfolding written_secret str_eq
written_secret-patch_json id patch =
    rw (given_secret-patch_json patch) (listed_lem patch.webhook_secret)
  where
    listed_lem : (o : Option Text) → elim o [ none ↦ [] | some token ↦ token ∷ [] ] ≡ listed o
    listed_lem none = refl
    listed_lem (some t) = refl

-- Nothing is kept of a body that is not read to its end.
collect-diagnostic :
    (variant : Text) (status : ℕ) (is_interrupted : Bool) (chunks : List (List ℕ)) (bytes : List ℕ)
    (failure : UpstreamFailure)
    → collect variant status is_interrupted chunks bytes ≡ err (upstream failure)
    → failure.diagnostic ≡ none
unfolding collect broken without_body
collect-diagnostic variant status true [] bytes failure h = elim (Bool-cases (is_success status)) [
  | inl fine ↦ absurd (cc (rw fine at h))
  | inr bad ↦ cc (rw bad at h)
]
collect-diagnostic variant status false [] bytes failure h = absurd (cc h)
collect-diagnostic variant status is_interrupted (chunk ∷ chunks) bytes failure h =
    elim (Bool-cases (ltb maximum_response_bytes (length bytes + length chunk))) [
      | inl large ↦ elim (Bool-cases (is_success status)) [
        | inl fine ↦ absurd (cc (rw (large, fine) at h))
        | inr bad ↦ cc (rw (large, bad) at h)
      ]
      | inr fits ↦
          collect-diagnostic variant status is_interrupted chunks (bytes ++ chunk) failure
            (rw fits at h)
    ]

-- No text of a diagnostic that the error keeps contains one of the credentials that are not empty.
abbrev pub HidesAll : List Text → ApiError → Type 0
HidesAll credentials error =
    (failure : UpstreamFailure) (d : Diagnostic)
    → error ≡ upstream failure
    → failure.diagnostic ≡ some d
    → IsCleanDiagnostic (retain (λ value. not (is_empty value)) credentials) d

abbrev pub FailureHides : {T : Type 0} → List Text → Result ApiError T → Type 0
FailureHides credentials (ok a) = Unit
FailureHides credentials (err error) = HidesAll credentials error

module _ {Url : Type 0} (libraries : Libraries Url) (laws : Searches libraries.build)
    (client : Client Url) where
  module _ {T : Type 0} (from_slice : List ℕ → Option T) (variant : Text) (params : Json) where
    receive-FailureHides :
        (reply : Option Response)
        → FailureHides
            (known_credentials client.credentials variant params)
            (receive libraries client from_slice variant params reply)
    unfolding receive read_body
    receive-FailureHides none = λ failure d h shown. absurd (cc h)
    receive-FailureHides (some response) =
        elim (Result-cases
          (collect variant response.status response.is_interrupted response.chunks [])) [
            | inr (error, e) ↦ rw e (λ failure d h shown. absurd (
                cc (
                  collect-diagnostic variant response.status response.is_interrupted response.chunks
                      [] failure (e ∙ ap err h),
                  shown,
                )))
            | inl (bytes, e) ↦ rw e (read_body-FailureHides response.status bytes)
          ]
      where
        read_body-FailureHides :
            (status : ℕ) (bytes : List ℕ)
            → FailureHides
                (known_credentials client.credentials variant params)
                (read_body libraries client from_slice variant params status bytes)
        read_body-FailureHides status bytes = elim (Bool-cases (is_success status)) [
          | inl fine ↦ elim (Option-cases (from_slice bytes)) [
            | inl unread ↦ rw (read_body, fine, unread) (λ failure d h shown. absurd (cc h))
            | inr (a, parsed) ↦ rw (read_body, fine, parsed) tt
          ]
          | inr bad ↦
              rw (read_body, bad)
                (λ failure d h shown.
                  let same : from_response libraries.build libraries.parse_reported
                        libraries.from_utf8 status variant bytes
                        (known_credentials client.credentials variant params)
                      ≡ failure =
                    cc h in
                  from_response_hides libraries.build libraries.parse_reported libraries.from_utf8
                    laws status variant bytes (known_credentials client.credentials variant params)
                    d (ap (λ (f : UpstreamFailure). f.diagnostic) same ∙ shown))
        ]

    Attempts-FailureHides :
        (family : Text) (retry_read : Bool) (h g : Log Url) (r : Result ApiError T)
        → Attempts libraries client from_slice family variant params retry_read h g r
        → FailureHides (known_credentials client.credentials variant params) r
    Attempts-FailureHides family retry_read h _ _ (unsent e) = λ failure d h shown. absurd (cc h)
    Attempts-FailureHides family retry_read h _ _ (once endpoint reply e _) =
        receive-FailureHides reply
    Attempts-FailureHides family retry_read h _ _ (twice endpoint first second e t) =
        receive-FailureHides second

  module _ (bodies : Bodies) where
    -- With a matcher that searches as documented, a failure of an update that the client reports repeats, in
    -- no text of its diagnostic, the API key, the API secret or the webhook secret that the update
    -- carries, wherever the response repeats these, but for those of them that are empty.
    pub update_stack_hides :
        (id : Text) (patch : StackConfigPatch)
        → Always
            (λ h r.
              FailureHides
                (client.credentials.key ∷ client.credentials.secret ∷ listed patch.webhook_secret)
                r)
            []
            (update_stack libraries client bodies id patch)
    unfolding update_stack
    update_stack_hides id patch =
        let params =
          object (field (text "id") (string id) (field (text "config") (patch_json patch) end)) in
        let known = known_credentials client.credentials (text "UpdateStack") params in
        subst
          (λ (secret : List Text).
            Always
              (λ h r. FailureHides (client.credentials.key ∷ client.credentials.secret ∷ secret) r)
              []
              (post libraries client bodies.ack (text "write") (text "UpdateStack") params false))
          (written_secret-patch_json id patch)
          (Always-map
            (Attempts-FailureHides bodies.ack (text "UpdateStack") params (text "write") false [])
            [] (post libraries client bodies.ack (text "write") (text "UpdateStack") params false)
            (post-Attempts libraries client bodies.ack (text "write") (text "UpdateStack") params
              false []))
