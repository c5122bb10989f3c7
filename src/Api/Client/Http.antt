-- ===== src/Api/Client/Http.antt =====
-- crates/komodo-api/src/lib.rs: `post_once` and `post` of `Client`. The URL parser, the search for
-- credentials and the parsers of bodies are arguments; `send` is a call, replied to with a response or
-- with nothing where the request fails.
use mcp_komodo_rs.Prelude.{
  ℕ, ◌+◌, ◌*◌, Bool, true, false, not, ◌&&◌, leb, ltb, if◌then◌else◌, Option, some, none, List, [],
  ◌∷◌, ◌++◌, length, Result, ok, err, ◌>>=◌, ok_or,
}
use mcp_komodo_rs.Prelude.Text.{Text, text, str_eq}
use mcp_komodo_rs.Prelude.Tasks.{Task, done, call, attempt}
use mcp_komodo_rs.Api.Resources.{ReportedError}
use mcp_komodo_rs.Api.Credentials.{Credentials}
use mcp_komodo_rs.Api.Errors.{
  ApiError, upstream, invalid_configuration, unavailable, incompatible_response, response_too_large,
  without_body,
}
use mcp_komodo_rs.Api.Failures.Project.{Match, from_response}
use mcp_komodo_rs.Api.Json.{Json, string, object, end, field, get, as_str}

abbrev pub maximum_response_bytes : ℕ
maximum_response_bytes = 2 * 1024 * 1024

-- A request that is sent, and what comes back: the chunks that arrive, and whether the body ends with an
-- error.
pub record Post (Url : Type 0) : Type 0 where
  pub endpoint : Url
  pub api_key : Text
  pub api_secret : Text
  pub json : Json

pub record Response : Type 0 where
  pub status : ℕ
  pub chunks : List (List ℕ)
  pub is_interrupted : Bool

-- What the client uses of other crates.
pub record Libraries (Url : Type 0) : Type 0 where
  pub join : Url → Text → Option Url
  pub build : List Text → Option (Text → List Match)
  pub parse_reported : List ℕ → Option ReportedError
  pub from_utf8 : List ℕ → Option Text

-- The parts of `Client` that do not change.
pub record Client (Url : Type 0) : Type 0 where
  pub base_url : Url
  pub credentials : Credentials

-- The calls of the client: requests, and reads of the clock.
pub data Call (Url : Type 0) : Type 0 where
  send : Post Url → Call Url
  now : Call Url

abbrev pub Reply : (Url : Type 0) → Call Url → Type 0
Reply Url (send post) = Option Response
Reply Url now = ℕ

abbrev pub Web : Type 0 → Type 0 → Type 0
Web Url A = Task (Call Url) (Reply Url) ApiError A

-- StatusCode::is_success
abbrev pub is_success : ℕ → Bool
is_success status = leb 200 status && leb status 299

-- The errors of a body that is not read to its end.
unfoldable pub broken : ℕ → Text → Text → ApiError → ApiError
broken status variant reason other =
    if not (is_success status) then upstream (without_body status variant reason) else other

-- The loop of `post_once` over the chunks.
unfoldable pub collect : Text → ℕ → Bool → List (List ℕ) → List ℕ → Result ApiError (List ℕ)
unfolding broken
collect variant status is_interrupted [] bytes =
    if is_interrupted
    then err (broken status variant (text "response body interrupted") unavailable)
    else ok bytes
collect variant status is_interrupted (chunk ∷ chunks) bytes =
    let rest = collect variant status is_interrupted chunks (bytes ++ chunk) in
    if ltb maximum_response_bytes (length bytes + length chunk)
    then err (broken status variant (text "response body exceeds byte bound") response_too_large)
    else rest

-- The webhook secret that a configuration update carries.
abbrev pub given_secret : Option Json → Option Text
given_secret none = none
given_secret (some config) = elim (get (text "webhook_secret") config) [
  | none ↦ none
  | some secret ↦ as_str secret
]

unfoldable pub written_secret : Text → Json → List Text
written_secret variant params =
    if str_eq variant (text "UpdateStack")
    then elim (given_secret (get (text "config") params)) [ none ↦ [] | some token ↦ token ∷ [] ]
    else []

-- The credentials that a failure must not repeat.
abbrev pub known_credentials : Credentials → Text → Json → List Text
known_credentials credentials variant params =
    credentials.key ∷ credentials.secret ∷ written_secret variant params

-- `matches!(&error, …)`: the errors after which a read is tried again.
unfoldable pub is_transient : ApiError → Bool
is_transient unavailable = true
is_transient (upstream failure) = leb 500 failure.status && leb failure.status 599
is_transient _ = false

module _ {Url : Type 0} (libraries : Libraries Url) (client : Client Url) where
  open libraries use {join, build, parse_reported, from_utf8}

  -- `post_once` after the body.
  unfoldable pub read_body :
      {T : Type 0} → (List ℕ → Option T) → Text → Json → ℕ → List ℕ → Result ApiError T
  read_body from_slice variant params status bytes =
      if not (is_success status)
      then err (
          upstream (
            from_response build parse_reported from_utf8 status variant bytes
              (known_credentials client.credentials variant params)))
      else ok_or (from_slice bytes) incompatible_response

  -- `post_once` after the reply.
  unfoldable pub receive :
      {T : Type 0} → (List ℕ → Option T) → Text → Json → Option Response → Result ApiError T
  receive from_slice variant params none = err unavailable
  receive from_slice variant params (some response) = do
    bytes ← collect variant response.status response.is_interrupted response.chunks []
    read_body from_slice variant params response.status bytes

  unfoldable pub request : Text → Json → Url → Post Url
  request variant params endpoint = record {
    endpoint = endpoint;
    api_key = client.credentials.key;
    api_secret = client.credentials.secret;
    json = object (field (text "type") (string variant) (field (text "params") params end));
  }

  unfoldable pub post_once : {T : Type 0} → (List ℕ → Option T) → Text → Text → Json → Web Url T
  post_once from_slice family variant params = elim (join client.base_url family) [
    | none ↦ done (err (invalid_configuration (text "base URL")))
    | some endpoint ↦
        call (send (request variant params endpoint))
          λ reply. done (receive from_slice variant params reply)
  ]

  unfoldable pub post : {T : Type 0} → (List ℕ → Option T) → Text → Text → Json → Bool → Web Url T
  unfolding post_once is_transient
  post from_slice family variant params retry_read =
      attempt (post_once from_slice family variant params) λ result. elim result [
        | ok a ↦ done (ok a)
        | err error ↦
            if retry_read && is_transient error
            then post_once from_slice family variant params
            else done (err error)
      ]
