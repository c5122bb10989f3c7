-- ===== src/Server/Auth/Ingress.antt =====
-- crates/komodo-server/src/auth.rs: `IngressAuth` and `authenticate`. The headers are those of the
-- crate http: absent, or a value that may not be text. The verifier is an argument.
use mcp_komodo_rs.Prelude.{
  ℕ, ◌≡◌, refl, ap, Bool, true, false, not, Option, some, none, List, ◌++◌, any, bind-ok, refuse-ok,
  ok_or-ok, Result, ok, err, ◌>>=◌, ◌>>◌, refuse, ok_or, arith,
}
use mcp_komodo_rs.Prelude.Text.{
  Text, text, str_eq, to_ascii_lowercase, strip_prefix, strip_prefix-eq-some, as_bytes,
}
use mcp_komodo_rs.Server.Auth.Bearers.{GatewayBearers, accepts}
use mcp_komodo_rs.Server.Auth.Claims.{IdentityPrincipal, IdentityError}

pub record IngressAuth : Type 0 where
  pub bearers : GatewayBearers
  pub allowed_hosts : List Text
  pub allowed_origins : List Text

-- A header that is absent, or its value: its text, if it is text (`to_str`).
abbrev pub HeaderText : Type 0
HeaderText = Option (Option Text)

pub record Headers : Type 0 where
  pub host : HeaderText
  pub origin : HeaderText
  pub authorization : HeaderText
  pub identity : HeaderText

pub data IngressFailure : Type 0 where
  unauthorized invalid_origin : IngressFailure

-- `.and_then(|value| value.to_str().ok())`
abbrev pub text_of : HeaderText → Option Text
text_of none = none
text_of (some value) = value

abbrev pub and_then : {A B : Type 0} → Option A → (A → Option B) → Option B
and_then none f = none
and_then (some a) f = f a

unfoldable pub check_origin : IngressAuth → HeaderText → Result IngressFailure (Unit {0})
check_origin auth none = ok tt
check_origin auth (some value) = do
  origin ← ok_or value invalid_origin
  refuse (not (any (λ allowed. str_eq allowed origin) auth.allowed_origins)) invalid_origin

-- `map_err(|_| IngressFailure::Unauthorized)`
abbrev pub or_unauthorized : {A : Type 0} → Result IdentityError A → Result IngressFailure A
or_unauthorized (ok a) = ok a
or_unauthorized (err e) = err unauthorized

not-false : (b : Bool) → not b ≡ false → b ≡ true
not-false true h = refl
not-false false h = cc h

module _ (ct_eq : List ℕ → List ℕ → Bool) (verify : Text → Result IdentityError IdentityPrincipal)
    (auth : IngressAuth) where
  unfoldable pub authenticate : Headers → Result IngressFailure IdentityPrincipal
  authenticate headers = do
    host ← ok_or (text_of headers.host) unauthorized
    refuse (not (any (λ allowed. str_eq allowed (to_ascii_lowercase host)) auth.allowed_hosts))
        unauthorized
    check_origin auth headers.origin
    bearer ←
        ok_or (and_then (text_of headers.authorization) (strip_prefix (text "Bearer ")))
          unauthorized
    refuse (not (accepts ct_eq auth.bearers (as_bytes bearer))) unauthorized
    identity ← ok_or (text_of headers.identity) unauthorized
    or_unauthorized (verify identity)

  -- The origin is absent, or text that is allowed.
  abbrev pub IsAllowedOrigin : HeaderText → Type 0
  IsAllowedOrigin none = Unit
  IsAllowedOrigin (some none) = ⊥
  IsAllowedOrigin (some (some origin)) =
      any (λ allowed. str_eq allowed origin) auth.allowed_origins ≡ true

  -- What a request shows that is authenticated.
  pub record IsAuthentic (headers : Headers) (principal : IdentityPrincipal) : Type 0 where
    pub host : Text
    pub bearer : Text
    pub identity : Text
    pub hosted : headers.host ≡ some (some host)
    pub allowed :
        any (λ allowed. str_eq allowed (to_ascii_lowercase host)) auth.allowed_hosts ≡ true
    pub origin : IsAllowedOrigin headers.origin
    pub authorized : headers.authorization ≡ some (some (text "Bearer " ++ bearer))
    pub accepted : accepts ct_eq auth.bearers (as_bytes bearer) ≡ true
    pub identified : headers.identity ≡ some (some identity)
    pub verified : verify identity ≡ ok principal

  origin_lem : (origin : HeaderText) → check_origin auth origin ≡ ok tt → IsAllowedOrigin origin
  unfolding check_origin
  origin_lem none h = tt
  origin_lem (some none) h = cc h
  origin_lem (some (some origin)) h = ground arith

  text_lem :
      (header : HeaderText) (value : Text)
      → text_of header ≡ some value
      → header ≡ some (some value)
  text_lem none value h = cc h
  text_lem (some none) value h = cc h
  text_lem (some (some t)) value h = cc h

  bearer_lem :
      (header : HeaderText) (bearer : Text)
      → and_then (text_of header) (strip_prefix (text "Bearer ")) ≡ some bearer
      → header ≡ some (some (text "Bearer " ++ bearer))
  bearer_lem none bearer h = cc h
  bearer_lem (some none) bearer h = cc h
  bearer_lem (some (some value)) bearer h =
      ap (λ (v : Text). some (some v)) (strip_prefix-eq-some (text "Bearer ") value bearer h)

  verified_lem :
      (r : Result IdentityError IdentityPrincipal) (principal : IdentityPrincipal)
      → or_unauthorized r ≡ ok principal
      → r ≡ ok principal
  verified_lem (ok p) principal h = cc h
  verified_lem (err e) principal h = cc h

  -- A request is authenticated only for an allowed host, in any case, from an allowed origin, if it
  -- names one, with a bearer that the gateway accepts, and as the principal that its identity token
  -- verifies to.
  pub authenticate_sound :
      (headers : Headers) (principal : IdentityPrincipal)
      → authenticate headers ≡ ok principal
      → IsAuthentic headers principal
  unfolding authenticate
  authenticate_sound headers principal h =
      let (host, hosted, h1) = bind-ok (ok_or (text_of headers.host) unauthorized) _ principal h in
      let (_, listed, h2) =
        bind-ok
          (refuse
            (not (any (λ allowed. str_eq allowed (to_ascii_lowercase host)) auth.allowed_hosts))
            unauthorized)
          _ principal h1 in
      let (_, from, h3) = bind-ok (check_origin auth headers.origin) _ principal h2 in
      let (bearer, given, h4) =
        bind-ok
          (ok_or (and_then (text_of headers.authorization) (strip_prefix (text "Bearer ")))
            unauthorized)
          _ principal h3 in
      let (_, accepted, h5) =
        bind-ok (refuse (not (accepts ct_eq auth.bearers (as_bytes bearer))) unauthorized) _
          principal h4 in
      let (identity, identified, h6) =
        bind-ok (ok_or (text_of headers.identity) unauthorized) _ principal h5 in
      record {
        host = host;
        bearer = bearer;
        identity = identity;
        hosted =
            text_lem headers.host host (ok_or-ok (text_of headers.host) unauthorized host hosted);
        allowed = not-false _ (
            refuse-ok
              (not (any (λ allowed. str_eq allowed (to_ascii_lowercase host)) auth.allowed_hosts))
              unauthorized tt listed);
        origin = origin_lem headers.origin from;
        authorized = bearer_lem headers.authorization bearer (ok_or-ok _ unauthorized bearer given);
        accepted = not-false _ (
            refuse-ok (not (accepts ct_eq auth.bearers (as_bytes bearer))) unauthorized tt
              accepted);
        identified =
            text_lem headers.identity identity
              (ok_or-ok (text_of headers.identity) unauthorized identity identified);
        verified = verified_lem (verify identity) principal h6;
      }
