-- ===== src/Server/Auth/Examples.antt =====
-- crates/komodo-server/src/auth.rs: the authentication on concrete data.
use mcp_komodo_rs.Prelude.{
  ℕ, ◌≡◌, refl, ◌↔◌, Bool, subst, if◌then◌else◌, true, false, ◌==◌, ◌&&◌, Option, some, none, List,
  [], ◌∷◌, is_empty, Result, ok, err, arith,
}
use mcp_komodo_rs.Prelude.Text.{Text, text, as_bytes, str_eq, to_ascii_lowercase, strip_prefix, len}
use mcp_komodo_rs.Server.Auth.Bearers.{
  GatewayBearers, ComparesSlices, validate_bearer, constant_time_equal, from_protected, accepts,
  IsRotation, IsOneOf, accepts_iff,
}
use mcp_komodo_rs.Server.Auth.Claims.{
  IdentityClaims, IdentityPrincipal, IdentityError, IsTimely, is_untimely, is_oversized,
  verify_claims, verify_claims_sound, unavailable,
}
use mcp_komodo_rs.Server.Auth.Keys.{
  KeyCache, KeyCall, fetch_times, IsSpaced, fetch_times-IsSpaced, cached_key, fetch, key,
}
use mcp_komodo_rs.Server.Auth.Ingress.{
  IngressAuth, Headers, IsAuthentic, authenticate, authenticate_sound, check_origin,
}

abbrev pub same_bytes : List ℕ → List ℕ → Bool
same_bytes [] [] = true
same_bytes [] (y ∷ ys) = false
same_bytes (x ∷ xs) [] = false
same_bytes (x ∷ xs) (y ∷ ys) = x == y && same_bytes xs ys

same_bytes_sound : (xs ys : List ℕ) → same_bytes xs ys ≡ true → xs ≡ ys
same_bytes_sound [] [] h = refl
same_bytes_sound [] (y ∷ ys) h = cc h
same_bytes_sound (x ∷ xs) [] h = cc h
same_bytes_sound (x ∷ xs) (y ∷ ys) h =
    let heads : x ≡ y = ground arith in
    let tails : xs ≡ ys = same_bytes_sound xs ys (ground arith) in cc (heads, tails)

same_bytes_refl : (xs : List ℕ) → same_bytes xs xs ≡ true
same_bytes_refl [] = refl
same_bytes_refl (x ∷ xs) = ground (arith, same_bytes_refl xs)

pub same_bytes-ComparesSlices : ComparesSlices same_bytes
same_bytes-ComparesSlices = record {
  ct_eq_iff = λ x y _.
      (same_bytes_sound x y, λ e. subst (λ c. same_bytes x c ≡ true) e (same_bytes_refl x));
}

abbrev first_bearer : Text
first_bearer = text "current-bearer-with-enough-bytes-0"

abbrev last_bearer : Text
last_bearer = text "previous-bearer-with-enough-bytes-0"

abbrev rotation : GatewayBearers
rotation = record { current = first_bearer; previous = some last_bearer }

accepts_iff_example :
    IsRotation first_bearer (some last_bearer)
    × ((accepts same_bytes rotation (as_bytes last_bearer) ≡ true)
        ↔ IsOneOf first_bearer (some last_bearer) (as_bytes last_bearer))
unfolding from_protected validate_bearer constant_time_equal
accepts_iff_example =
    accepts_iff same_bytes same_bytes-ComparesSlices first_bearer (some last_bearer) rotation
      (as_bytes last_bearer) refl

abbrev claims : IdentityClaims
claims = record {
  sub = text "alice";
  iat = 1000;
  exp = 1200;
  groups = text "operators" ∷ [];
  actor = text "gateway";
}

abbrev alice : IdentityPrincipal
alice = record { subject = text "alice"; groups = text "operators" ∷ [] }

verify_claims_sound_example :
    (claims.actor ≡ text "gateway")
    × IsTimely claims 1100
    × (is_empty claims.sub ≡ false)
    × (alice ≡ record { subject = claims.sub; groups = claims.groups })
unfolding verify_claims is_untimely is_oversized str_eq len
verify_claims_sound_example = verify_claims_sound (text "gateway") claims 1100 alice refl

-- The keys are their ids.
abbrev find : List Text → Text → Option Text
find [] key_id = none
find (k ∷ keys) key_id = let rest = find keys key_id in if str_eq k key_id then some k else rest

abbrev calls : List (KeyCall (List Text))
calls =
    record {
      key_id = text "a";
      seen = none;
      first_look = 1;
      second_look = 2;
      now = 3;
      fetched_at = 5;
      fetched = ok (text "a" ∷ []);
    }
    ∷ record {
      key_id = text "b";
      seen = none;
      first_look = 6;
      second_look = 7;
      now = 8;
      fetched_at = 9;
      fetched = err unavailable;
    }
    ∷ []

abbrev no_keys : KeyCache (List Text)
no_keys = record { cache = none; refresh = none }

fetch_times-IsSpaced_example :
    IsSpaced find 60_000_000_000 no_keys.refresh (fetch_times find 60_000_000_000 calls no_keys)
fetch_times-IsSpaced_example = fetch_times-IsSpaced find 60_000_000_000 calls no_keys

calls_test : fetch_times find 60_000_000_000 calls no_keys ≡ 3 ∷ []
unfolding fetch_times key fetch cached_key str_eq
calls_test = refl

abbrev verify : Text → Result IdentityError IdentityPrincipal
verify token = ok alice

abbrev ingress : IngressAuth
ingress = record {
  bearers = rotation;
  allowed_hosts = text "komodo.example" ∷ [];
  allowed_origins = [];
}

abbrev headers : Headers
headers = record {
  host = some (some (text "Komodo.Example"));
  origin = none;
  authorization = some (some (text "Bearer previous-bearer-with-enough-bytes-0"));
  identity = some (some (text "token"));
}

authenticate_sound_example : IsAuthentic same_bytes verify ingress headers alice
unfolding authenticate accepts constant_time_equal check_origin str_eq to_ascii_lowercase
    strip_prefix
authenticate_sound_example = authenticate_sound same_bytes verify ingress headers alice refl
