-- ===== src/Api/Client/Address.antt =====
-- crates/komodo-api/src/lib.rs: `validate_base_url` and the checks of `Client::new`. The accessors of a
-- URL are an argument.
use mcp_komodo_rs.Prelude.{
  ℕ, ◌*◌, Bool, false, not, ◌||◌, ltb, ◌==◌, if◌then◌else◌, [], any, is_empty, is_some, Option,
  some, none, Result, ok, ◌>>◌, refuse,
}
use mcp_komodo_rs.Prelude.Text.{Text, text, str_eq}
use mcp_komodo_rs.Api.Credentials.{Credentials}
use mcp_komodo_rs.Api.Errors.{ApiError, invalid_configuration}
use mcp_komodo_rs.Api.Client.Http.{Client}

-- url::Host, with what the standard library says of an address.
pub data Host : Type 0 where
  ipv4 : Bool → Bool → Host
  ipv6 : Bool → Bool → Host
  domain : Text → Host

pub record Parts : Type 0 where
  pub cannot_be_a_base : Bool
  pub username : Text
  pub password : Option Text
  pub query : Option Text
  pub fragment : Option Text
  pub path : Text
  pub scheme : Text
  pub host : Option Host

-- `ipv4 is_private is_loopback`, `ipv6 is_loopback is_unique_local`
unfoldable pub is_private : Option Host → Bool
is_private none = false
is_private (some (ipv4 private loopback)) = private || loopback
is_private (some (ipv6 loopback unique_local)) = loopback || unique_local
is_private (some (domain name)) = str_eq name (text "localhost") || not (any (λ c. c == b'.') name)

-- The first condition of `validate_base_url`.
unfoldable pub has_extra_parts : Parts → Bool
has_extra_parts url =
    url.cannot_be_a_base
    || (not (is_empty url.username)
        || (is_some url.password
            || (is_some url.query
                || (is_some url.fragment
                    || not (str_eq url.path [] || str_eq url.path (text "/"))))))

unfoldable pub validate_base_url : Parts → Result ApiError (Unit {0})
unfolding has_extra_parts is_private
validate_base_url url = do
  refuse (has_extra_parts url) (invalid_configuration (text "base URL"))
  if str_eq url.scheme (text "https")
      then ok tt
      else (refuse (not (str_eq url.scheme (text "http")))
            (invalid_configuration (text "base URL scheme"))
          >> refuse (not (is_private url.host))
              (invalid_configuration (text "plaintext Komodo address")))

abbrev pub maximum_timeout : ℕ
maximum_timeout = 2 * 60 * 1_000_000_000

-- Client::new, where `builds` says whether the HTTP client can be made.
unfoldable pub new :
    {Url : Type 0} → (Url → Parts) → Bool → Url → Credentials → ℕ → Result ApiError (Client Url)
unfolding validate_base_url
new parts builds base_url credentials timeout = do
  validate_base_url (parts base_url)
  refuse (timeout == 0 || ltb maximum_timeout timeout)
      (invalid_configuration (text "request timeout"))
  refuse (not builds) (invalid_configuration (text "HTTP client"))
  ok (record { base_url = base_url; credentials = credentials })
