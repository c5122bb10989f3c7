-- ===== src/Server/Config/Examples.antt =====
-- crates/komodo-server/src/config.rs: the settings of a concrete environment. A URL is its text.
use mcp_komodo_rs.Prelude.{
  ◌≡◌, refl, ◌*◌, true, false, Option, some, none, [], ◌∷◌, Result, ok, err,
}
use mcp_komodo_rs.Prelude.Text.{Text, text, str_eq, len, trim, to_ascii_lowercase}
use mcp_komodo_rs.Prelude.Dict.{Dict, get}
use mcp_komodo_rs.Api.Credentials
use mcp_komodo_rs.Server.Auth.Bearers
use mcp_komodo_rs.Server.Auth.Bearers.{validate_bearer, constant_time_equal}
use mcp_komodo_rs.Server.Auth.Examples.{same_bytes, same_bytes-ComparesSlices}
use mcp_komodo_rs.Prelude.Numbers.{parse, pos_overflow}
use mcp_komodo_rs.Server.Config.Numbers.{parse_number_value, given_or}
use mcp_komodo_rs.Server.Config.Environment.{
  Environment, not_present, not_unicode, validate_secret, parse_csv, required_secret,
  optional_secret, credential_pair, administrative_credentials, required, required_unmodified,
  optional, value_or, parse_number, listener_from_environment, included_credentials,
}
use mcp_komodo_rs.Server.Config.Settings.{
  seconds, Settings, parse_url, read_from_environment, from_environment_with_admin,
}
use mcp_komodo_rs.Server.Config.Bounds.{IsConfigured, settings_bounds}
use mcp_komodo_rs.Server.Config.Restricted.{with_admin, read_only_ignores_admin}

abbrev variables : Dict Text
variables =
    (text "KOMODO_MCP_READ_API_KEY", text "read-key")
    ∷ (text "KOMODO_MCP_READ_API_SECRET", text "read-secret")
    ∷ (text "KOMODO_MCP_ADMIN_API_KEY", text "admin-key")
    ∷ (text "KOMODO_MCP_ADMIN_API_SECRET", text "admin-secret")
    ∷ (text "KOMODO_MCP_GATEWAY_BEARER_CURRENT", text "current-bearer-with-enough-bytes-0")
    ∷ (text "KOMODO_MCP_IDENTITY_JWKS_URL", text "https://identity.example/jwks")
    ∷ (text "KOMODO_MCP_IDENTITY_ISSUER", text " https://identity.example ")
    ∷ (text "KOMODO_MCP_IDENTITY_ACTOR", text "gateway")
    ∷ (text "KOMODO_MCP_ALLOWED_HOSTS", text "Komodo.Example, ,localhost")
    ∷ (text "KOMODO_MCP_PORT", text "+9000")
    ∷ []

abbrev environment : Environment
environment variable = elim (get variable variables) [
  | none ↦ err not_present
  | some value ↦ ok value
]

abbrev as_url : Text → Result Text Text
as_url value = ok value

abbrev settings : Option Credentials.Credentials → Settings Text
settings admin = record {
  host = text "0.0.0.0";
  port = 9000;
  log_level = text "info";
  upstream_url = text "http://core:9120/";
  upstream_timeout = seconds 20;
  read_credentials = record { key = text "read-key"; secret = text "read-secret" };
  admin_credentials = admin;
  allowed_hosts = text "komodo.example" ∷ text "localhost" ∷ [];
  allowed_origins = [];
  request_timeout = seconds 30;
  max_concurrent_requests = 32;
  max_body_bytes = 1024 * 1024;
  bearers = record { current = text "current-bearer-with-enough-bytes-0"; previous = none };
  identity = record {
    jwks_url = text "https://identity.example/jwks";
    issuer = text "https://identity.example";
    actor = text "gateway";
    request_timeout = seconds 3;
    cache_ttl = seconds 300;
  };
}

abbrev administrator : Credentials.Credentials
administrator = record { key = text "admin-key"; secret = text "admin-secret" }

loaded :
    from_environment_with_admin as_url same_bytes environment true
    ≡ ok (settings (some administrator))
unfolding from_environment_with_admin listener_from_environment read_from_environment
    included_credentials required_secret optional_secret required required_unmodified optional
    value_or parse_number str_eq get validate_secret len parse_number_value given_or parse parse_csv
    to_ascii_lowercase trim administrative_credentials credential_pair Credentials.from_protected
    Bearers.from_protected validate_bearer constant_time_equal parse_url
loaded = refl

loaded_read_only :
    from_environment_with_admin as_url same_bytes environment false ≡ ok (settings none)
unfolding from_environment_with_admin listener_from_environment read_from_environment
    included_credentials required_secret optional_secret required required_unmodified optional
    value_or parse_number str_eq get validate_secret len parse_number_value given_or parse parse_csv
    to_ascii_lowercase trim Credentials.from_protected Bearers.from_protected validate_bearer
    constant_time_equal parse_url
loaded_read_only = refl

settings_bounds_example : IsConfigured as_url same_bytes (settings (some administrator))
settings_bounds_example =
    settings_bounds as_url same_bytes same_bytes-ComparesSlices environment true
      (settings (some administrator)) loaded

read_only_ignores_admin_example :
    ((settings none).admin_credentials ≡ none)
    × (from_environment_with_admin as_url same_bytes
          (with_admin (err not_unicode) (ok (text "line\nbreak")) environment)
          false
        ≡ ok (settings none))
read_only_ignores_admin_example =
    read_only_ignores_admin as_url same_bytes environment (err not_unicode)
      (ok (text "line\nbreak")) (settings none) loaded_read_only

-- One more than the largest port, and a value below the least body.
overflows : parse 65_535 (text "65536") ≡ err pos_overflow
unfolding parse
overflows = refl
