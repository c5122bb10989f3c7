-- ===== src/Server/Config/Settings.antt =====
-- crates/komodo-server/src/config.rs: `ReadSettings`, `ListenerSettings` and `Settings`. The type of
-- URLs and their parser are those of the crate url. Durations are in nanoseconds.
use mcp_komodo_rs.Prelude.{
  map_err, ℕ, ◌-◌, ◌*◌, ◌^◌, Bool, Option, unwrap_or, List, [], Result, ok, ◌>>=◌,
}
use mcp_komodo_rs.Prelude.Text.{Text, text}
use mcp_komodo_rs.Api.Credentials
use mcp_komodo_rs.Api.Credentials.{Credentials}
use mcp_komodo_rs.Server.Auth.Bearers
use mcp_komodo_rs.Server.Auth.Bearers.{GatewayBearers}
use mcp_komodo_rs.Server.Config.Numbers.{SettingsError, invalid, auth, api}
use mcp_komodo_rs.Server.Config.Environment.{
  listener_from_environment, included_credentials, Environment, get_ok, parse_csv, required_secret,
  optional_secret, required, required_unmodified, value_or, parse_number,
}

abbrev pub seconds : ℕ → ℕ
seconds n = n * 1_000_000_000

pub record ReadSettings (Url : Type 0) : Type 0 where
  pub upstream_url : Url
  pub upstream_timeout : ℕ
  pub credentials : Credentials

-- crates/komodo-server/src/auth.rs
pub record IdentityVerifierSettings (Url : Type 0) : Type 0 where
  pub jwks_url : Url
  pub issuer : Text
  pub actor : Text
  pub request_timeout : ℕ
  pub cache_ttl : ℕ

pub record Settings (Url : Type 0) : Type 0 where
  pub host : Text
  pub port : ℕ
  pub log_level : Text
  pub upstream_url : Url
  pub upstream_timeout : ℕ
  pub read_credentials : Credentials
  pub admin_credentials : Option Credentials
  pub allowed_hosts : List Text
  pub allowed_origins : List Text
  pub request_timeout : ℕ
  pub max_concurrent_requests : ℕ
  pub max_body_bytes : ℕ
  pub bearers : GatewayBearers
  pub identity : IdentityVerifierSettings Url

module _ {Url : Type 0} (parse : Text → Result Text Url) (ct_eq : List ℕ → List ℕ → Bool) where
  unfoldable pub parse_url : Text → Text → Result SettingsError Url
  parse_url variable value = map_err (invalid variable) (parse value)

  module _ (environment : Environment) where
    -- ReadSettings::from_environment
    unfoldable pub read_from_environment : Result SettingsError (ReadSettings Url)
    read_from_environment = do
      key ← required_secret environment (text "KOMODO_MCP_READ_API_KEY")
      secret ← required_secret environment (text "KOMODO_MCP_READ_API_SECRET")
      credentials ← map_err api (Credentials.from_protected key secret)
      upstream_url ←
          parse_url (text "KOMODO_MCP_UPSTREAM_URL")
            (value_or environment (text "KOMODO_MCP_UPSTREAM_URL") (text "http://core:9120/"))
      upstream_timeout ←
          parse_number environment (text "KOMODO_MCP_UPSTREAM_TIMEOUT_SECONDS") (2 ^ 64 - 1) 20 1
            120
      ok (record {
        upstream_url = upstream_url;
        upstream_timeout = seconds upstream_timeout;
        credentials = credentials;
      })

    unfoldable pub from_environment_with_admin : Bool → Result SettingsError (Settings Url)
    from_environment_with_admin include_admin = do
      listener ← listener_from_environment environment
      read ← read_from_environment
      admin_credentials ← included_credentials environment include_admin
      current ← required_secret environment (text "KOMODO_MCP_GATEWAY_BEARER_CURRENT")
      previous ← optional_secret environment (text "KOMODO_MCP_GATEWAY_BEARER_PREVIOUS")
      jwks_address ← required environment (text "KOMODO_MCP_IDENTITY_JWKS_URL")
      jwks_url ← parse_url (text "KOMODO_MCP_IDENTITY_JWKS_URL") jwks_address
      request_timeout ←
          parse_number environment (text "KOMODO_MCP_REQUEST_TIMEOUT_SECONDS") (2 ^ 64 - 1) 30 1 120
      max_concurrent_requests ←
          parse_number environment (text "KOMODO_MCP_MAX_CONCURRENT_REQUESTS") (2 ^ 64 - 1) 32 1 256
      max_body_bytes ←
          parse_number environment (text "KOMODO_MCP_MAX_BODY_BYTES") (2 ^ 64 - 1) (1024 * 1024)
            1024 (4 * 1024 * 1024)
      bearers ← map_err auth (Bearers.from_protected ct_eq current previous)
      issuer ← required environment (text "KOMODO_MCP_IDENTITY_ISSUER")
      actor ← required_unmodified environment (text "KOMODO_MCP_IDENTITY_ACTOR")
      ok (record {
        host = listener.host;
        port = listener.port;
        log_level = value_or environment (text "KOMODO_MCP_LOG_LEVEL") (text "info");
        upstream_url = read.upstream_url;
        upstream_timeout = read.upstream_timeout;
        read_credentials = read.credentials;
        admin_credentials = admin_credentials;
        allowed_hosts = parse_csv (
            value_or environment (text "KOMODO_MCP_ALLOWED_HOSTS")
              (text "komodo-mcp,komodo-mcp:8000,localhost,127.0.0.1"));
        allowed_origins =
            parse_csv (unwrap_or (get_ok (environment (text "KOMODO_MCP_ALLOWED_ORIGINS"))) []);
        request_timeout = seconds request_timeout;
        max_concurrent_requests = max_concurrent_requests;
        max_body_bytes = max_body_bytes;
        bearers = bearers;
        identity = record {
          jwks_url = jwks_url;
          issuer = issuer;
          actor = actor;
          request_timeout = seconds 3;
          cache_ttl = seconds (5 * 60);
        };
      })
