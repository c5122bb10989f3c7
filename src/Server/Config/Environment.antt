-- ===== src/Server/Config/Environment.antt =====
-- crates/komodo-server/src/config.rs: how the variables of the environment are read.
use mcp_komodo_rs.Prelude.{
  map_err, ℕ, ◌*◌, ◌^◌, ◌-◌, Bool, true, false, not, ◌||◌, ltb, if◌then◌else◌, Option, some, none,
  unwrap_or, List, map, retain, is_empty, Result, ok, err, ◌>>=◌, ◌>>◌, refuse, ok_or,
}
use mcp_komodo_rs.Prelude.Text.{split, Text, text, len, trim, to_ascii_lowercase}
use mcp_komodo_rs.Api.Credentials
use mcp_komodo_rs.Api.Credentials.{Credentials}
use mcp_komodo_rs.Server.Config.Numbers.{
  SettingsError, missing, secret_environment, api, parse_number_value,
}

abbrev pub maximum_secret_bytes : ℕ
maximum_secret_bytes = 16 * 1024

-- env::VarError
pub data VarError : Type 0 where
  not_present not_unicode : VarError

-- What `env::var` gives for each variable.
abbrev pub Environment : Type 0
Environment = Text → Result VarError Text

abbrev pub get_ok : {E A : Type 0} → Result E A → Option A
get_ok (ok a) = some a
get_ok (err e) = none

abbrev pub admin_key : Text
admin_key = text "KOMODO_MCP_ADMIN_API_KEY"

abbrev pub admin_secret : Text
admin_secret = text "KOMODO_MCP_ADMIN_API_SECRET"

unfoldable pub validate_secret : Text → Text → Result SettingsError Text
unfolding len
validate_secret variable value = do
  refuse (is_empty value || ltb maximum_secret_bytes (len value)) (secret_environment variable)
  ok value

unfoldable pub parse_csv : Text → List Text
unfolding split trim to_ascii_lowercase
parse_csv value =
    map to_ascii_lowercase (retain (λ value. not (is_empty value)) (map trim (split b',' value)))

-- The match of `optional_secret`.
unfoldable pub given_secret : Text → Result VarError Text → Result SettingsError (Option Text)
given_secret variable (err not_present) = ok none
given_secret variable (err not_unicode) = err (secret_environment variable)
given_secret variable (ok value) =
    if is_empty value
    then ok none
    else (validate_secret variable value >>= λ value. ok (some value))

-- The match of `administrative_credentials`.
unfoldable pub credential_pair :
    Option Text → Option Text → Result SettingsError (Option Credentials)
credential_pair none none = ok none
credential_pair (some key) (some secret) = do
  credentials ← map_err api (Credentials.from_protected key secret)
  ok (some credentials)
credential_pair none (some secret) = err (missing admin_key)
credential_pair (some key) none = err (missing admin_secret)

abbrev pub not_blank : Option Text → Option Text
not_blank none = none
not_blank (some value) = if is_empty value then none else some value

pub record ListenerSettings : Type 0 where
  pub host : Text
  pub port : ℕ

module _ (environment : Environment) where
  unfoldable pub required_secret : Text → Result SettingsError Text
  required_secret variable = do
    value ← map_err (λ _. secret_environment variable) (environment variable)
    validate_secret variable value

  unfoldable pub optional_secret : Text → Result SettingsError (Option Text)
  unfolding given_secret
  optional_secret variable = given_secret variable (environment variable)

  unfoldable pub administrative_credentials : Result SettingsError (Option Credentials)
  administrative_credentials = do
    key ← optional_secret admin_key
    secret ← optional_secret admin_secret
    credential_pair key secret

  unfoldable pub optional : Text → Option Text
  unfolding trim
  optional variable = elim (environment variable) [
    | err _ ↦ none
    | ok value ↦ not_blank (some (trim value))
  ]

  unfoldable pub required : Text → Result SettingsError Text
  required variable = ok_or (optional variable) (missing variable)

  unfoldable pub required_unmodified : Text → Result SettingsError Text
  required_unmodified variable = map_err (λ _. missing variable) (environment variable)

  unfoldable pub value_or : Text → Text → Text
  value_or variable default = unwrap_or (optional variable) default

  unfoldable pub parse_number : Text → ℕ → ℕ → ℕ → ℕ → Result SettingsError ℕ
  parse_number variable largest default minimum maximum =
      parse_number_value variable largest (optional variable) default minimum maximum

  unfoldable pub listener_from_environment : Result SettingsError ListenerSettings
  listener_from_environment = do
    port ← parse_number (text "KOMODO_MCP_PORT") (2 ^ 16 - 1) 8000 1 (2 ^ 16 - 1)
    ok (record { host = value_or (text "KOMODO_MCP_HOST") (text "0.0.0.0"); port = port })

  -- `if include_admin { administrative_credentials(environment)? } else { None }`
  unfoldable pub included_credentials : Bool → Result SettingsError (Option Credentials)
  included_credentials true = administrative_credentials
  included_credentials false = ok none
