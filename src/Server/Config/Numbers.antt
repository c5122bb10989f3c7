-- ===== src/Server/Config/Numbers.antt =====
-- crates/komodo-server/src/config.rs: `parse_number_value`, with `from_str` of Rust's unsigned integers,
-- whose largest value is an argument.
use mcp_komodo_rs.Prelude.{
  map_err, ℕ, ◌≤◌, ◌≡◌, ◌||◌, ltb, Option, some, none, Result, ok, ◌>>=◌, ◌>>◌, refuse, arith,
  Bool-cases, Result-cases, inl, inr,
}
use mcp_komodo_rs.Prelude.Numbers.{parse}
use mcp_komodo_rs.Prelude.Text.{Text, text}
use mcp_komodo_rs.Api.Errors.{ApiError}
use mcp_komodo_rs.Server.Auth.Bearers.{AuthConfigError}

pub data SettingsError : Type 0 where
  missing : Text → SettingsError
  invalid : Text → Text → SettingsError
  secret_environment : Text → SettingsError
  auth : AuthConfigError → SettingsError
  api : ApiError → SettingsError

-- `raw.map_or(Ok(default), …)`
unfoldable pub given_or : Text → ℕ → Option Text → ℕ → Result SettingsError ℕ
given_or variable largest none default = ok default
given_or variable largest (some raw) default = map_err (invalid variable) (parse largest raw)

unfoldable pub parse_number_value : Text → ℕ → Option Text → ℕ → ℕ → ℕ → Result SettingsError ℕ
parse_number_value variable largest raw default minimum maximum = do
  value ← given_or variable largest raw default
  refuse (ltb value minimum || ltb maximum value)
      (invalid variable (text "value is outside the supported range"))
  ok value

-- A number is only given within its bounds.
pub parse_number_value_bounds :
    (variable : Text) (largest : ℕ) (raw : Option Text) (default minimum maximum value : ℕ)
    → parse_number_value variable largest raw default minimum maximum ≡ ok value
    → (minimum ≤ value) × (value ≤ maximum)
unfolding parse_number_value
parse_number_value_bounds variable largest raw default minimum maximum value h =
    elim (Result-cases (given_or variable largest raw default)) [
      | inr (error, e) ↦ absurd (cc (rw e at h))
      | inl (given, e) ↦ elim (Bool-cases (ltb given minimum || ltb maximum given)) [
        | inl outside ↦ absurd (cc (rw (e, outside) at h))
        | inr inside ↦ let same : given ≡ value = cc (rw (e, inside) at h) in ground arith
      ]
    ]
