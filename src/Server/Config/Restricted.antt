-- ===== src/Server/Config/Restricted.antt =====
-- crates/komodo-server/src/config.rs: `Settings::read_only_from_env` does not read the credentials of the
-- administrative client.
use mcp_komodo_rs.Prelude.{
  map_err, ℕ, ◌≡◌, refl, ap, sym, ◌∙◌, Bool, false, if◌then◌else◌, none, List, Result, ok,
  bind_elim, ok_inj,
}
use mcp_komodo_rs.Prelude.Text.{Text, str_eq}
use mcp_komodo_rs.Server.Auth.Bearers
use mcp_komodo_rs.Server.Config.Numbers.{auth}
use mcp_komodo_rs.Server.Config.Environment.{
  Environment, VarError, admin_key, admin_secret, required_secret, optional_secret, required,
  required_unmodified, optional, value_or, parse_number, listener_from_environment,
  included_credentials,
}
use mcp_komodo_rs.Server.Config.Settings.{
  Settings, parse_url, read_from_environment, from_environment_with_admin,
}

-- The environment with other administrative credentials.
abbrev pub with_admin : Result VarError Text → Result VarError Text → Environment → Environment
with_admin key secret environment variable =
    if str_eq variable admin_key
    then key
    else if str_eq variable admin_secret
    then secret
    else environment variable

module _ {Url : Type 0} (parse : Text → Result Text Url) (ct_eq : List ℕ → List ℕ → Bool) where
  same_lem :
      (environment : Environment) (key secret : Result VarError Text)
      → from_environment_with_admin parse ct_eq (with_admin key secret environment) false
        ≡ from_environment_with_admin parse ct_eq environment false
  unfolding from_environment_with_admin listener_from_environment read_from_environment
      included_credentials required_secret optional_secret required required_unmodified optional
      value_or parse_number str_eq
  same_lem environment key secret = refl

  none_lem :
      (environment : Environment) (s : Settings Url)
      → from_environment_with_admin parse ct_eq environment false ≡ ok s
      → s.admin_credentials ≡ none
  unfolding from_environment_with_admin included_credentials
  none_lem environment s h = bind_elim (listener_from_environment environment) h λ listener _ h.
      bind_elim (read_from_environment parse ct_eq environment) h λ read _ h.
        bind_elim (required_secret environment _) h λ current _ h.
          bind_elim (optional_secret environment _) h λ previous _ h.
            bind_elim (required environment _) h λ address _ h.
              bind_elim (parse_url parse ct_eq _ address) h λ jwks_url _ h.
                bind_elim (parse_number environment _ _ _ _ _) h λ request_timeout _ h.
                  bind_elim (parse_number environment _ _ _ _ _) h λ concurrency _ h.
                    bind_elim (parse_number environment _ _ _ _ _) h λ body _ h.
                      bind_elim (map_err auth (Bearers.from_protected ct_eq current previous)) h
                        λ bearers _ h. bind_elim (required environment _) h λ issuer _ h.
                          bind_elim (required_unmodified environment _) h λ actor _ h.
                            sym (ap (λ (t : Settings Url). t.admin_credentials) (ok_inj _ s h))

  -- Settings that are loaded for reading have no administrative credentials, and are the same whatever
  -- the environment says of these, also where it holds values that loading them would refuse.
  pub read_only_ignores_admin :
      (environment : Environment) (key secret : Result VarError Text) (s : Settings Url)
      → from_environment_with_admin parse ct_eq environment false ≡ ok s
      → (s.admin_credentials ≡ none)
        × (from_environment_with_admin parse ct_eq (with_admin key secret environment) false ≡ ok s)
  read_only_ignores_admin environment key secret s h =
      (none_lem environment s h, same_lem environment key secret ∙ h)
