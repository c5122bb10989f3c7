-- ===== src/Server/Config/Bounds.antt =====
-- crates/komodo-server/src/config.rs: the bounds that the settings keep to.
use mcp_komodo_rs.Prelude.{
  map_err, ℕ, ◌^◌, ◌-◌, ◌≤◌, ◌≡◌, refl, ap, sym, subst, ◌∙◌, Bool, true, false, ◌||◌, ltb, Option,
  some, none, List, is_empty, Result, ok, err, bind-ok, bind_elim, ok_inj, bind_elim, arith,
  Bool-cases, inl, inr,
}
use mcp_komodo_rs.Prelude.Text.{Text, text, len}
use mcp_komodo_rs.Api.Credentials
use mcp_komodo_rs.Api.Credentials.{Credentials, is_unusable, from_protected_sound}
use mcp_komodo_rs.Server.Auth.Bearers
use mcp_komodo_rs.Server.Auth.Bearers.{
  GatewayBearers, ComparesSlices, IsRotation, from_protected-IsRotation,
}
use mcp_komodo_rs.Server.Config.Numbers.{secret_environment, auth, api, parse_number_value_bounds}
use mcp_komodo_rs.Server.Config.Environment.{
  Environment, maximum_secret_bytes, validate_secret, required, required_unmodified,
  required_secret, optional_secret, given_secret, credential_pair, administrative_credentials,
  admin_key, admin_secret, VarError, not_present, not_unicode, parse_number, optional,
  ListenerSettings, listener_from_environment, included_credentials,
}
use mcp_komodo_rs.Server.Config.Settings.{
  seconds, ReadSettings, Settings, read_from_environment, from_environment_with_admin, parse_url,
}

-- A credential that a header can carry, of at most 16 KiB.
abbrev pub IsUsable : Text → Type 0
IsUsable value = (is_unusable value ≡ false) × (len value ≤ maximum_secret_bytes)

abbrev pub AreUsable : Credentials → Type 0
AreUsable credentials = IsUsable credentials.key × IsUsable credentials.secret

abbrev pub AreUsableIfAny : Option Credentials → Type 0
AreUsableIfAny none = Unit
AreUsableIfAny (some credentials) = AreUsable credentials

abbrev pub IsWithin : ℕ → ℕ → ℕ → Type 0
IsWithin minimum maximum value = (minimum ≤ value) × (value ≤ maximum)

pub map_err-ok :
    {D E A : Type 0} (f : D → E) (r : Result D A) (a : A) → map_err f r ≡ ok a → r ≡ ok a
map_err-ok f (ok b) a h = cc h
map_err-ok f (err d) a h = cc h

validate_secret_sound :
    (variable value given : Text)
    → validate_secret variable value ≡ ok given
    → (value ≡ given) × (len given ≤ maximum_secret_bytes)
unfolding validate_secret
validate_secret_sound variable value given h =
    elim (Bool-cases (is_empty value || ltb maximum_secret_bytes (len value))) [
      | inl bad ↦ absurd (cc (rw bad at h))
      | inr good ↦
          let same : value ≡ given = cc (rw good at h) in (same, ground (arith, ap len same))
    ]

module _ (environment : Environment) where
  required_secret_sound :
      (variable value : Text)
      → required_secret environment variable ≡ ok value
      → len value ≤ maximum_secret_bytes
  unfolding required_secret
  required_secret_sound variable value h =
      let (given, _, valid) =
        bind-ok (map_err (λ _. secret_environment variable) (environment variable)) _ value h in
      (validate_secret_sound variable given value valid).1

  given_secret_sound :
      (variable : Text) (r : Result VarError Text) (value : Text)
      → given_secret variable r ≡ ok (some value)
      → len value ≤ maximum_secret_bytes
  unfolding given_secret
  given_secret_sound variable (err not_present) value h = absurd (cc h)
  given_secret_sound variable (err not_unicode) value h = cc h
  given_secret_sound variable (ok given) value h = elim (Bool-cases (is_empty given)) [
    | inl blank ↦ absurd (cc (rw blank at h))
    | inr filled ↦
        let (v, valid, e) =
          bind-ok (validate_secret variable given) _ (some value) (rw filled at h) in
        let same : v ≡ value = cc e in
        subst (λ w. len w ≤ maximum_secret_bytes) same
          (validate_secret_sound variable given v valid).1
  ]

  optional_secret_sound :
      (variable value : Text)
      → optional_secret environment variable ≡ ok (some value)
      → len value ≤ maximum_secret_bytes
  unfolding optional_secret
  optional_secret_sound variable value h =
      given_secret_sound variable (environment variable) value h

  made_sound :
      (key secret : Text) (credentials : Credentials)
      → len key ≤ maximum_secret_bytes
      → len secret ≤ maximum_secret_bytes
      → map_err api (Credentials.from_protected key secret) ≡ ok credentials
      → AreUsable credentials
  made_sound key secret credentials short_key short_secret made =
      let (first, last, e) =
        from_protected_sound key secret credentials (map_err-ok api _ credentials made) in
      subst (λ (c : Credentials). AreUsable c) (sym e) ((first, short_key), (last, short_secret))

  credential_pair_sound :
      (key secret : Option Text) (credentials : Option Credentials)
      → ((k : Text) → key ≡ some k → len k ≤ maximum_secret_bytes)
      → ((s : Text) → secret ≡ some s → len s ≤ maximum_secret_bytes)
      → credential_pair key secret ≡ ok credentials
      → AreUsableIfAny credentials
  unfolding credential_pair
  credential_pair_sound none none credentials short_key short_secret h =
      let e : none ≡ credentials = cc h in subst AreUsableIfAny e tt
  credential_pair_sound (some key) none credentials short_key short_secret h = absurd (cc h)
  credential_pair_sound none (some secret) credentials short_key short_secret h = absurd (cc h)
  credential_pair_sound (some key) (some secret) credentials short_key short_secret h =
      let (made, e, rest) =
        bind-ok (map_err api (Credentials.from_protected key secret)) _ credentials h in
      let same : some made ≡ credentials = cc rest in
      subst AreUsableIfAny same
        (made_sound key secret made (short_key key refl) (short_secret secret refl) e)

  included_sound :
      (include_admin : Bool) (credentials : Option Credentials)
      → included_credentials environment include_admin ≡ ok credentials
      → AreUsableIfAny credentials
  unfolding included_credentials administrative_credentials
  included_sound false credentials h =
      let e : none ≡ credentials = cc h in subst AreUsableIfAny e tt
  included_sound true credentials h =
      let (key, first, h1) = bind-ok (optional_secret environment admin_key) _ credentials h in
      let (secret, last, h2) =
        bind-ok (optional_secret environment admin_secret) _ credentials h1 in
      credential_pair_sound key secret credentials
        (λ k e. optional_secret_sound admin_key k (first ∙ ap ok e))
        (λ s e. optional_secret_sound admin_secret s (last ∙ ap ok e)) h2

  number_bounds :
      (variable : Text) (largest default minimum maximum value : ℕ)
      → parse_number environment variable largest default minimum maximum ≡ ok value
      → IsWithin minimum maximum value
  unfolding parse_number
  number_bounds variable largest default minimum maximum value h =
      parse_number_value_bounds variable largest (optional environment variable) default minimum
        maximum value h

  listener_sound :
      (listener : ListenerSettings)
      → listener_from_environment environment ≡ ok listener
      → IsWithin 1 65_535 listener.port
  unfolding listener_from_environment
  listener_sound listener h =
      let (port, e, rest) =
        bind-ok (parse_number environment (text "KOMODO_MCP_PORT") (2 ^ 16 - 1) 8000 1 (2 ^ 16 - 1))
          _ listener h in
      let same : port ≡ listener.port = cc rest in
      subst (IsWithin 1 65_535) same (number_bounds (text "KOMODO_MCP_PORT") _ _ _ _ port e)

module _ {Url : Type 0} (parse : Text → Result Text Url) (ct_eq : List ℕ → List ℕ → Bool) where
  abbrev pub IsReadable : ReadSettings Url → Type 0
  IsReadable read =
      AreUsable read.credentials × IsWithin (seconds 1) (seconds 120) read.upstream_timeout

  -- The bounds of the settings.
  pub record IsConfigured (s : Settings Url) : Type 0 where
    pub port : IsWithin 1 65_535 s.port
    pub upstream_timeout : IsWithin (seconds 1) (seconds 120) s.upstream_timeout
    pub request_timeout : IsWithin (seconds 1) (seconds 120) s.request_timeout
    pub concurrency : IsWithin 1 256 s.max_concurrent_requests
    pub body : IsWithin 1_024 4_194_304 s.max_body_bytes
    pub reads : AreUsable s.read_credentials
    pub administers : AreUsableIfAny s.admin_credentials
    pub rotation : IsRotation s.bearers.current s.bearers.previous

  read_sound :
      (environment : Environment) (read : ReadSettings Url)
      → read_from_environment parse ct_eq environment ≡ ok read
      → IsReadable read
  unfolding read_from_environment
  read_sound environment read h =
      bind_elim (required_secret environment (text "KOMODO_MCP_READ_API_KEY")) h λ key e1 h.
        bind_elim (required_secret environment (text "KOMODO_MCP_READ_API_SECRET")) h λ secret e2 h.
          bind_elim (map_err api (Credentials.from_protected key secret)) h λ credentials e3 h.
            bind_elim (parse_url parse ct_eq (text "KOMODO_MCP_UPSTREAM_URL") _) h λ url e4 h.
              bind_elim
                (parse_number environment (text "KOMODO_MCP_UPSTREAM_TIMEOUT_SECONDS") (2 ^ 64 - 1)
                  20 1 120)
                h
                λ timeout e5 h.
                  let within = number_bounds environment _ _ _ _ _ timeout e5 in
                  subst IsReadable (ok_inj _ read h) (
                    made_sound environment key secret credentials
                        (required_secret_sound environment _ key e1)
                        (required_secret_sound environment _ secret e2) e3,
                    (omega (arith, within.0), omega (arith, within.1)),
                  )

  -- Whatever the environment holds, settings are only loaded with a port, timeouts of 1 to 120 seconds, 1
  -- to 256 concurrent requests and bodies of 1 KiB to 4 MiB; with credentials that are not empty, have no
  -- line break and at most 16 KiB; and with bearers of at least 32 bytes without whitespace that differ.
  pub settings_bounds :
      ComparesSlices ct_eq
      → (environment : Environment) (include_admin : Bool) (s : Settings Url)
      → from_environment_with_admin parse ct_eq environment include_admin ≡ ok s
      → IsConfigured s
  unfolding from_environment_with_admin
  settings_bounds laws environment include_admin s h =
      bind_elim (listener_from_environment environment) h λ listener e1 h.
        bind_elim (read_from_environment parse ct_eq environment) h λ read e2 h.
          bind_elim (included_credentials environment include_admin) h λ admin e3 h.
            bind_elim (required_secret environment _) h λ current e4 h.
              bind_elim (optional_secret environment _) h λ previous e5 h.
                bind_elim (required environment _) h λ address e6 h.
                  bind_elim (parse_url parse ct_eq _ address) h λ jwks_url e7 h.
                    bind_elim (parse_number environment _ _ _ _ _) h λ request_timeout e8 h.
                      bind_elim (parse_number environment _ _ _ _ _) h λ concurrency e9 h.
                        bind_elim (parse_number environment _ _ _ _ _) h λ body e10 h.
                          bind_elim (map_err auth (Bearers.from_protected ct_eq current previous)) h
                            λ bearers e11 h. bind_elim (required environment _) h λ issuer e12 h.
                              bind_elim (required_unmodified environment _) h λ actor e13 h.
                                let (reads, upstream) = read_sound environment read e2 in
                                let within =
                                  number_bounds environment _ _ _ _ _ request_timeout e8 in
                                subst IsConfigured (ok_inj _ s h) (record {
                                  port = listener_sound environment listener e1;
                                  upstream_timeout = upstream;
                                  request_timeout =
                                      (omega (arith, within.0), omega (arith, within.1));
                                  concurrency = number_bounds environment _ _ _ _ _ concurrency e9;
                                  body = number_bounds environment _ _ _ _ _ body e10;
                                  reads = reads;
                                  administers = included_sound environment include_admin admin e3;
                                  rotation =
                                      from_protected-IsRotation ct_eq laws current previous bearers
                                        (map_err-ok auth _ bearers e11);
                                })
