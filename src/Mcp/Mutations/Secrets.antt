-- ===== src/Mcp/Mutations/Secrets.antt =====
-- crates/komodo-mcp/src/lib.rs: what the write of a webhook secret promises, whatever the calls reply.
use mcp_komodo_rs.Prelude.{
  ℕ, ◌≡◌, refl, ◌⊎◌, inl, inr, Option, some, none, List, [], ◌∷◌, All, Result, ok, err,
  Result-cases, ok_or,
}
use mcp_komodo_rs.Prelude.Text.{Text, text}
use mcp_komodo_rs.Prelude.Tasks.{Always, After, Always-bind, Always-map}
use mcp_komodo_rs.Api.Types.{default}
use mcp_komodo_rs.Mcp.Files.{FileValue}
use mcp_komodo_rs.Mcp.Errors.{McpError, invalid_params}
use mcp_komodo_rs.Mcp.Inputs.Validate.{validate_selector}
use mcp_komodo_rs.Mcp.Tasks.Calls.{KomodoMcp, Lifetime, Log, take, read_lifetime, is_submission}
use mcp_komodo_rs.Mcp.Tasks.Report.{admit, admin}
use mcp_komodo_rs.Mcp.Tasks.Quiet.{IsQuiet}
use mcp_komodo_rs.Mcp.Mutations.Submit.{ConfigWriteResult, write_patch}
use mcp_komodo_rs.Mcp.Mutations.Patches.{
  WebhookSecretInput, inherited, custom, WebhookSecretWriteInput, Patched, secret_text,
}
use mcp_komodo_rs.Mcp.Mutations.Methods.{webhook_secret, stack_webhook_secret_write}
use mcp_komodo_rs.Mcp.Mutations.Once.{Refused}
use mcp_komodo_rs.Mcp.Mutations.Writes.{IsPatched, checked, patch_lem}

module _ (from_utf8 : List ℕ → Option Text) (handler : KomodoMcp) where
  -- The calls after the first check that give the secret, and the secret.
  pub data IsSecret (first : Lifetime) : WebhookSecretInput → Text → Log → Type 0 where
    inherits : IsSecret first inherited [] ((read_lifetime, first) ∷ [])
    takes :
        (file : FileValue) (owner : Text) (bytes : List ℕ) (secret : Text)
        → handler.credential_files ≡ some owner
        → secret_text from_utf8 bytes ≡ ok secret
        → IsSecret first
            (custom file)
            secret
            ((take owner file.uri, ok bytes) ∷ (read_lifetime, first) ∷ [])

  -- The secret is known as `IsSecret` says, or its resolution has failed, and nothing is submitted.
  data Knows (first : Lifetime) (input : WebhookSecretInput) (h : Log) (r : Result McpError Text)
      : Type 0 where
    knows :
        All IsQuiet h
        → (secret : Text) → r ≡ ok secret
        → IsSecret first input secret h
        → Knows first input h r
    lacks : All IsQuiet h → (error : McpError) → r ≡ err error → Knows first input h r

  owned_lem :
      {E : Type 0} (e : E) (owner : Option Text) (name : Text)
      → ok_or owner e ≡ ok name
      → owner ≡ some name
  owned_lem e none name h = cc
  owned_lem e (some o) name h = cc

  abbrev opened : Lifetime → Log
  opened first = (read_lifetime, first) ∷ []

  webhook_secret-Knows :
      (first : Lifetime) (input : WebhookSecretInput)
      → Always (Knows first input) (opened first) (webhook_secret from_utf8 handler input)
  unfolding webhook_secret is_submission
  webhook_secret-Knows first inherited = knows (refl, tt) [] refl inherits
  webhook_secret-Knows first (custom file) =
      checked handler (Knows first (custom file))
        (ok_or handler.credential_files
          (invalid_params (text "literal credential values require native file transfer")))
        _ (λ e. lacks (refl, tt) e refl)
        λ owner owned reply.
          checked handler (Knows first (custom file))
            {h = (take owner file.uri, reply) ∷ opened first} reply _
            (λ e. lacks (refl, (refl, tt)) e refl)
            λ bytes given. elim (Result-cases (secret_text from_utf8 bytes)) [
              | inl (secret, e) ↦
                  rw (e, given)
                    (knows (refl, (refl, tt)) secret refl
                      (takes file owner bytes secret
                        (owned_lem _ handler.credential_files owner owned) e))
              | inr (error, e) ↦ rw e (lacks (refl, (refl, tt)) error refl)
            ]

  abbrev pub secret_patch : Text → Patched
  secret_patch secret = (record default { webhook_secret = some secret }, text "webhookSecret" ∷ [])

  -- The submission of a secret that is known.
  pub record IsSecretPatched (input : WebhookSecretWriteInput) (h : Log)
      (r : Result McpError ConfigWriteResult) : Type 0 where
    pub first : Lifetime
    pub secret : Text
    pub earlier : Log
    pub admitted : admit handler first ≡ ok tt
    pub known : IsSecret first input.secret secret earlier
    pub patched :
        IsPatched handler earlier input.selector
          (text "stacks.webhook.secret.read")
          (secret_patch secret)
          h
          r

  abbrev pub IsSecretWritten :
      WebhookSecretWriteInput → Log → Result McpError ConfigWriteResult → Type 0
  IsSecretWritten input h r = Refused h r ⊎ IsSecretPatched input h r

  known_lem :
      (input : WebhookSecretWriteInput) (first : Lifetime) (h : Log) (r : Result McpError Text)
      → admit handler first ≡ ok tt
      → Knows first input.secret h r
      → After
          (IsSecretWritten input)
          (λ secret.
            write_patch handler input.selector
              (secret_patch secret).0
              (secret_patch secret).1
              (text "stacks.webhook.secret.read"))
          h
          r
  known_lem input first h r admitted (lacks quiet error e) =
      rw e (inl (record { quiet = quiet; error = error; fails = refl }))
  known_lem input first h r admitted (knows quiet secret e known) = rw e (
      Always-map (λ h' r' once. found h' r' once) h
        (write_patch handler input.selector (secret_patch secret).0 (secret_patch secret).1
          (text "stacks.webhook.secret.read"))
        (patch_lem handler h input.selector (text "stacks.webhook.secret.read")
          (secret_patch secret) quiet))
    where
      found :
          (h' : Log) (r' : Result McpError ConfigWriteResult)
          → Refused h' r'
            ⊎ IsPatched handler h input.selector
                (text "stacks.webhook.secret.read")
                (secret_patch secret)
                h'
                r'
          → IsSecretWritten input h' r'
      found h' r' (inl x) = inl x
      found h' r' (inr x) = inr (record {
        first = first;
        secret = secret;
        earlier = h;
        admitted = admitted;
        known = known;
        patched = x;
      })

  -- Whatever the calls reply, the write of a webhook secret either fails and submits nothing, or
  -- updates once the stack that the selector picks, after a first check that admits it, and directly
  -- after a second one. The token is empty where inheritance is selected; otherwise it is the text
  -- that `secret_text` accepts of the file that the request's owner uploaded.
  pub secret_write_once :
      (input : WebhookSecretWriteInput)
      → Always (IsSecretWritten input) [] (stack_webhook_secret_write from_utf8 handler input)
  unfolding stack_webhook_secret_write admin is_submission
  secret_write_once input =
      checked handler (IsSecretWritten input) (validate_selector input.selector) _
        (λ e. inl (record { quiet = tt; error = e; fails = refl }))
        λ _ _ first.
          checked handler (IsSecretWritten input) {h = opened first} (admit handler first) _
            (λ e. inl (record { quiet = (refl, tt); error = e; fails = refl }))
            λ _ admitted.
              Always-bind (IsSecretWritten input) _ (opened first)
                (webhook_secret from_utf8 handler input.secret)
                (Always-map (λ h r x. known_lem input first h r admitted x) (opened first)
                  (webhook_secret from_utf8 handler input.secret)
                  (webhook_secret-Knows first input.secret))
