-- ===== src/Mcp/Mutations/Patches.antt =====
-- crates/komodo-mcp/src/lib.rs: the inputs of the writing methods, and the patches that they build,
-- each with the names of the fields that it applies.
use mcp_komodo_rs.Prelude.{
  ℕ, Bool, ltb, Option, some, none, List, [], ◌∷◌, ◌++◌, length, is_empty, Result, ok, ◌>>=◌, ◌>>◌,
  refuse, ok_or,
}
use mcp_komodo_rs.Prelude.Text.{Text, text}
use mcp_komodo_rs.Api.Types.{StackConfigPatch, default}
use mcp_komodo_rs.Mcp.Files.{FileValue}
use mcp_komodo_rs.Mcp.Errors.{McpError, invalid_params}
use mcp_komodo_rs.Mcp.Inputs.Validate.{
  max_write_paths, validate_write_path, validate_write_paths, CommandInput, validate_command,
  validate_write_content,
}

pub record ConfigPatchInput : Type 0 where
  pub selector : Text
  pub files_on_host : Option Bool
  pub run_directory : Option Text
  pub file_paths : Option (List Text)
  pub env_file_path : Option Text

pub record ComposeWriteInput : Type 0 where
  pub selector : Text
  pub contents : Text

pub record EnvironmentWriteInput : Type 0 where
  pub selector : Text
  pub environment : Text

pub record CommandsWriteInput : Type 0 where
  pub selector : Text
  pub pre_deploy : Option CommandInput
  pub post_deploy : Option CommandInput

pub record FileWriteInput : Type 0 where
  pub selector : Text
  pub file_path : Text
  pub contents : Text

pub record WebhookUpdateInput : Type 0 where
  pub selector : Text
  pub enabled : Option Bool
  pub force_deploy : Option Bool

pub data WebhookSecretInput : Type 0 where
  inherited : WebhookSecretInput
  custom : FileValue → WebhookSecretInput

pub record WebhookSecretWriteInput : Type 0 where
  pub selector : Text
  pub secret : WebhookSecretInput

-- The patch so far, and the names of the fields applied.
abbrev pub Patched : Type 0
Patched = StackConfigPatch × List Text

-- `if let Some(value) = field { patch.… = Some(checked(value)?); applied.push(name); }`
unfoldable pub apply_field :
    {A B : Type 0}
    → Option A
    → (A → Result McpError B)
    → (B → StackConfigPatch → StackConfigPatch)
    → Text
    → Patched
    → Result McpError Patched
apply_field none checked write name patched = ok patched
apply_field (some value) checked write name patched = do
  value ← checked value
  ok (write value patched.0, patched.1 ++ name ∷ [])

-- A value that is applied as it is, and one that a validation lets through.
abbrev pub as_it_is : {A : Type 0} → A → Result McpError A
as_it_is value = ok value

abbrev pub after : {A : Type 0} → (A → Result McpError (Unit {0})) → A → Result McpError A
after validate value = validate value >> ok value

-- `if applied.is_empty() { return Err(…); }`
unfoldable pub some_applied : Text → Patched → Result McpError Patched
some_applied message patched = do refuse (is_empty patched.1) (invalid_params message); ok patched

unfoldable pub validate_file_paths : List Text → Result McpError (Unit {0})
validate_file_paths paths = do
  refuse (ltb max_write_paths (length paths))
      (invalid_params (text "at most 50 file paths may be set"))
  validate_write_paths paths

unfoldable pub config_patch : ConfigPatchInput → Result McpError Patched
config_patch input = do
  patched ←
      apply_field input.files_on_host as_it_is
        (λ value patch. record patch { files_on_host = some value }) (text "filesOnHost")
        (default, [])
  patched ←
      apply_field input.run_directory (after validate_write_path)
        (λ value patch. record patch { run_directory = some value }) (text "runDirectory") patched
  patched ←
      apply_field input.file_paths (after validate_file_paths)
        (λ value patch. record patch { file_paths = some value }) (text "filePaths") patched
  patched ←
      apply_field input.env_file_path (after validate_write_path)
        (λ value patch. record patch { env_file_path = some value }) (text "envFilePath") patched
  some_applied (text "at least one configuration field must be set") patched

unfoldable pub commands_patch : CommandsWriteInput → Result McpError Patched
commands_patch input = do
  patched ←
      apply_field input.pre_deploy validate_command
        (λ value patch. record patch { pre_deploy = some value }) (text "preDeploy") (default, [])
  patched ←
      apply_field input.post_deploy validate_command
        (λ value patch. record patch { post_deploy = some value }) (text "postDeploy") patched
  some_applied (text "at least one of pre_deploy or post_deploy must be set") patched

unfoldable pub webhook_patch : WebhookUpdateInput → Result McpError Patched
webhook_patch input = do
  patched ←
      apply_field input.enabled as_it_is
        (λ value patch. record patch { webhook_enabled = some value }) (text "webhookEnabled")
        (default, [])
  patched ←
      apply_field input.force_deploy as_it_is
        (λ value patch. record patch { webhook_force_deploy = some value })
        (text "webhookForceDeploy") patched
  some_applied (text "at least one webhook field must be set") patched

-- The token of a custom secret, from the bytes of its file.
unfoldable pub secret_text : (List ℕ → Option Text) → List ℕ → Result McpError Text
secret_text from_utf8 bytes = do
  token ←
      ok_or (from_utf8 bytes)
        (invalid_params (text "webhook credential file must contain UTF-8 text"))
  refuse (is_empty token)
      (invalid_params (text "custom webhook token must not be empty; select inherited explicitly"))
  validate_write_content token
  ok token
