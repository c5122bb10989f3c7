-- ===== src/Mcp/Mutations/Applied.antt =====
-- crates/komodo-mcp/src/lib.rs: a writing method builds a patch only from a valid input, and the one that
-- it stands for.
use mathlib.Core.List.{append-nil}
use mcp_komodo_rs.Prelude.{
  ◌≡◌, ◌≢◌, refl, sym, ap, ◌∙◌, Option, some, none, List, [], ◌∷◌, ◌++◌, is_empty, Result, ok,
  refuse, refuse-ok, bind_elim,
}
use mcp_komodo_rs.Prelude.Text.{Text, text}
use mcp_komodo_rs.Api.Types.{StackConfigPatch, default}
use mcp_komodo_rs.Mcp.Errors.{McpError}
use mcp_komodo_rs.Mcp.Inputs.Validate.{validate_command}
use mcp_komodo_rs.Mcp.Mutations.Patches.{
  ConfigPatchInput, CommandsWriteInput, WebhookUpdateInput, Patched, apply_field, as_it_is, after,
  some_applied, config_patch, commands_patch, webhook_patch,
}
use mcp_komodo_rs.Mcp.Mutations.Valid.{
  IsWritePath, IsWritePaths, IsCommand, OnGiven, named, command_of, IsConfigPatch, IsCommandsPatch,
  IsWebhookPatch, validate_write_path_sound, validate_file_paths_sound, validate_command_sound,
}

-- One field of a patch: what is applied, and that it was valid.
apply_field_lem :
    {A B : Type 0} (P : A → Type 0) (value : Option A → Option B) (o : Option A)
    (checked : A → Result McpError B) (write : Option B → StackConfigPatch → StackConfigPatch)
    (name : Text) (patched : Patched) (patch : StackConfigPatch) (names : List Text)
    (made : Patched)
    → ((a : A) (b : B) → checked a ≡ ok b → (some b ≡ value (some a)) × P a)
    → value none ≡ none
    → write none patch ≡ patch
    → patched ≡ (patch, names)
    → apply_field o checked (λ b patch. write (some b) patch) name patched ≡ ok made
    → (made ≡ (write (value o) patch, names ++ named o name)) × OnGiven P o
unfolding apply_field
apply_field_lem P value none checked write name patched patch names made sound nothing same before
      h =
    let same_made : patched ≡ made = cc h in
    (rw (nothing, same, append-nil) (sym same_made ∙ before), tt)
apply_field_lem P value (some a) checked write name patched patch names made sound nothing same
      before h =
    bind_elim (checked a) h λ b e h.
      let (got, valid) = sound a b e in
      let written : (write (some b) patched.0, patched.1 ++ name ∷ []) ≡ made = cc h in
      (
        sym written
            ∙ ap (λ (q : Patched). (write (some b) q.0, q.1 ++ name ∷ [])) before
            ∙ ap (λ v. (write v patch, names ++ name ∷ [])) got,
        valid,
      )

-- A field that is applied as it is, after a validation.
after_lem :
    {A : Type 0} (P : A → Type 0) (validate : A → Result McpError (Unit {0}))
    → ((a : A) → validate a ≡ ok tt → P a)
    → (a b : A) → after validate a ≡ ok b
    → ◌≡◌ {A = Option A} (some b) (some a) × P a
after_lem P validate sound a b h = bind_elim (validate a) h λ _ e h. (ap some (cc h), sound a e)

as_it_is_lem :
    {A : Type 0} (a b : A) → as_it_is a ≡ ok b → ◌≡◌ {A = Option A} (some b) (some a) × Unit {0}
as_it_is_lem a b h = (ap some (cc h), tt)

some_applied_sound :
    (message : Text) (patched made : Patched)
    → some_applied message patched ≡ ok made
    → (made ≡ patched) × (patched.1 ≢ [])
unfolding some_applied
some_applied_sound message patched made h =
    bind_elim (refuse (is_empty patched.1) _) h
      λ _ e h. (cc h, λ none_given. cc (ap is_empty none_given, refuse-ok _ _ tt e))

pub config_patch_sound :
    (input : ConfigPatchInput) (patched : Patched)
    → config_patch input ≡ ok patched
    → IsConfigPatch input patched
unfolding config_patch
config_patch_sound input patched h =
    bind_elim (apply_field input.files_on_host _ _ _ _) h λ p1 e1 h.
      bind_elim (apply_field input.run_directory _ _ _ p1) h λ p2 e2 h.
        bind_elim (apply_field input.file_paths _ _ _ p2) h λ p3 e3 h.
          bind_elim (apply_field input.env_file_path _ _ _ p3) h λ p4 e4 h.
            let (s1, _) =
              apply_field_lem (λ _. Unit {0}) (λ v. v) input.files_on_host as_it_is
                (λ v patch. record patch { files_on_host = v }) (text "filesOnHost") _ default [] p1
                as_it_is_lem refl refl refl e1 in
            let (s2, v2) =
              apply_field_lem IsWritePath (λ v. v) input.run_directory _
                (λ v patch. record patch { run_directory = v }) (text "runDirectory") p1 _ _ p2
                (after_lem IsWritePath _ validate_write_path_sound) refl refl s1 e2 in
            let (s3, v3) =
              apply_field_lem IsWritePaths (λ v. v) input.file_paths _
                (λ v patch. record patch { file_paths = v }) (text "filePaths") p2 _ _ p3
                (after_lem IsWritePaths _ validate_file_paths_sound) refl refl s2 e3 in
            let (s4, v4) =
              apply_field_lem IsWritePath (λ v. v) input.env_file_path _
                (λ v patch. record patch { env_file_path = v }) (text "envFilePath") p3 _ _ p4
                (after_lem IsWritePath _ validate_write_path_sound) refl refl s3 e4 in
            let (last, given) = some_applied_sound _ p4 patched h in
            record {
              valid_directory = v2;
              valid_paths = v3;
              valid_env_file = v4;
              patch = ap (λ (q : Patched). q.0) (last ∙ s4);
              applied = ap (λ (q : Patched). q.1) (last ∙ s4);
              some_given = λ e. given (ap (λ (q : Patched). q.1) (sym last) ∙ e);
            }

pub commands_patch_sound :
    (input : CommandsWriteInput) (patched : Patched)
    → commands_patch input ≡ ok patched
    → IsCommandsPatch input patched
unfolding commands_patch
commands_patch_sound input patched h = bind_elim (apply_field input.pre_deploy _ _ _ _) h λ p1 e1 h.
    bind_elim (apply_field input.post_deploy _ _ _ p1) h λ p2 e2 h.
      let (s1, v1) =
        apply_field_lem IsCommand command_of input.pre_deploy validate_command
          (λ v patch. record patch { pre_deploy = v }) (text "preDeploy") _ default [] p1
          validate_command_sound refl refl refl e1 in
      let (s2, v2) =
        apply_field_lem IsCommand command_of input.post_deploy validate_command
          (λ v patch. record patch { post_deploy = v }) (text "postDeploy") p1 _ _ p2
          validate_command_sound refl refl s1 e2 in
      let (last, given) = some_applied_sound _ p2 patched h in
      record {
        valid_pre_deploy = v1;
        valid_post_deploy = v2;
        patch = ap (λ (q : Patched). q.0) (last ∙ s2);
        applied = ap (λ (q : Patched). q.1) (last ∙ s2);
        some_given = λ e. given (ap (λ (q : Patched). q.1) (sym last) ∙ e);
      }

pub webhook_patch_sound :
    (input : WebhookUpdateInput) (patched : Patched)
    → webhook_patch input ≡ ok patched
    → IsWebhookPatch input patched
unfolding webhook_patch
webhook_patch_sound input patched h = bind_elim (apply_field input.enabled _ _ _ _) h λ p1 e1 h.
    bind_elim (apply_field input.force_deploy _ _ _ p1) h λ p2 e2 h.
      let (s1, _) =
        apply_field_lem (λ _. Unit {0}) (λ v. v) input.enabled as_it_is
          (λ v patch. record patch { webhook_enabled = v }) (text "webhookEnabled") _ default [] p1
          as_it_is_lem refl refl refl e1 in
      let (s2, _) =
        apply_field_lem (λ _. Unit {0}) (λ v. v) input.force_deploy as_it_is
          (λ v patch. record patch { webhook_force_deploy = v }) (text "webhookForceDeploy") p1 _ _
          p2 as_it_is_lem refl refl s1 e2 in
      let (last, given) = some_applied_sound _ p2 patched h in
      record {
        patch = ap (λ (q : Patched). q.0) (last ∙ s2);
        applied = ap (λ (q : Patched). q.1) (last ∙ s2);
        some_given = λ e. given (ap (λ (q : Patched). q.1) (sym last) ∙ e);
      }
