-- ===== src/Mcp/Mutations/Valid.antt =====
-- crates/komodo-mcp/src/lib.rs: which inputs of the writing methods are valid, and the patch that a valid
-- one stands for.
use mcp_komodo_rs.Prelude.{
  ◌≤◌, ◌≡◌, ◌≢◌, ◌⊎◌, inl, inr, ap, true, false, not, ltb, if◌then◌else◌, Option, some, none, List,
  [], ◌∷◌, ◌++◌, length, is_empty, All, ok, refuse, refuse-ok, bind_elim, arith, Bool-cases,
}
use mcp_komodo_rs.Prelude.Text.{Text, text, len}
use mcp_komodo_rs.Api.Types.{SystemCommand, default}
use mcp_komodo_rs.Mcp.Inputs.Validate.{
  has_control, validate_write_content, validate_write_path, validate_write_paths, CommandInput,
  validate_command, max_write_paths,
}
use mcp_komodo_rs.Mcp.Mutations.Patches.{
  ConfigPatchInput, CommandsWriteInput, WebhookUpdateInput, Patched, validate_file_paths,
}

-- A path has 1 to 512 bytes without a control character, and content has 256 KiB at most.
pub record IsWritePath (path : Text) : Type 0 where
  pub filled : is_empty path ≡ false
  pub short : len path ≤ 512
  pub plain : has_control path ≡ false

abbrev pub IsWriteContent : Text → Type 0
IsWriteContent value = len value ≤ 262_144

abbrev pub IsWritePaths : List Text → Type 0
IsWritePaths paths = (length paths ≤ 50) × All IsWritePath paths

-- The path of a command may be left out.
abbrev pub IsCommand : CommandInput → Type 0
IsCommand input =
    ((is_empty input.path ≡ true) ⊎ IsWritePath input.path) × IsWriteContent input.command

-- What is given satisfies the predicate; the name of what is given.
abbrev pub OnGiven : {A : Type 0} → (A → Type 0) → Option A → Type 0
OnGiven P none = Unit {0}
OnGiven P (some a) = P a

abbrev pub named : {A : Type 0} → Option A → Text → List Text
named none name = []
named (some a) name = name ∷ []

abbrev pub command_of : Option CommandInput → Option SystemCommand
command_of none = none
command_of (some input) =
    some (record { path = input.path; command = input.command; shell_mode = input.shell_mode })

-- The patch has exactly the fields that are given, and their names, and one is given at least.
pub record IsConfigPatch (input : ConfigPatchInput) (patched : Patched) : Type 0 where
  pub valid_directory : OnGiven IsWritePath input.run_directory
  pub valid_paths : OnGiven IsWritePaths input.file_paths
  pub valid_env_file : OnGiven IsWritePath input.env_file_path
  pub patch : patched.0 ≡ record default {
    files_on_host = input.files_on_host;
    run_directory = input.run_directory;
    file_paths = input.file_paths;
    env_file_path = input.env_file_path;
  }
  pub applied :
      patched.1
      ≡ ((named input.files_on_host (text "filesOnHost")
            ++ named input.run_directory (text "runDirectory"))
          ++ named input.file_paths (text "filePaths"))
        ++ named input.env_file_path (text "envFilePath")
  pub some_given : patched.1 ≢ []

pub record IsCommandsPatch (input : CommandsWriteInput) (patched : Patched) : Type 0 where
  pub valid_pre_deploy : OnGiven IsCommand input.pre_deploy
  pub valid_post_deploy : OnGiven IsCommand input.post_deploy
  pub patch : patched.0 ≡ record default {
    pre_deploy = command_of input.pre_deploy;
    post_deploy = command_of input.post_deploy;
  }
  pub applied :
      patched.1
      ≡ named input.pre_deploy (text "preDeploy") ++ named input.post_deploy (text "postDeploy")
  pub some_given : patched.1 ≢ []

pub record IsWebhookPatch (input : WebhookUpdateInput) (patched : Patched) : Type 0 where
  pub patch : patched.0 ≡ record default {
    webhook_enabled = input.enabled;
    webhook_force_deploy = input.force_deploy;
  }
  pub applied :
      patched.1
      ≡ named input.enabled (text "webhookEnabled")
        ++ named input.force_deploy (text "webhookForceDeploy")
  pub some_given : patched.1 ≢ []

pub validate_write_content_sound :
    (value : Text) → validate_write_content value ≡ ok tt → IsWriteContent value
unfolding validate_write_content
validate_write_content_sound value h = let small = refuse-ok _ _ tt h in ground arith

pub validate_write_path_sound : (path : Text) → validate_write_path path ≡ ok tt → IsWritePath path
unfolding validate_write_path
validate_write_path_sound path h =
    let good = refuse-ok _ _ tt h in
    record { filled = ground arith; short = ground arith; plain = ground arith }

validate_write_paths_sound :
    (paths : List Text) → validate_write_paths paths ≡ ok tt → All IsWritePath paths
unfolding validate_write_paths
validate_write_paths_sound [] h = tt
validate_write_paths_sound (path ∷ paths) h =
    bind_elim (validate_write_path path) h
      λ _ e h. (validate_write_path_sound path e, validate_write_paths_sound paths h)

pub validate_file_paths_sound :
    (paths : List Text) → validate_file_paths paths ≡ ok tt → IsWritePaths paths
unfolding validate_file_paths
validate_file_paths_sound paths h =
    bind_elim (refuse (ltb max_write_paths (length paths)) _) h
      λ _ e h. let few = refuse-ok _ _ tt e in (ground arith, validate_write_paths_sound paths h)

pub validate_command_sound :
    (input : CommandInput) (command : SystemCommand)
    → validate_command input ≡ ok command
    → (some command ≡ command_of (some input)) × IsCommand input
unfolding validate_command
validate_command_sound input command h =
    bind_elim (if not (is_empty input.path) then validate_write_path input.path else ok tt) h
      λ _ e h. bind_elim (validate_write_content input.command) h λ _ e' h. (
        ap some (cc h),
        (
          elim (Bool-cases (is_empty input.path)) [
            | inl left_out ↦ inl left_out
            | inr given ↦ inr (validate_write_path_sound input.path (rw given at e))
          ],
          validate_write_content_sound input.command e',
        ),
      )
