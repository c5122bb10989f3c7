-- ===== src/Api/Json.antt =====
-- The JSON documents that crates/komodo-api makes with `json!` and by serializing its data.
use mcp_komodo_rs.Prelude.{Bool, if◌then◌else◌, Option, some, none, List, [], ◌∷◌}
use mcp_komodo_rs.Prelude.Int.{ℤ}
use mcp_komodo_rs.Prelude.Text.{Text, text, str_eq}
use mcp_komodo_rs.Api.Types.{SystemCommand, StackConfigPatch}

mutual
  pub data Json : Type 0 where
    null : Json
    bool : Bool → Json
    number : ℤ → Json
    string : Text → Json
    array : Items → Json
    object : Fields → Json

  pub data Items : Type 0 where
    nil : Items
    item : Json → Items → Items

  pub data Fields : Type 0 where
    end : Fields
    field : Text → Json → Fields → Fields

abbrev pub strings : List Text → Items
strings [] = nil
strings (s ∷ texts) = item (string s) (strings texts)

-- `skip_serializing_if = "Option::is_none"`
abbrev pub optional_field : {A : Type 0} → Text → (A → Json) → Option A → Fields → Fields
optional_field key to_json none fields = fields
optional_field key to_json (some a) fields = field key (to_json a) fields

-- Value::get on an object, and Value::as_str
abbrev pub get_field : Text → Fields → Option Json
get_field key end = none
get_field key (field other value fields) =
    let rest = get_field key fields in if str_eq other key then some value else rest

abbrev pub get : Text → Json → Option Json
get key (object fields) = get_field key fields
get key _ = none

abbrev pub as_str : Json → Option Text
as_str (string s) = some s
as_str _ = none

-- The serialization of `SystemCommand` and of `StackConfigPatch`.
unfoldable pub command_json : SystemCommand → Json
command_json command = object (
    field (text "path") (string command.path) (
      field (text "command") (string command.command)
        (optional_field (text "shell_mode") bool command.shell_mode end)))

unfoldable pub patch_json : StackConfigPatch → Json
patch_json patch = object (
    optional_field (text "file_contents") string patch.file_contents (
      optional_field (text "environment") string patch.environment (
        optional_field (text "pre_deploy") command_json patch.pre_deploy (
          optional_field (text "post_deploy") command_json patch.post_deploy (
            optional_field (text "files_on_host") bool patch.files_on_host (
              optional_field (text "run_directory") string patch.run_directory (
                optional_field (text "file_paths") (λ paths. array (strings paths)) patch.file_paths
                  (optional_field (text "env_file_path") string patch.env_file_path (
                    optional_field (text "webhook_enabled") bool patch.webhook_enabled (
                      optional_field (text "webhook_secret") string patch.webhook_secret (
                        optional_field (text "webhook_force_deploy") bool patch.webhook_force_deploy
                          end)))))))))))
