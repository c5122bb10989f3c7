-- ===== src/Mcp/Inputs/Validate.antt =====
-- crates/komodo-mcp/src/lib.rs: the bounds on inputs and their validation.
use mcp_komodo_rs.Prelude.{
  ℕ, ◌*◌, Bool, not, ◌&&◌, ◌||◌, leb, ltb, if◌then◌else◌, Option, some, none, List, [], ◌∷◌, length,
  any, is_empty, Result, ok, ◌>>◌, refuse,
}
use mcp_komodo_rs.Prelude.Text.{Text, text, len, is_control, to_ascii_lowercase, trim}
use mcp_komodo_rs.Api.Types.{SystemCommand}
use mcp_komodo_rs.Mcp.Errors.{McpError, invalid_params}

abbrev pub max_query_bytes : ℕ
max_query_bytes = 128

abbrev pub max_selector_bytes : ℕ
max_selector_bytes = 128

abbrev pub max_offset : ℕ
max_offset = 10_000

abbrev pub max_write_content_bytes : ℕ
max_write_content_bytes = 256 * 1024

abbrev pub max_write_paths : ℕ
max_write_paths = 50

abbrev pub max_write_path_bytes : ℕ
max_write_path_bytes = 512

abbrev pub max_log_services : ℕ
max_log_services = 50

abbrev pub min_log_tail : ℕ
min_log_tail = 1

abbrev pub max_log_tail : ℕ
max_log_tail = 5_000

abbrev pub has_control : Text → Bool
has_control value = any is_control value

unfoldable pub validate_limit : ℕ → Result McpError (Unit {0})
validate_limit limit = refuse (not (ltb 0 limit)) (invalid_params (text "limit must be positive"))

unfoldable pub validate_query : Option Text → Result McpError (Option Text)
unfolding len trim to_ascii_lowercase
validate_query none = ok none
validate_query (some value) = do
  refuse (ltb max_query_bytes (len value) || has_control value)
      (invalid_params (text "query must be at most 128 bytes and contain no control characters"))
  ok (if is_empty (trim value) then none else some (to_ascii_lowercase (trim value)))

unfoldable pub is_selector : Text → Bool
unfolding len
is_selector selector =
    not (is_empty selector || (ltb max_selector_bytes (len selector) || has_control selector))

unfoldable pub validate_selector : Text → Result McpError (Unit {0})
validate_selector selector =
    refuse (not (is_selector selector))
      (invalid_params (text "selector must be 1 to 128 bytes with no control characters"))

unfoldable pub validate_write_content : Text → Result McpError (Unit {0})
unfolding len
validate_write_content value =
    refuse (ltb max_write_content_bytes (len value))
      (invalid_params (text "written content exceeds the maximum size"))

unfoldable pub validate_write_path : Text → Result McpError (Unit {0})
unfolding len
validate_write_path value =
    refuse (is_empty value || (ltb max_write_path_bytes (len value) || has_control value))
      (invalid_params (text "path must be 1 to 512 bytes with no control characters"))

-- `for path in &paths { validate_write_path(path)?; }`
unfoldable pub validate_write_paths : List Text → Result McpError (Unit {0})
validate_write_paths [] = ok tt
validate_write_paths (path ∷ paths) = validate_write_path path >> validate_write_paths paths

pub record CommandInput : Type 0 where
  pub shell_mode : Option Bool
  pub path : Text
  pub command : Text

unfoldable pub validate_command : CommandInput → Result McpError SystemCommand
validate_command input = do
  if not (is_empty input.path) then validate_write_path input.path else ok tt
  validate_write_content input.command
  ok (record { path = input.path; command = input.command; shell_mode = input.shell_mode })

pub record LogTailInput : Type 0 where
  pub selector : Text
  pub services : List Text
  pub tail : ℕ
  pub timestamps : Bool

-- The loop over the services of `validate_log_tail`.
unfoldable pub validate_services : List Text → Result McpError (Unit {0})
validate_services [] = ok tt
validate_services (service ∷ services) =
    refuse (not (is_selector service))
      (invalid_params (text "each service must be 1 to 128 bytes with no control characters"))
    >> validate_services services

unfoldable pub validate_log_tail : LogTailInput → Result McpError (Unit {0})
validate_log_tail input = do
  validate_selector input.selector
  refuse (not (leb min_log_tail input.tail && leb input.tail max_log_tail))
      (invalid_params (text "tail must be between 1 and 5000"))
  refuse (ltb max_log_services (length input.services))
      (invalid_params (text "at most 50 services may be selected"))
  validate_services input.services
