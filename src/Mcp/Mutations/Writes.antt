-- ===== src/Mcp/Mutations/Writes.antt =====
-- crates/komodo-mcp/src/lib.rs: what the methods that write to a stack promise, whatever the calls
-- reply.
use mcp_komodo_rs.Prelude.{◌≡◌, refl, ◌⊎◌, inl, inr, some, [], ◌∷◌, All, Result, ok, err}
use mcp_komodo_rs.Prelude.Text.{Text, text}
use mcp_komodo_rs.Prelude.Tasks.{done, ◌>>=◌, Always, Always-map}
use mcp_komodo_rs.Api.Types.{default}
use mcp_komodo_rs.Mcp.Errors.{McpError}
use mcp_komodo_rs.Mcp.Inputs.Validate.{
  validate_selector, validate_write_content, validate_write_path,
}
use mcp_komodo_rs.Mcp.Tasks.Calls.{KomodoMcp, Tool, Log, update_stack, write_stack_file}
use mcp_komodo_rs.Mcp.Tasks.Quiet.{IsQuiet}
use mcp_komodo_rs.Mcp.Mutations.Submit.{resolve_stack_id, ConfigWriteResult, write_patch}
use mcp_komodo_rs.Mcp.Mutations.Patches.{
  ConfigPatchInput, ComposeWriteInput, EnvironmentWriteInput, CommandsWriteInput, FileWriteInput,
  WebhookUpdateInput, Patched, config_patch, commands_patch, webhook_patch,
}
use mcp_komodo_rs.Mcp.Mutations.Valid.{
  IsWriteContent, IsConfigPatch, IsCommandsPatch, IsWebhookPatch, validate_write_content_sound,
}
use mcp_komodo_rs.Mcp.Mutations.Applied.{
  config_patch_sound, commands_patch_sound, webhook_patch_sound,
}
use mcp_komodo_rs.Mcp.Mutations.Methods.{
  stack_config_patch, stack_compose_write, stack_environment_write, stack_commands_write,
  stack_file_write, FileWriteResult, stack_webhook_update, file_write_result,
}
use mcp_komodo_rs.Mcp.Mutations.Once.{Refused, Submitted, Once, submit-Once}
use mcp_komodo_rs.Mcp.Mutations.Targets.{IsStack, resolve_stack_id-Resolves}

-- The writes that patch the configuration of a stack with what their input holds.
pub data ConfigWrite : Type 0 where
  patches : ConfigPatchInput → ConfigWrite
  writes_compose : ComposeWriteInput → ConfigWrite
  writes_environment : EnvironmentWriteInput → ConfigWrite
  writes_commands : CommandsWriteInput → ConfigWrite
  updates_webhook : WebhookUpdateInput → ConfigWrite

-- Their selector, and the tool that reads back what they write.
abbrev pub selector_of : ConfigWrite → Text
selector_of (patches input) = input.selector
selector_of (writes_compose input) = input.selector
selector_of (writes_environment input) = input.selector
selector_of (writes_commands input) = input.selector
selector_of (updates_webhook input) = input.selector

abbrev pub read_tool_of : ConfigWrite → Text
read_tool_of (patches input) = text "stacks.config.read"
read_tool_of (writes_compose input) = text "stacks.compose.read"
read_tool_of (writes_environment input) = text "stacks.environment.read"
read_tool_of (writes_commands input) = text "stacks.commands.read"
read_tool_of (updates_webhook input) = text "stacks.webhook.status"

-- The input is valid, and the patch is the one that it stands for, with the names of its fields.
abbrev pub IsPatchOf : ConfigWrite → Patched → Type 0
IsPatchOf (patches input) patched = IsConfigPatch input patched
IsPatchOf (writes_compose input) patched =
    IsWriteContent input.contents
    × (patched ≡ (record default { file_contents = some input.contents }, text "fileContents" ∷ []))
IsPatchOf (writes_environment input) patched =
    IsWriteContent input.environment
    × (patched ≡ (record default { environment = some input.environment }, text "environment" ∷ []))
IsPatchOf (writes_commands input) patched = IsCommandsPatch input patched
IsPatchOf (updates_webhook input) patched = IsWebhookPatch input patched

module _ (handler : KomodoMcp) where
  abbrev pub perform : ConfigWrite → Tool ConfigWriteResult
  perform (patches input) = stack_config_patch handler input
  perform (writes_compose input) = stack_compose_write handler input
  perform (writes_environment input) = stack_environment_write handler input
  perform (writes_commands input) = stack_commands_write handler input
  perform (updates_webhook input) = stack_webhook_update handler input

  -- The one submission is an update of the stack that the selector picks, with this patch.
  abbrev pub IsPatched :
      Log → Text → Text → Patched → Log → Result McpError ConfigWriteResult → Type 0
  IsPatched earlier name read_tool patched =
      Submitted handler (IsStack earlier name) (λ target. update_stack target patched.0)
        (λ _ reply. reply) read_tool (λ target _. record { target = target; applied = patched.1 })

  abbrev pub IsWritten : ConfigWrite → Log → Result McpError ConfigWriteResult → Type 0
  IsWritten w h r =
      Refused h r
      ⊎ ((patched : Patched) × IsPatchOf w patched
          × IsPatched [] (selector_of w) (read_tool_of w) patched h r)

  -- The end of a write, after calls that submitted nothing.
  pub patch_lem :
      (earlier : Log) (name read_tool : Text) (patched : Patched)
      → All IsQuiet earlier
      → Always
          (λ h r. Refused h r ⊎ IsPatched earlier name read_tool patched h r)
          earlier
          (write_patch handler name patched.0 patched.1 read_tool)
  unfolding write_patch
  patch_lem earlier name read_tool patched quiet =
      submit-Once handler (IsStack earlier name) (λ target. update_stack target patched.0)
        (λ _ reply. reply) read_tool (λ target _. record { target = target; applied = patched.1 })
        (resolve_stack_id handler name) earlier
        (resolve_stack_id-Resolves handler name earlier quiet)

  write_lem :
      (w : ConfigWrite) (patched : Patched)
      → IsPatchOf w patched
      → Always
          (IsWritten w)
          []
          (write_patch handler (selector_of w) patched.0 patched.1 (read_tool_of w))
  write_lem w patched valid =
      Always-map (λ h r once. found h r once) []
        (write_patch handler (selector_of w) patched.0 patched.1 (read_tool_of w))
        (patch_lem [] (selector_of w) (read_tool_of w) patched tt)
    where
      found :
          (h : Log) (r : Result McpError ConfigWriteResult)
          → Refused h r ⊎ IsPatched [] (selector_of w) (read_tool_of w) patched h r
          → IsWritten w h r
      found h r (inl x) = inl x
      found h r (inr x) = inr (patched, valid, x)

  -- A validation that comes before any call.
  pub checked :
      {X A : Type 0} (P : Log → Result McpError A → Type 0) {h : Log} (check : Result McpError X)
      (f : X → Tool A)
      → ((e : McpError) → P h (err e))
      → ((x : X) → check ≡ ok x → Always P h (f x))
      → Always P h (done check >>= f)
  checked P (ok x) f refused passed = passed x refl
  checked P (err e) f refused passed = refused e

  refused_now : (w : ConfigWrite) (e : McpError) → IsWritten w [] (err e)
  refused_now w e = inl (record { quiet = tt; error = e; fails = refl })

  -- Whatever the calls reply, a write of configuration either fails and submits nothing, or updates
  -- once: directly after a check that admits it, the stack that the selector picks, with a patch of
  -- exactly the fields that the input gives, one at least. Each path in it has 1 to 512 bytes without a
  -- control character, but for that of a command, which may also be empty; there are 50 file paths at
  -- most, and each content has 256 KiB at most. It then answers with the names of these fields, or fails
  -- with an error that, if the outcome is unknown, names the tool to reconcile it with and says that a
  -- retry is not safe.
  pub write_once : (w : ConfigWrite) → Always (IsWritten w) [] (perform w)
  unfolding stack_config_patch stack_compose_write stack_environment_write stack_commands_write
      stack_webhook_update
  write_once (patches input) =
      let w = patches input in
      checked (IsWritten w) (validate_selector input.selector) _ (refused_now w) λ _ _.
        checked (IsWritten w) (config_patch input) _ (refused_now w)
          λ patched e. write_lem w patched (config_patch_sound input patched e)
  write_once (writes_compose input) =
      let w = writes_compose input in
      checked (IsWritten w) (validate_selector input.selector) _ (refused_now w) λ _ _.
        checked (IsWritten w) (validate_write_content input.contents) _ (refused_now w)
          λ _ e. write_lem w _ (validate_write_content_sound input.contents e, refl)
  write_once (writes_environment input) =
      let w = writes_environment input in
      checked (IsWritten w) (validate_selector input.selector) _ (refused_now w) λ _ _.
        checked (IsWritten w) (validate_write_content input.environment) _ (refused_now w)
          λ _ e. write_lem w _ (validate_write_content_sound input.environment e, refl)
  write_once (writes_commands input) =
      let w = writes_commands input in
      checked (IsWritten w) (validate_selector input.selector) _ (refused_now w) λ _ _.
        checked (IsWritten w) (commands_patch input) _ (refused_now w)
          λ patched e. write_lem w patched (commands_patch_sound input patched e)
  write_once (updates_webhook input) =
      let w = updates_webhook input in
      checked (IsWritten w) (validate_selector input.selector) _ (refused_now w) λ _ _.
        checked (IsWritten w) (webhook_patch input) _ (refused_now w)
          λ patched e. write_lem w patched (webhook_patch_sound input patched e)

  abbrev pub IsFileWritten : FileWriteInput → Log → Result McpError FileWriteResult → Type 0
  IsFileWritten input =
      Once handler (IsStack [] input.selector)
        (λ target. write_stack_file target input.file_path input.contents) (λ _ reply. reply)
        (text "operations.search") (file_write_result input)

  -- Whatever the calls reply, the write of a file either fails and submits nothing, or writes the
  -- contents to the path once: directly after a check that admits it, on the stack that the selector
  -- picks. It then answers with the receipt, or fails with an error that, if the outcome is unknown,
  -- says how to reconcile it and that a retry is not safe.
  pub file_write_once :
      (input : FileWriteInput) → Always (IsFileWritten input) [] (stack_file_write handler input)
  unfolding stack_file_write
  file_write_once input =
      let refused : (e : McpError) → IsFileWritten input [] (err e) =
        λ e. inl (record { quiet = tt; error = e; fails = refl }) in
      checked (IsFileWritten input) (validate_selector input.selector) _ refused λ _ _.
        checked (IsFileWritten input) (validate_write_path input.file_path) _ refused λ _ _.
          checked (IsFileWritten input) (validate_write_content input.contents) _ refused λ _ _.
            submit-Once handler (IsStack [] input.selector)
              (λ target. write_stack_file target input.file_path input.contents) (λ _ reply. reply)
              (text "operations.search") (file_write_result input)
              (resolve_stack_id handler input.selector) []
              (resolve_stack_id-Resolves handler input.selector [] tt)
