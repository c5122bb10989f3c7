-- ===== src/Mcp/Operations/Outcome.antt =====
-- crates/komodo-mcp/src/lib.rs: `operation_outcome` and `normalize_receipt`.
use mcp_komodo_rs.Prelude.{Bool, true, false, if◌then◌else◌, Option, some, none}
use mcp_komodo_rs.Prelude.Int.{ℤ}
use mcp_komodo_rs.Prelude.Text.{Text, text, str_eq}
use mcp_komodo_rs.Api.Types.{MutationReceipt}

pub data OperationOutcome : Type 0 where
  accepted running succeeded failed unknown : OperationOutcome

unfoldable pub operation_outcome : Text → Bool → OperationOutcome × Option Bool
operation_outcome status success =
    if str_eq status (text "Queued")
    then (accepted, none)
    else if str_eq status (text "InProgress")
    then (running, none)
    else if str_eq status (text "Complete")
    then if success then (succeeded, some true) else (failed, some false)
    else (unknown, none)

pub record MutationOutput : Type 0 where
  pub operation_id : Text
  pub operation : Text
  pub target : Text
  pub start_ts : ℤ
  pub success : Option Bool
  pub status : Text
  pub outcome : OperationOutcome

unfoldable pub normalize_receipt : MutationReceipt → Text → MutationOutput
normalize_receipt receipt target = record {
  operation_id = receipt.operation_id;
  operation = receipt.operation;
  target = target;
  start_ts = receipt.start_ts;
  success = (operation_outcome receipt.status receipt.success).1;
  status = receipt.status;
  outcome = (operation_outcome receipt.status receipt.success).0;
}
