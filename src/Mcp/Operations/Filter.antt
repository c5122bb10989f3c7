-- ===== src/Mcp/Operations/Filter.antt =====
-- crates/komodo-mcp/src/lib.rs: `OperationSearchFilter` and its `validated_query`.
use mcp_komodo_rs.Prelude.{
  Bool, true, false, not, ◌||◌, Option, some, none, is_some_and, Result, ok, ◌>>◌, refuse,
}
use mcp_komodo_rs.Prelude.Int.{ℤ, pos, int_ltb}
use mcp_komodo_rs.Prelude.Text.{Text, text}
use mcp_komodo_rs.Api.Types.{OperationTarget}
use mcp_komodo_rs.Api.Operations.{
  UpdateStatusFilter, queued, in_progress, complete, other, OperationQuery,
}
use mcp_komodo_rs.Mcp.Errors.{McpError, invalid_params}
use mcp_komodo_rs.Mcp.Inputs.Validate.{validate_selector}
use mcp_komodo_rs.Mcp.Operations.Outcome.{
  OperationOutcome, accepted, running, succeeded, failed, unknown,
}

pub record OperationTargetFilter : Type 0 where
  pub kind : Text
  pub id : Text

pub record OperationSearchFilter : Type 0 where
  pub target : Option OperationTargetFilter
  pub operation : Option Text
  pub outcome : Option OperationOutcome
  pub started_after : Option ℤ
  pub started_before : Option ℤ

abbrev pub is_negative : ℤ → Bool
is_negative i = int_ltb i (pos 0)

unfoldable pub validate_target : Option OperationTargetFilter → Result McpError (Unit {0})
validate_target none = ok tt
validate_target (some target) = validate_selector target.kind >> validate_selector target.id

unfoldable pub validate_operation : Option Text → Result McpError (Unit {0})
validate_operation none = ok tt
validate_operation (some operation) = validate_selector operation

-- The status and the success that stand for an outcome.
unfoldable pub outcome_query : Option OperationOutcome → Option UpdateStatusFilter × Option Bool
outcome_query none = (none, none)
outcome_query (some accepted) = (some queued, none)
outcome_query (some running) = (some in_progress, none)
outcome_query (some succeeded) = (some complete, some true)
outcome_query (some failed) = (some complete, some false)
outcome_query (some unknown) = (some other, none)

abbrev pub target_of : OperationTargetFilter → OperationTarget
target_of target = record { kind = target.kind; id = target.id }

abbrev pub map_option : {A B : Type 0} → (A → B) → Option A → Option B
map_option f none = none
map_option f (some a) = some (f a)

-- OperationSearchFilter::validated_query
unfoldable pub validated_query : OperationSearchFilter → Result McpError OperationQuery
validated_query filter = do
  validate_target filter.target
  validate_operation filter.operation
  refuse
      (is_some_and filter.started_after is_negative
        || (is_some_and filter.started_before is_negative
            || is_some_and filter.started_after (λ after.
              is_some_and filter.started_before (λ before. not (int_ltb after before)))))
      (invalid_params (
        text
          "operation timestamps must be nonnegative and started_after must precede started_before"))
  ok (record {
    target = map_option target_of filter.target;
    operation = filter.operation;
    status = (outcome_query filter.outcome).0;
    success = (outcome_query filter.outcome).1;
    started_after = filter.started_after;
    started_before = filter.started_before;
  })
