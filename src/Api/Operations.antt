-- ===== src/Api/Operations.antt =====
-- crates/komodo-api/src/operations.rs: `UpdateStatusFilter`, `OperationQuery`, its `matches` and its
-- `upstream_query`.
use mcp_komodo_rs.Prelude.{
  Bool, true, false, not, ◌&&◌, ◌||◌, Option, some, none, is_some_and, is_none_or, if◌then◌else◌,
  [], ◌∷◌,
}
use mcp_komodo_rs.Prelude.Int.{ℤ, int_ltb}
use mcp_komodo_rs.Prelude.Text.{Text, text, str_eq}
use mcp_komodo_rs.Api.Types.{OperationTarget, OperationItem}
use mcp_komodo_rs.Api.Json.{
  Json, bool, number, string, array, object, Fields, end, field, strings, optional_field,
}

pub data UpdateStatusFilter : Type 0 where
  queued in_progress complete other : UpdateStatusFilter

-- UpdateStatusFilter::matches
unfoldable pub status_matches : UpdateStatusFilter → Text → Bool
status_matches queued status = str_eq status (text "Queued")
status_matches in_progress status = str_eq status (text "InProgress")
status_matches complete status = str_eq status (text "Complete")
status_matches other status = not (
    str_eq status (text "Queued")
    || (str_eq status (text "InProgress") || str_eq status (text "Complete")))

pub record OperationQuery : Type 0 where
  pub target : Option OperationTarget
  pub operation : Option Text
  pub status : Option UpdateStatusFilter
  pub success : Option Bool
  pub started_after : Option ℤ
  pub started_before : Option ℤ

abbrev pub bool_eq : Bool → Bool → Bool
bool_eq true b = b
bool_eq false b = not b

abbrev pub target_eq : OperationTarget → OperationTarget → Bool
target_eq a b = str_eq a.kind b.kind && str_eq a.id b.id

-- OperationQuery::matches
unfoldable pub matches : OperationQuery → OperationItem → Bool
matches query item =
    is_none_or query.target (λ target. is_some_and item.target (λ t. target_eq t target))
    && (is_none_or query.operation (λ operation. str_eq item.operation operation)
        && (is_none_or query.status (λ status. status_matches status item.status)
            && (is_none_or query.success (λ success. bool_eq item.success success)
                && (is_none_or query.started_after (λ after. not (int_ltb item.start_ts after))
                    && is_none_or query.started_before (λ before. int_ltb item.start_ts before)))))

-- The value of `status`, `{"$nin": […]}` for other states.
unfoldable pub status_json : UpdateStatusFilter → Json
status_json queued = string (text "Queued")
status_json in_progress = string (text "InProgress")
status_json complete = string (text "Complete")
status_json other = object (
    field (text "$nin") (array (strings (text "Queued" ∷ text "InProgress" ∷ text "Complete" ∷ [])))
      end)

abbrev pub has_fields : Fields → Bool
has_fields end = false
has_fields (field key value fields) = true

abbrev pub target_fields : Option OperationTarget → Fields → Fields
target_fields none fields = fields
target_fields (some target) fields =
    field (text "target.type") (string target.kind)
      (field (text "target.id") (string target.id) fields)

-- `time`
abbrev pub time_fields : OperationQuery → Fields
time_fields query =
    optional_field (text "$gte") number query.started_after
      (optional_field (text "$lt") number query.started_before end)

abbrev pub query_fields : OperationQuery → Fields
query_fields query = target_fields query.target (
    optional_field (text "operation") string query.operation (
      optional_field (text "status") status_json query.status (
        optional_field (text "success") bool query.success (
          if has_fields (time_fields query)
          then field (text "start_ts") (object (time_fields query)) end
          else end))))

-- OperationQuery::upstream_query
unfoldable pub upstream_query : OperationQuery → Option Json
unfolding status_json
upstream_query query =
    if has_fields (query_fields query) then some (object (query_fields query)) else none
