-- ===== src/Mcp/Operations/Matches.antt =====
-- crates/komodo-mcp/src/lib.rs and crates/komodo-api/src/operations.rs: which operations a filter lets
-- through.
use mcp_komodo_rs.Prelude.{
  ◌≡◌, refl, inl, inr, Bool, true, false, not, ◌&&◌, Option, some, none, is_some_and, is_none_or,
  ok, Bool-cases, arith,
}
use mcp_komodo_rs.Prelude.Int.{int_ltb}
use mcp_komodo_rs.Prelude.Text.{Text, text, str_eq, str_eq_sound, str_eq_refl}
use mcp_komodo_rs.Api.Types.{OperationItem}
use mcp_komodo_rs.Mcp.Operations.Outcome.{
  OperationOutcome, accepted, running, succeeded, failed, unknown, operation_outcome,
}
use mcp_komodo_rs.Api.Operations.{status_matches, OperationQuery, matches, target_eq, bool_eq}
use mcp_komodo_rs.Mcp.Operations.Filter.{
  OperationSearchFilter, OperationTargetFilter, outcome_query, validated_query, target_of,
  map_option,
}

-- The outcome of an item, and when it is the one that a filter asks for.
abbrev pub same_outcome : OperationOutcome → OperationOutcome → Bool
same_outcome accepted accepted = true
same_outcome running running = true
same_outcome succeeded succeeded = true
same_outcome failed failed = true
same_outcome unknown unknown = true
same_outcome _ _ = false

-- A text is equal to one of two different texts at most.
exclusive : (s a b : Text) → str_eq a b ≡ false → (str_eq s a && str_eq s b) ≡ false
exclusive s a b differ = elim (Bool-cases (str_eq s a)) [
  | inr miss ↦ rw miss
  | inl hit ↦ rw (str_eq_sound s a hit, str_eq_refl a, differ)
]

module _ (status : Text) where
  not_running : (str_eq status (text "Queued") && str_eq status (text "InProgress")) ≡ false
  unfolding str_eq
  not_running = exclusive status (text "Queued") (text "InProgress") refl

  not_complete : (str_eq status (text "Queued") && str_eq status (text "Complete")) ≡ false
  unfolding str_eq
  not_complete = exclusive status (text "Queued") (text "Complete") refl

  not_both : (str_eq status (text "InProgress") && str_eq status (text "Complete")) ≡ false
  unfolding str_eq
  not_both = exclusive status (text "InProgress") (text "Complete") refl

outcome_lem :
    (outcome : Option OperationOutcome) (status : Text) (success : Bool)
    → (is_none_or (outcome_query outcome).0 (λ filter. status_matches filter status)
        && is_none_or (outcome_query outcome).1 (λ s. bool_eq success s))
      ≡ is_none_or outcome (same_outcome (operation_outcome status success).0)
unfolding outcome_query status_matches operation_outcome
outcome_lem none status success = refl
outcome_lem (some accepted) status success =
    ground (arith, not_running status, not_complete status, not_both status)
outcome_lem (some running) status success =
    ground (arith, not_running status, not_complete status, not_both status)
outcome_lem (some succeeded) status success =
    ground (arith, not_running status, not_complete status, not_both status)
outcome_lem (some failed) status success =
    ground (arith, not_running status, not_complete status, not_both status)
outcome_lem (some unknown) status success =
    ground (arith, not_running status, not_complete status, not_both status)

query_lem :
    (filter : OperationSearchFilter) (query : OperationQuery)
    → validated_query filter ≡ ok query
    → query ≡ record {
      target = map_option target_of filter.target;
      operation = filter.operation;
      status = (outcome_query filter.outcome).0;
      success = (outcome_query filter.outcome).1;
      started_after = filter.started_after;
      started_before = filter.started_before;
    }
unfolding validated_query
query_lem filter query h = ground arith

target_lem :
    (target : Option OperationTargetFilter) (item : OperationItem)
    → is_none_or
        (map_option target_of target)
        (λ target. is_some_and item.target (λ t. target_eq t target))
      ≡ is_none_or target (λ target.
        is_some_and item.target (λ t. str_eq t.kind target.kind && str_eq t.id target.id))
target_lem none item = refl
target_lem (some target) item = refl

combine :
    {a b : Bool} (o s u c r : Bool)
    → a ≡ b
    → (s && u) ≡ c
    → (a && (o && (s && (u && r)))) ≡ (b && (o && (c && r)))
combine o s u c r e f = ground (arith, e, f)

-- The query of a valid filter lets through exactly the operations that have the target and the kind
-- that are asked for, the outcome that is asked for among the normalized ones, and a start in the
-- range, which includes its first instant and not its last.
pub validated_query-matches :
    (filter : OperationSearchFilter) (query : OperationQuery) (item : OperationItem)
    → validated_query filter ≡ ok query
    → matches query item ≡ (
        is_none_or filter.target (λ target.
          is_some_and item.target (λ t. str_eq t.kind target.kind && str_eq t.id target.id))
        && (is_none_or filter.operation (str_eq item.operation)
            && (is_none_or filter.outcome
                  (same_outcome (operation_outcome item.status item.success).0)
                && (is_none_or filter.started_after (λ after. not (int_ltb item.start_ts after))
                    && is_none_or filter.started_before (int_ltb item.start_ts)))))
unfolding matches
validated_query-matches filter query item h = rw (query_lem filter query h) (
    combine _ _ _ _ _ (target_lem filter.target item)
      (outcome_lem filter.outcome item.status item.success))
