-- ===== src/Mcp/Execution.antt =====
-- crates/komodo-mcp/src/execution.rs: the deadline and the cancellation that one request shares with
-- its tool execution.
use mcp_komodo_rs.Prelude.{ℕ, Bool, ◌||◌, leb}

-- The budget's own state is its deadline; whether its token is cancelled is read at each check.
pub record ExecutionBudget : Type 0 where
  pub deadline : ℕ

-- `ExecutionBudget::check`: whether it fails, with the error `ended()`.
unfoldable pub has_ended : ExecutionBudget → Bool → ℕ → Bool
has_ended budget is_cancelled now = is_cancelled || leb budget.deadline now
