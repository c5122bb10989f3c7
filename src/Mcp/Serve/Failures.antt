-- ===== src/Mcp/Serve/Failures.antt =====
-- crates/komodo-mcp/src/lib.rs: what `call_tool` lets through: results with the trust annotation, and no
-- error that tells of a file with credentials.
use mcp_komodo_rs.Prelude.{
  ℕ, zero, suc, ◌≡◌, refl, true, false, Option, some, none, Option-cases, Bool-cases, inl, inr,
  List, [], ◌∷◌, Result, ok, err,
}
use mcp_komodo_rs.Prelude.Text.{Text}
use mcp_komodo_rs.Prelude.Tasks.{
  done, call, ◌>>=◌, Always, After, Always-bind, Always-attempt, Always-map,
}
use mcp_komodo_rs.Mcp.Errors.{McpError, ended}
use mcp_komodo_rs.Mcp.Execution.{has_ended}
use mcp_komodo_rs.Mcp.Profile.Dispatch.{ToolProfile, Handler, DispatchError}
use mcp_komodo_rs.Mcp.Tasks.Calls.{KomodoMcp, Tool, Log}
use mcp_komodo_rs.Mcp.Reads.History.{PreparedDocument}
use mcp_komodo_rs.Mcp.Serve.Run.{run}
use mcp_komodo_rs.Mcp.Serve.CallTool.{
  CallToolRequestParams, CallToolResult, Serde, select_biased, parse, structured, trust_annotated,
  has_credential_file, failure_result, answer, invocation, serve, dispatch_call, check_budget,
  call_tool,
}

module _ {A : Type 0} (P : Log → Result McpError A → Type 0) where
  select_biased-Always :
      ((h : Log) → P h (err ended))
      → (lifetime : Option ℕ) (h : Log) (t : Tool A) → Always P h t
      → Always P h (select_biased lifetime t)
  unfolding select_biased
  select_biased-Always stopped none h t holds = holds
  select_biased-Always stopped (some zero) h t holds = stopped h
  select_biased-Always stopped (some (suc n)) h (done r) holds = holds
  select_biased-Always stopped (some (suc n)) h (call c k) holds =
      λ r. select_biased-Always stopped (some n) ((c, r) ∷ h) (k r) (holds r)

module _ {V : Type 0} where
  abbrev IsAnnotated : Result McpError (CallToolResult V) → Type 0
  IsAnnotated (ok result) = result.untrusted ≡ some true
  IsAnnotated (err error) = Unit {0}

  -- A result has the trust annotation; an error does not tell of a file with credentials.
  abbrev pub IsReported : Result McpError (CallToolResult V) → Type 0
  IsReported (ok result) = result.untrusted ≡ some true
  IsReported (err error) = has_credential_file error ≡ false

  abbrev Annotated : Log → Result McpError (CallToolResult V) → Type 0
  Annotated h r = IsAnnotated r

  abbrev Reported : Log → Result McpError (CallToolResult V) → Type 0
  Reported h r = IsReported r

  -- A task ends with an error that has nothing to annotate, or as what follows it.
  then-Annotated :
      {A : Type 0} (f : A → Tool (CallToolResult V)) (h : Log) (m : Tool A)
      → ((h : Log) (a : A) → Always Annotated h (f a))
      → Always Annotated h (m >>= f)
  then-Annotated f h (done (ok a)) holds = holds h a
  then-Annotated f h (done (err e)) holds = tt
  then-Annotated f h (call c k) holds = λ r. then-Annotated f ((c, r) ∷ h) (k r) holds

  check_budget-Always :
      (f : Unit {0} → Tool (CallToolResult V)) (handler : KomodoMcp)
      → ((h : Log) → Always Reported h (f tt))
      → Always (After Reported f) [] (check_budget handler)
  unfolding check_budget has_ended has_credential_file ended
  check_budget-Always f handler holds = elim (Option-cases handler.budget) [
    | inl absent ↦ rw (absent, check_budget) (holds [])
    | inr (budget, e) ↦
        rw (e, check_budget)
          λ lifetime. elim (Bool-cases (has_ended budget lifetime.budget_cancelled lifetime.now)) [
            | inl late ↦ rw late refl
            | inr in_time ↦ rw in_time (holds _)
          ]
  ]

module _ {V : Type 0} (serde : Serde V) where
  failure_result-IsReported :
      (error : McpError)
      → has_credential_file error ≡ true
      → IsReported (failure_result serde error)
  unfolding failure_result has_credential_file structured
  failure_result-IsReported error told = elim (Option-cases error.error_data) [
    | inl absent ↦ absurd (cc (rw absent at told))
    | inr (details, given) ↦
        elim (Option-cases (
          serde.failure_to_value
            (record { code = error.code; message = error.message; error_data = details }))) [
              | inl failed ↦ rw (given, failed) refl
              | inr (v, written) ↦ rw (given, written) refl
            ]
  ]

  answer-IsReported :
      (r : Result McpError (CallToolResult V)) → IsAnnotated r → IsReported (answer serde r)
  unfolding answer
  answer-IsReported (ok result) annotated = annotated
  answer-IsReported (err error) annotated = elim (Bool-cases (has_credential_file error)) [
    | inl told ↦ rw told (failure_result-IsReported error told)
    | inr untold ↦ rw untold untold
  ]

  module _ (prepare : Text → PreparedDocument) (from_utf8 : List ℕ → Option Text) where
    serve-IsAnnotated :
        (handler : KomodoMcp) (params : CallToolRequestParams V) (d : Result DispatchError Handler)
        (h : Log)
        → Always (λ h r. IsAnnotated r) h (serve serde prepare from_utf8 handler params d)
    unfolding serve
    serve-IsAnnotated handler params (err e) h = tt
    serve-IsAnnotated handler params (ok method) h =
        then-Annotated _ h (done (parse serde method params)) λ h input.
          then-Annotated _ h (run prepare from_utf8 handler method input) λ h output.
            then-Annotated (λ result. done (ok (trust_annotated serde result))) h
              (done (structured serde (serde.to_value method output))) λ h result. refl

    -- Whatever the serialization does and whenever the call is cancelled, the result of a call of a tool
    -- has the trust annotation, and an error of a call does not tell of a file with credentials, nor
    -- that there is none: the call answers such an error as a result.
    pub call_tool-IsReported :
        (profile : ToolProfile) (lifetime : Option ℕ) (handler : KomodoMcp)
        (params : CallToolRequestParams V)
        → Always
            (λ h r. IsReported r)
            []
            (call_tool serde prepare from_utf8 profile lifetime handler params)
    unfolding call_tool dispatch_call
    call_tool-IsReported profile lifetime handler params =
        Always-bind Reported _ [] (check_budget handler) (
          check_budget-Always _ handler λ h.
            Always-attempt Reported (λ r. done (answer serde r)) h _
              (Always-map (λ h r. answer-IsReported r) h _
                (select_biased-Always Annotated (λ h. tt) lifetime h _
                  (serve-IsAnnotated (invocation handler) params _ h))))
