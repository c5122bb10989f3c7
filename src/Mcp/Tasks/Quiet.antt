-- ===== src/Mcp/Tasks/Quiet.antt =====
-- crates/komodo-mcp/src/errors.rs: reporting an error submits nothing, and says of an uncertain mutation
-- how to reconcile it.
use mcp_komodo_rs.Prelude.{
  ℕ, ◌≡◌, refl, ◌⊎◌, inl, inr, false, if◌then◌else◌, some, Option-cases, Bool-cases, List, [], ◌∷◌,
  ◌++◌, All, Result, ok,
}
use mcp_komodo_rs.Prelude.Text.{Text, text}
use mcp_komodo_rs.Prelude.Tasks.{done, Always, Always-bind, Always-map}
use mcp_komodo_rs.Api.Errors.{ApiError, upstream, mutation_outcome_unknown, display}
use mcp_komodo_rs.Mcp.Errors.{McpError, CredentialFailureData, UpstreamDiagnostic}
use mcp_komodo_rs.Mcp.Tasks.Calls.{KomodoMcp, Call, Reply, Tool, Log, is_submission, publish}
use mcp_komodo_rs.Mcp.Tasks.Report.{
  upstream_diagnostic, api_error, publish_document, mutation_error, reconcile,
}

-- A call that is not one of the administrative client.
abbrev pub IsQuiet : ((c : Call) × Reply c) → Type 0
IsQuiet e = is_submission e.0 ≡ false

-- The calls made since the log `h` are quiet, and the result is as `Q` says.
pub record Extends {A : Type 0} (Q : Result McpError A → Type 0) (h h' : Log)
    (r : Result McpError A) : Type 0 where
  pub after : Log
  pub events : h' ≡ after ++ h
  pub quiet : All IsQuiet after
  pub holds : Q r

abbrev pub IsOk : {A : Type 0} → Result McpError A → Type 0
IsOk {A} r = (a : A) × (r ≡ ok a)

-- What an error says of a mutation: where its outcome is unknown, that it is not safe to retry, what
-- its target is, and the tool with which to reconcile it.
abbrev pub Reports : ApiError → Text → Text → McpError → Type 0
Reports error target read_tool result =
    (mutation_outcome_unknown error ≡ false)
    ⊎ ((said : CredentialFailureData) × (result.error_data ≡ some said)
        × (said.retry_safe ≡ some false)
        × (said.target ≡ some target)
        × (said.reconcile_with ≡ some read_tool))

module _ (handler : KomodoMcp) where
  publish_document-quiet :
      (message : Text) (diagnostic : UpstreamDiagnostic) (bytes : List ℕ) (h : Log)
      → Always (Extends IsOk h) h (publish_document handler message diagnostic bytes)
  unfolding publish_document is_submission
  publish_document-quiet message diagnostic bytes h = elim (Option-cases handler.credential_files) [
    | inl missing ↦
        rw (missing, publish_document)
          (record { after = []; events = refl; quiet = tt; holds = (_, refl) })
    | inr (owner, e) ↦
        rw (e, publish_document)
          λ reply. record {
            after =
                (publish owner (text "komodo-diagnostic.txt") (text "text/plain") bytes, reply)
                ∷ [];
            events = refl;
            quiet = (refl, tt);
            holds = (_, refl);
          }
  ]

  -- Reporting an error of the API gives an error, and submits nothing.
  pub api_error-quiet :
      (error : ApiError) (h : Log) → Always (Extends IsOk h) h (api_error handler error)
  unfolding api_error
  api_error-quiet (upstream failure) h = elim (Option-cases failure.original) [
    | inl missing ↦ rw missing (record { after = []; events = refl; quiet = tt; holds = (_, refl) })
    | inr (bytes, e) ↦
        rw e (
          publish_document-quiet (display (upstream failure)) (upstream_diagnostic failure) bytes h)
  ]
  api_error-quiet _ h = record { after = []; events = refl; quiet = tt; holds = (_, refl) }

  reports_lem :
      (target read_tool : Text) (error : ApiError) (result : McpError)
      → Reports error target read_tool (
          if mutation_outcome_unknown error
          then reconcile handler target read_tool result
          else result)
  unfolding reconcile
  reports_lem target read_tool error result = elim (Bool-cases (mutation_outcome_unknown error)) [
    | inl unknown ↦ rw unknown (inr (_, refl, refl, refl, refl))
    | inr certain ↦ inl certain
  ]

  -- Reporting an error of a mutation gives an error that says how to reconcile it, and submits nothing.
  pub mutation_error-quiet :
      (target read_tool : Text) (error : ApiError) (h : Log)
      → Always
          (Extends (λ r. (e : McpError) × (r ≡ ok e) × Reports error target read_tool e) h)
          h
          (mutation_error handler target read_tool error)
  unfolding mutation_error
  mutation_error-quiet target read_tool error h =
      let P : Log → Result McpError McpError → Type 0 =
        Extends (λ r. (e : McpError) × (r ≡ ok e) × Reports error target read_tool e) h in
      let f : McpError → Tool McpError = λ result. done (
        ok (
          if mutation_outcome_unknown error
          then reconcile handler target read_tool result
          else result)) in
      Always-bind P f h (api_error handler error) (
        Always-map
          (λ h' r x. rw x.holds.1 (record {
            after = x.after;
            events = x.events;
            quiet = x.quiet;
            holds = (_, refl, reports_lem target read_tool error x.holds.0);
          }))
          h (api_error handler error) (api_error-quiet error h))
