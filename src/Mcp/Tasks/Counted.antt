-- ===== src/Mcp/Tasks/Counted.antt =====
-- How often a tool calls the administrative client.
use mcp_komodo_rs.Prelude.{
  ℕ, ◌+◌, ◌≤◌, ◌≡◌, refl, Bool, true, false, if◌then◌else◌, Option-cases, if_cases, inl, inr, List,
  [], ◌∷◌, Result, ok, err, arith,
}
use mcp_komodo_rs.Prelude.Text.{Text}
use mcp_komodo_rs.Prelude.Tasks.{done, call, ◌>>=◌, or_else, Always}
use mcp_komodo_rs.Api.Errors.{ApiError, upstream, display}
use mcp_komodo_rs.Mcp.Errors.{McpError, UpstreamDiagnostic}
use mcp_komodo_rs.Mcp.Tasks.Calls.{KomodoMcp, Call, Reply, Tool, Log, is_submission}
use mcp_komodo_rs.Mcp.Tasks.Report.{
  upstream_diagnostic, api_error, publish_document, mutation_error, operation_lookup_error, admin,
}

-- None of the calls that the tool can make is a submission.
pub data IsReading {A : Type 0} : Tool A → Type 0 where
  ended : (r : Result McpError A) → IsReading (done r)
  reads :
      (c : Call) (k : Reply c → Tool A)
      → is_submission c ≡ false
      → ((r : Reply c) → IsReading (k r))
      → IsReading (call c k)

-- It makes one submission at most, whatever the replies are.
pub data IsSingle {A : Type 0} : Tool A → Type 0 where
  finished : (r : Result McpError A) → IsSingle (done r)
  asks :
      (c : Call) (k : Reply c → Tool A)
      → is_submission c ≡ false
      → ((r : Reply c) → IsSingle (k r))
      → IsSingle (call c k)
  submits :
      (c : Call) (k : Reply c → Tool A) → ((r : Reply c) → IsReading (k r)) → IsSingle (call c k)

module _ {A : Type 0} where
  pub IsReading-IsSingle : (t : Tool A) → IsReading t → IsSingle t
  IsReading-IsSingle _ (ended r) = finished r
  IsReading-IsSingle _ (reads c k q h) = asks c k q (λ r. IsReading-IsSingle (k r) (h r))

module _ {A B : Type 0} (f : A → Tool B) where
  pub bind-IsReading :
      (m : Tool A) → IsReading m → ((a : A) → IsReading (f a)) → IsReading (m >>= f)
  bind-IsReading _ (ended (ok a)) h = h a
  bind-IsReading _ (ended (err e)) h = ended (err e)
  bind-IsReading _ (reads c k q g) h = reads c _ q (λ r. bind-IsReading (k r) (g r) h)

  -- A tool that reads and goes on with one that submits once, and the other way round.
  pub bind-IsSingle : (m : Tool A) → IsReading m → ((a : A) → IsSingle (f a)) → IsSingle (m >>= f)
  bind-IsSingle _ (ended (ok a)) h = h a
  bind-IsSingle _ (ended (err e)) h = finished (err e)
  bind-IsSingle _ (reads c k q g) h = asks c _ q (λ r. bind-IsSingle (k r) (g r) h)

  pub bind-IsSingle_last :
      (m : Tool A) → IsSingle m → ((a : A) → IsReading (f a)) → IsSingle (m >>= f)
  bind-IsSingle_last _ (finished (ok a)) h = IsReading-IsSingle (f a) (h a)
  bind-IsSingle_last _ (finished (err e)) h = finished (err e)
  bind-IsSingle_last _ (asks c k q g) h = asks c _ q (λ r. bind-IsSingle_last (k r) (g r) h)
  bind-IsSingle_last _ (submits c k g) h = submits c _ (λ r. bind-IsReading (k r) (g r) h)

pub or_else-IsReading :
    {D A : Type 0} (r : Result D A) (report : D → Tool McpError)
    → ((d : D) → IsReading (report d))
    → IsReading (or_else r report)
or_else-IsReading (ok a) report h = ended (ok a)
or_else-IsReading (err d) report h = bind-IsReading _ (report d) (h d) (λ e. ended (err e))

pub if-IsReading :
    {A : Type 0} (b : Bool) {t u : Tool A}
    → IsReading t
    → IsReading u
    → IsReading (if b then t else u)
if-IsReading true h g = h
if-IsReading false h g = g

-- The submissions of a log.
abbrev pub submissions : Log → ℕ
submissions [] = 0
submissions (e ∷ h) = if is_submission e.0 then submissions h + 1 else submissions h

module _ {A : Type 0} where
  pub IsReading-counts :
      (n : ℕ) (t : Tool A)
      → IsReading t
      → (h : Log) → submissions h ≤ n
      → Always (λ h' r. submissions h' ≤ n) h t
  IsReading-counts n _ (ended r) h e = e
  IsReading-counts n _ (reads c k q g) h e =
      λ r. IsReading-counts n (k r) (g r) ((c, r) ∷ h) (rw q e)

  pub IsSingle-counts :
      (n : ℕ) (t : Tool A)
      → IsSingle t
      → (h : Log) → submissions h ≤ n
      → Always (λ h' r. submissions h' ≤ n + 1) h t
  IsSingle-counts n _ (finished r) h e = omega arith
  IsSingle-counts n _ (asks c k q g) h e = λ r. IsSingle-counts n (k r) (g r) ((c, r) ∷ h) (rw q e)
  IsSingle-counts n _ (submits c k g) h e = λ r.
      IsReading-counts (n + 1) (k r) (g r) ((c, r) ∷ h)
        (if_cases (λ (m : ℕ). m ≤ n + 1) (is_submission c) (λ _. omega arith) (λ _. omega arith))

module _ (handler : KomodoMcp) where
  publish_document-IsReading :
      (message : Text) (diagnostic : UpstreamDiagnostic) (bytes : List ℕ)
      → IsReading (publish_document handler message diagnostic bytes)
  unfolding publish_document is_submission
  publish_document-IsReading message diagnostic bytes =
      elim (Option-cases handler.credential_files) [
        | inl missing ↦ rw (missing, publish_document) (ended _)
        | inr (owner, e) ↦ rw (e, publish_document) (reads _ _ refl (λ reply. ended _))
      ]

  pub api_error-IsReading : (error : ApiError) → IsReading (api_error handler error)
  unfolding api_error
  api_error-IsReading (upstream failure) = elim (Option-cases failure.original) [
    | inl missing ↦ rw missing (ended _)
    | inr (bytes, e) ↦ rw e (
        publish_document-IsReading (display (upstream failure)) (upstream_diagnostic failure) bytes)
  ]
  api_error-IsReading _ = ended _

  pub mutation_error-IsReading :
      (target read_tool : Text) (error : ApiError)
      → IsReading (mutation_error handler target read_tool error)
  unfolding mutation_error
  mutation_error-IsReading target read_tool error =
      bind-IsReading _ (api_error handler error) (api_error-IsReading error) (λ e. ended _)

  pub operation_lookup_error-IsReading :
      (error : ApiError) → IsReading (operation_lookup_error handler error)
  unfolding operation_lookup_error
  operation_lookup_error-IsReading error =
      bind-IsReading _ (api_error handler error) (api_error-IsReading error) (λ e. ended _)

  pub admin-IsReading : IsReading (admin handler)
  unfolding admin is_submission
  admin-IsReading = reads _ _ refl (λ lifetime. ended _)

  pub answer-IsReading :
      {A : Type 0} (reply : Result ApiError A) → IsReading (or_else reply (api_error handler))
  answer-IsReading reply = or_else-IsReading reply (api_error handler) api_error-IsReading
