-- ===== src/Mcp/Mutations/Once.antt =====
-- crates/komodo-mcp/src/lib.rs: a mutating method either submits nothing and fails, or submits one
-- call, to the target that it resolved.
use mcp_komodo_rs.Prelude.{
  ◌≡◌, refl, ◌⊎◌, inl, inr, [], ◌∷◌, ◌++◌, All, Result, ok, err, Result-cases,
}
use mcp_komodo_rs.Prelude.Text.{Text}
use mcp_komodo_rs.Prelude.Tasks.{
  done, ◌>>=◌, await, or_else, Always, After, Always-bind, Always-map,
}
use mcp_komodo_rs.Api.Errors.{ApiError}
use mcp_komodo_rs.Mcp.Errors.{McpError}
use mcp_komodo_rs.Mcp.Tasks.Calls.{
  KomodoMcp, Lifetime, Call, Reply, Tool, Log, is_submission, read_lifetime,
}
use mcp_komodo_rs.Mcp.Tasks.Report.{admit, admin, mutation_error}
use mcp_komodo_rs.Mcp.Tasks.Quiet.{IsQuiet, Reports, mutation_error-quiet}
use mcp_komodo_rs.Mcp.Mutations.Submit.{submit}

-- The task has submitted nothing, and fails.
pub record Refused {A : Type 0} (h : Log) (r : Result McpError A) : Type 0 where
  pub quiet : All IsQuiet h
  pub error : McpError
  pub fails : r ≡ err error

-- The target has been resolved as `P` says, or the resolution has failed, and nothing is submitted.
pub data Resolves (P : Text → Log → Type 0) (h : Log) (r : Result McpError Text) : Type 0 where
  resolves : All IsQuiet h → (target : Text) → r ≡ ok target → P target h → Resolves P h r
  fails : All IsQuiet h → (error : McpError) → r ≡ err error → Resolves P h r

pub IsQuiet-append : (xs ys : Log) → All IsQuiet xs → All IsQuiet ys → All IsQuiet (xs ++ ys)
IsQuiet-append [] ys qx qy = qy
IsQuiet-append (x ∷ xs) ys (q, qx) qy = (q, IsQuiet-append xs ys qx qy)

module _ (handler : KomodoMcp) (P : Text → Log → Type 0) {A B : Type 0} (submission : Text → Call)
    (outcome : (target : Text) → Reply (submission target) → Result ApiError B) (read_tool : Text)
    (output : Text → B → A) where
  -- How the method ends after the reply to its submission.
  pub data Ends (target : Text) (reply : Reply (submission target)) (r : Result McpError A)
      : Type 0 where
    answers :
        (answer : B)
        → outcome target reply ≡ ok answer
        → r ≡ ok (output target answer)
        → Ends target reply r
    errs :
        (error : ApiError)
        → outcome target reply ≡ err error
        → (e : McpError) → r ≡ err e
        → Reports error target read_tool e
        → Ends target reply r

  -- The task has made its submission once, directly after a check that admits it, to a target that was
  -- resolved before.
  pub record Submitted (h : Log) (r : Result McpError A) : Type 0 where
    pub target : Text
    pub lifetime : Lifetime
    pub reply : Reply (submission target)
    pub before : Log
    pub after : Log
    pub events : h ≡ after ++ (submission target, reply) ∷ (read_lifetime, lifetime) ∷ before
    pub quiet_before : All IsQuiet before
    pub quiet_after : All IsQuiet after
    pub resolved : P target before
    pub admitted : admit handler lifetime ≡ ok tt
    pub ends : Ends target reply r

  abbrev pub Once : Log → Result McpError A → Type 0
  Once h r = Refused h r ⊎ Submitted h r

  -- What `submit` does with the target.
  abbrev rest : Text → Tool A
  rest target = admin handler >>= λ _. await (submission target) >>= λ reply.
      or_else (outcome target reply) (mutation_error handler target read_tool) >>= λ answer.
      done (ok (output target answer))

  errs-Once :
      (target : Text) (lifetime : Lifetime) (reply : Reply (submission target)) (h : Log)
      → All IsQuiet h
      → P target h
      → admit handler lifetime ≡ ok tt
      → (error : ApiError) → outcome target reply ≡ err error
      → Always Once ((submission target, reply) ∷ (read_lifetime, lifetime) ∷ h) (
          or_else (err error) (mutation_error handler target read_tool) >>= λ answer.
          done (ok (output target answer)))
  errs-Once target lifetime reply h quiet resolved admitted error e =
      let h1 : Log = (submission target, reply) ∷ (read_lifetime, lifetime) ∷ h in
      let finish : B → Tool A = λ answer. done (ok (output target answer)) in
      let raise : McpError → Tool B = λ e. done (err e) in
      Always-bind Once finish h1 (mutation_error handler target read_tool error >>= raise) (
        Always-bind (After Once finish) raise h1 (mutation_error handler target read_tool error) (
          Always-map
            (λ h' r x. rw x.holds.1 (
              inr (record {
                target = target;
                lifetime = lifetime;
                reply = reply;
                before = h;
                after = x.after;
                events = x.events;
                quiet_before = quiet;
                quiet_after = x.quiet;
                resolved = resolved;
                admitted = admitted;
                ends = errs error e x.holds.0 refl x.holds.2;
              })))
            h1 (mutation_error handler target read_tool error)
            (mutation_error-quiet handler target read_tool error h1)))

  report-Once :
      (target : Text) (lifetime : Lifetime) (reply : Reply (submission target)) (h : Log)
      → All IsQuiet h
      → P target h
      → admit handler lifetime ≡ ok tt
      → Always Once ((submission target, reply) ∷ (read_lifetime, lifetime) ∷ h) (
          or_else (outcome target reply) (mutation_error handler target read_tool) >>= λ answer.
          done (ok (output target answer)))
  report-Once target lifetime reply h quiet resolved admitted =
      elim (Result-cases (outcome target reply)) [
        | inl (answer, e) ↦ rw e (
            inr (record {
              target = target;
              lifetime = lifetime;
              reply = reply;
              before = h;
              after = [];
              events = refl;
              quiet_before = quiet;
              quiet_after = tt;
              resolved = resolved;
              admitted = admitted;
              ends = answers answer e refl;
            }))
        | inr (error, e) ↦ rw e (errs-Once target lifetime reply h quiet resolved admitted error e)
      ]

  rest-Once : (target : Text) (h : Log) → All IsQuiet h → P target h → Always Once h (rest target)
  unfolding admin is_submission
  rest-Once target h quiet resolved = λ lifetime. elim (Result-cases (admit handler lifetime)) [
    | inl (_, admitted) ↦
        rw admitted λ reply. report-Once target lifetime reply h quiet resolved admitted
    | inr (error, e) ↦ rw e (inl (record { quiet = (refl, quiet); error = error; fails = refl }))
  ]

  -- Given how its target is resolved, `submit` makes at most one submission.
  pub submit-Once :
      (resolve : Tool Text) (h : Log)
      → Always (Resolves P) h resolve
      → Always Once h (submit handler submission outcome read_tool output resolve)
  unfolding submit
  submit-Once resolve h resolved =
      Always-bind Once rest h resolve (Always-map next h resolve resolved)
    where
      next : (h : Log) (r : Result McpError Text) → Resolves P h r → After Once rest h r
      next h r (resolves quiet target e found) = rw e (rest-Once target h quiet found)
      next h r (fails quiet error e) =
          rw e (inl (record { quiet = quiet; error = error; fails = refl }))
