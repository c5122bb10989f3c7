-- ===== src/Server/Lifecycle/Limits.antt =====
-- crates/komodo-server/src/lifecycle.rs: `RequestLimits`, `RequestLease`, `admit` and `LifetimeBody`. A
-- lease is shared by the transport and by the handlers that run for its request; its permit is given
-- back when the last of them drops it.
use mcp_komodo_rs.Prelude.{
  ℕ, zero, suc, ◌+◌, ◌-◌, Bool, true, false, leb, if◌then◌else◌, Option, some, none, List, [], ◌∷◌,
  map,
}
use mcp_komodo_rs.Prelude.Text.{Text, text}
use mcp_komodo_rs.Mcp.Execution.{ExecutionBudget, has_ended}
use mcp_komodo_rs.Server.Files.Types.{Platform}

-- The owners of its permit, its budget, and whether the budget's token is cancelled.
pub record RequestLease : Type 0 where
  pub owners : ℕ
  pub budget : ExecutionBudget
  pub cancelled : Bool

-- The permits that the semaphore has left, and the leases that are held, the last one first.
pub record RequestLimits : Type 0 where
  pub permits : ℕ
  pub timeout : ℕ
  pub shutdown : Bool
  pub leases : List RequestLease

unfoldable pub new : ℕ → ℕ → RequestLimits
new limit timeout = record { permits = limit; timeout = timeout; shutdown = false; leases = [] }

-- The lease of a request that is admitted: one owner is the transport, the other the request.
abbrev pub new_lease : ℕ → RequestLease
new_lease deadline = record {
  owners = 2;
  budget = record { deadline = deadline };
  cancelled = false;
}

abbrev pub cancel : RequestLease → RequestLease
cancel lease = record lease { cancelled = true }

-- The shutdown's token is the parent of the tokens of all leases.
unfoldable pub shut_down : RequestLimits → RequestLimits
shut_down s = record s { shutdown = true; leases = map cancel s.leases }

-- `cancel_on_drop` of the lease at a place.
unfoldable pub cancel_at : ℕ → List RequestLease → List RequestLease
cancel_at i [] = []
cancel_at zero (lease ∷ leases) = cancel lease ∷ leases
cancel_at (suc i) (lease ∷ leases) = lease ∷ cancel_at i leases

unfoldable pub clone_at : ℕ → List RequestLease → List RequestLease
clone_at i [] = []
clone_at zero (lease ∷ leases) = record lease { owners = lease.owners + 1 } ∷ leases
clone_at (suc i) (lease ∷ leases) = lease ∷ clone_at i leases

-- An owner of the lease at a place drops it; whether it was the last one.
unfoldable pub drop_at : ℕ → List RequestLease → List RequestLease × Bool
drop_at i [] = ([], false)
drop_at zero (lease ∷ leases) =
    if leb lease.owners 1
    then (leases, true)
    else (record lease { owners = lease.owners - 1 } ∷ leases, false)
drop_at (suc i) (lease ∷ leases) = let (rest, last) = drop_at i leases in (lease ∷ rest, last)

module _ (p : Platform) where
  -- `admit` up to its select: the lease of the request, if it is admitted.
  unfoldable pub enter : ℕ → RequestLimits → Option RequestLease × RequestLimits
  enter now s = if s.shutdown then (none, s) else elim (p.try_acquire_many s.permits 1) [
    | none ↦ (none, s)
    | some left ↦
        let lease = new_lease (now + s.timeout) in
        (some lease, record s { permits = left; leases = lease ∷ s.leases })
  ]

  abbrev pub released : List RequestLease × Bool → RequestLimits → RequestLimits
  released (leases, last) s = record s {
    permits = if last then p.release s.permits 1 else s.permits;
    leases = leases;
  }

  unfoldable pub drop_lease : ℕ → RequestLimits → RequestLimits
  unfolding drop_at
  drop_lease i s = released (drop_at i s.leases) s

  -- What can happen: a request comes in; an owner of a lease clones or drops it; a response ends or is
  -- abandoned; the process shuts down.
  pub data Step (s : RequestLimits) : RequestLimits → Type 0 where
    entered : (now : ℕ) → Step s (enter now s).1
    cloned : (i : ℕ) → Step s (record s { leases = clone_at i s.leases })
    dropped : (i : ℕ) → Step s (drop_lease i s)
    ended : (i : ℕ) → Step s (record s { leases = cancel_at i s.leases })
    shut : Step s (shut_down s)

  pub data Reach (limit timeout : ℕ) : RequestLimits → Type 0 where
    start : Reach limit timeout (new limit timeout)
    later : {s t : RequestLimits} → Reach limit timeout s → Step s t → Reach limit timeout t

-- The responses of `admit`: a status with a body, that of `next`, or a body that ends with the lifetime.
pub record LifetimeBody (B : Type 0) : Type 0 where
  pub inner : B
  pub lease : RequestLease

pub data Response (B : Type 0) : Type 0 where
  service_unavailable request_timeout : Text → Response B
  finished : B → Response B
  streamed : LifetimeBody B → Response B

-- The select, in its order: what is ready of the cancellation, the deadline and the response.
unfoldable pub select_response :
    {B : Type 0} → (B → Bool) → RequestLease → Bool → Bool → B → Response B
select_response is_end_stream lease cancelled expired body =
    if cancelled
    then service_unavailable
        (text "request ended; reconcile any submitted mutation before another write")
    else if expired
    then request_timeout
        (text "request deadline exceeded; reconcile any submitted mutation before another write")
    else if is_end_stream body
    then finished body
    else streamed (record { inner = body; lease = lease })

-- `admit`, where `cancelled` and `expired` say what the select finds.
unfoldable pub admit :
    {B : Type 0}
    → Platform
    → (B → Bool)
    → ℕ
    → Bool
    → Bool
    → B
    → RequestLimits
    → Response B × RequestLimits
unfolding select_response
admit p is_end_stream now cancelled expired body s =
    let (lease, s') = enter p now s in
    elim lease [
      | none ↦ (service_unavailable [], s')
      | some lease ↦ (select_response is_end_stream lease cancelled expired body, s')
    ]

pub data Polled (F : Type 0) : Type 0 where
  timed_out : Polled F
  frame : F → Polled F
  pending end : Polled F

-- LifetimeBody::poll_frame
unfoldable pub poll_frame :
    {B F : Type 0} → (B → Polled F × B) → Bool → ℕ → LifetimeBody B → Polled F × LifetimeBody B
poll_frame poll cancelled now body =
    if has_ended body.lease.budget cancelled now
    then (timed_out, body)
    else let (polled, inner) = poll body.inner in (polled, record body { inner = inner })
