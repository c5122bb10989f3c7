-- ===== src/Server/Lifecycle/Permits.antt =====
-- crates/komodo-server/src/lifecycle.rs: how many requests `RequestLimits` lets run.
use mcp_komodo_rs.Prelude.{
  ℕ, zero, suc, ◌+◌, ◌-◌, ◌<◌, ◌≡◌, ◌↔◌, refl, true, false, leb, if◌then◌else◌, Option, is_some,
  List, [], ◌∷◌, length, map, All, Bool-cases, Option-cases, if_cases, inl, inr, arith,
}
use mcp_komodo_rs.Server.Files.Types.{Platform, Counts}
use mcp_komodo_rs.Server.Lifecycle.Limits.{
  RequestLease, RequestLimits, new, cancel, shut_down, cancel_at, clone_at, drop_at, enter,
  drop_lease, Step, entered, cloned, dropped, ended, shut, Reach, start, later,
}

-- Each permit is left or held by a lease that somebody owns, and a shutdown has cancelled all leases.
pub record IsCounted (limit : ℕ) (s : RequestLimits) : Type 0 where
  pub counted : s.permits + length s.leases ≡ limit
  pub owned : All (λ lease. 0 < lease.owners) s.leases
  pub cancelled : s.shutdown ≡ true → All (λ lease. lease.cancelled ≡ true) s.leases

length-cancel_at :
    (i : ℕ) (leases : List RequestLease) → length (cancel_at i leases) ≡ length leases
unfolding cancel_at
length-cancel_at i [] = refl
length-cancel_at zero (lease ∷ leases) = refl
length-cancel_at (suc i) (lease ∷ leases) = omega (arith, length-cancel_at i leases)

length-clone_at : (i : ℕ) (leases : List RequestLease) → length (clone_at i leases) ≡ length leases
unfolding clone_at
length-clone_at i [] = refl
length-clone_at zero (lease ∷ leases) = refl
length-clone_at (suc i) (lease ∷ leases) = omega (arith, length-clone_at i leases)

-- What holds of a lease and of its changed form holds of all leases.
module _ (P : RequestLease → Type 0) where
  cancel_at-All :
      ((lease : RequestLease) → P lease → P (cancel lease))
      → (i : ℕ) (leases : List RequestLease) → All P leases
      → All P (cancel_at i leases)
  unfolding cancel_at
  cancel_at-All keep i [] h = tt
  cancel_at-All keep zero (lease ∷ leases) h = (keep lease h.0, h.1)
  cancel_at-All keep (suc i) (lease ∷ leases) h = (h.0, cancel_at-All keep i leases h.1)

  clone_at-All :
      ((lease : RequestLease) → P lease → P (record lease { owners = lease.owners + 1 }))
      → (i : ℕ) (leases : List RequestLease) → All P leases
      → All P (clone_at i leases)
  unfolding clone_at
  clone_at-All keep i [] h = tt
  clone_at-All keep zero (lease ∷ leases) h = (keep lease h.0, h.1)
  clone_at-All keep (suc i) (lease ∷ leases) h = (h.0, clone_at-All keep i leases h.1)

  drop_at-All :
      ((lease : RequestLease)
        → leb lease.owners 1 ≡ false
        → P lease
        → P (record lease { owners = lease.owners - 1 }))
      → (i : ℕ) (leases : List RequestLease) → All P leases
      → All P (drop_at i leases).0
  unfolding drop_at
  drop_at-All keep i [] h = tt
  drop_at-All keep zero (lease ∷ leases) h = elim (Bool-cases (leb lease.owners 1)) [
    | inl last ↦ rw last h.1
    | inr shared ↦ rw shared (keep lease shared h.0, h.1)
  ]
  drop_at-All keep (suc i) (lease ∷ leases) h = (h.0, drop_at-All keep i leases h.1)

map-cancel-All :
    (leases : List RequestLease)
    → All (λ lease. 0 < lease.owners) leases
    → All (λ lease. 0 < lease.owners) (map cancel leases)
      × All (λ lease. lease.cancelled ≡ true) (map cancel leases)
map-cancel-All [] h = (tt, tt)
map-cancel-All (lease ∷ leases) h =
    let (owned, cancelled) = map-cancel-All leases h.1 in ((h.0, owned), (refl, cancelled))

length-map-cancel : (leases : List RequestLease) → length (map cancel leases) ≡ length leases
length-map-cancel [] = refl
length-map-cancel (lease ∷ leases) = omega (arith, length-map-cancel leases)

-- A lease is gone exactly when its last owner drops it.
length-drop_at :
    (i : ℕ) (leases : List RequestLease)
    → length (drop_at i leases).0 + (if (drop_at i leases).1 then 1 else 0) ≡ length leases
unfolding drop_at
length-drop_at i [] = refl
length-drop_at zero (lease ∷ leases) = ground arith
length-drop_at (suc i) (lease ∷ leases) = omega (arith, length-drop_at i leases)

module _ (p : Platform) (laws : Counts p) (limit : ℕ) where
  enter-IsCounted :
      (now : ℕ) (s : RequestLimits) → IsCounted limit s → IsCounted limit (enter p now s).1
  unfolding enter
  enter-IsCounted now s v =
      if_cases (λ (r : Option RequestLease × RequestLimits). IsCounted limit r.1) s.shutdown
        (λ down. v)
        (λ up. elim (Option-cases (p.try_acquire_many s.permits 1)) [
          | inl full ↦ rw full v
          | inr (left, taken) ↦ rw taken (record {
            counted = omega (arith, laws.acquired s.permits 1 left taken, v.counted);
            owned = (omega arith, v.owned);
            cancelled = λ down. absurd (cc (up, down));
          })
        ])

  drop_lease-IsCounted :
      (i : ℕ) (s : RequestLimits) → IsCounted limit s → IsCounted limit (drop_lease p i s)
  unfolding drop_lease
  drop_lease-IsCounted i s v =
      let size = length-drop_at i s.leases in
      record {
        counted = elim (Bool-cases (drop_at i s.leases).1) [
          | inl last ↦
              rw last (omega (arith, laws.released s.permits 1, rw last at size, v.counted))
          | inr shared ↦ rw shared (omega (arith, rw shared at size, v.counted))
        ];
        owned =
            drop_at-All (λ lease. 0 < lease.owners) (λ lease more h. ground arith) i s.leases
              v.owned;
        cancelled = λ down.
            drop_at-All (λ lease. lease.cancelled ≡ true) (λ lease more h. h) i s.leases
              (v.cancelled down);
      }

  Step-IsCounted : {s t : RequestLimits} → Step p s t → IsCounted limit s → IsCounted limit t
  unfolding shut_down
  Step-IsCounted {s} (entered now) v = enter-IsCounted now s v
  Step-IsCounted {s} (cloned i) v = record {
    counted = omega (arith, length-clone_at i s.leases, v.counted);
    owned = clone_at-All (λ lease. 0 < lease.owners) (λ lease h. omega arith) i s.leases v.owned;
    cancelled = λ down.
        clone_at-All (λ lease. lease.cancelled ≡ true) (λ lease h. h) i s.leases (v.cancelled down);
  }
  Step-IsCounted {s} (dropped i) v = drop_lease-IsCounted i s v
  Step-IsCounted {s} (ended i) v = record {
    counted = omega (arith, length-cancel_at i s.leases, v.counted);
    owned = cancel_at-All (λ lease. 0 < lease.owners) (λ lease h. h) i s.leases v.owned;
    cancelled = λ down.
        cancel_at-All (λ lease. lease.cancelled ≡ true) (λ lease h. refl) i s.leases
          (v.cancelled down);
  }
  Step-IsCounted {s} shut v = record {
    counted = omega (arith, length-map-cancel s.leases, v.counted);
    owned = (map-cancel-All s.leases v.owned).0;
    cancelled = λ down. (map-cancel-All s.leases v.owned).1;
  }

  Reach-IsCounted : {timeout : ℕ} {s : RequestLimits} → Reach p limit timeout s → IsCounted limit s
  unfolding new
  Reach-IsCounted start = record { counted = omega arith; owned = tt; cancelled = λ down. tt }
  Reach-IsCounted (later r st) = Step-IsCounted st (Reach-IsCounted r)

  enters_iff :
      (now : ℕ) (s : RequestLimits)
      → IsCounted limit s
      → (is_some (enter p now s).0 ≡ true) ↔ ((s.shutdown ≡ false) × (length s.leases < limit))
  unfolding enter
  enters_iff now s v = elim (Bool-cases s.shutdown) [
    | inl down ↦ rw down ((λ h. absurd (cc h)), (λ h. absurd (cc (h.0))))
    | inr up ↦ elim (Option-cases (p.try_acquire_many s.permits 1)) [
      | inl full ↦
          rw (up, full)
            (
              (λ h. absurd (cc h)),
              (λ h. absurd (cc (full, laws.acquires s.permits 1 (omega (arith, v.counted, h.1))))),
            )
      | inr (left, taken) ↦
          rw (up, taken)
            (
              (λ h. (refl, omega (arith, laws.acquired s.permits 1 left taken, v.counted))),
              (λ h. refl),
            )
    ]
  ]

  -- In every state that the requests can lead to, the permits that are left and the leases that are held
  -- make up the limit, each lease has an owner, and after a shutdown all leases are cancelled; and
  -- a request is admitted exactly when there is no shutdown and fewer leases than the limit are held.
  pub Reach-IsBounded :
      {timeout : ℕ} {s : RequestLimits}
      → Reach p limit timeout s
      → IsCounted limit s
        × ((now : ℕ)
            → (is_some (enter p now s).0 ≡ true)
              ↔ ((s.shutdown ≡ false) × (length s.leases < limit)))
  Reach-IsBounded {s = s} r = let v = Reach-IsCounted r in (v, λ now. enters_iff now s v)
