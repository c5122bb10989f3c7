-- ===== src/Api/Client/Fresh.antt =====
-- crates/komodo-api/src/lib.rs: what the cached answer of `core_2_3_or_later` stands on.
use mcp_komodo_rs.Prelude.{
  ℕ, ◌+◌, ◌<◌, ◌≡◌, refl, Bool, true, ltb, ltb→lt, Option, some, none, List, ◌∷◌, Result, ok, err,
  Option-cases, if_cases, inl, inr, arith,
}
use mcp_komodo_rs.Prelude.Text.{Text, text}
use mcp_komodo_rs.Prelude.Tasks.{Always, Always-attempt, Always-map}
use mcp_komodo_rs.Api.Errors.{ApiError}
use mcp_komodo_rs.Api.Json.{object, end}
use mcp_komodo_rs.Api.Networks.{uses_current_names}
use mcp_komodo_rs.Api.Client.Http.{Libraries, Client, Response, Call, Reply, now, receive}
use mcp_komodo_rs.Api.Client.Version.{
  core_version_cache_ttl, Cache, version, renewed, refresh, core_2_3_or_later,
}
use mcp_komodo_rs.Api.Client.Posts.{Log, sent, Attempts, unsent, once, twice, post-Attempts}

module _ {Url : Type 0} (libraries : Libraries Url) (client : Client Url)
    (version_from_slice : List ℕ → Option Text) where
  -- An answer that expires at a time: Core once replied with a version that gives it, and the clock, read
  -- next, showed the time less the lifetime of the cache. Other calls may have followed.
  pub data Backed (answer : Bool) (expires_at : ℕ) : Log Url → Type 0 where
    read :
        (endpoint : Url) (reply : Option Response) (v : Text) (instant : ℕ) (h : Log Url)
        → receive libraries client version_from_slice (text "GetVersion") (object end) reply ≡ ok v
        → uses_current_names v ≡ some answer
        → expires_at ≡ instant + core_version_cache_ttl
        → Backed answer expires_at (
            (now, instant)
            ∷ sent libraries client (text "GetVersion") (object end) endpoint reply h)
    later :
        (c : Call Url) (r : Reply Url c) (h : Log Url)
        → Backed answer expires_at h
        → Backed answer expires_at ((c, r) ∷ h)

  abbrev pub IsBacked : Log Url → Cache → Type 0
  IsBacked h none = Unit
  IsBacked h (some cached) = Backed cached.at_least_2_3 cached.expires_at h

  -- The clock was read last, and the answer had not expired then.
  abbrev pub IsFresh : Log Url → Result ApiError Bool → Type 0
  IsFresh h (err error) = Unit
  IsFresh h (ok answer) =
      (instant : ℕ) × (before : Log Url) × (expires_at : ℕ) × (h ≡ (now, instant) ∷ before)
      × (instant < expires_at)
      × Backed answer expires_at h

  abbrev pub Holds : Log Url → Result ApiError (Result ApiError Bool × Cache) → Type 0
  Holds h (err error) = ⊥
  Holds h (ok (answer, cache)) = IsFresh h answer × IsBacked h cache

  -- A later history.
  data Extends (h : Log Url) : Log Url → Type 0 where
    same : Extends h h
    more : (c : Call Url) (r : Reply Url c) (g : Log Url) → Extends h g → Extends h ((c, r) ∷ g)

  Extends-IsBacked :
      {h g : Log Url} (cache : Cache) → Extends h g → IsBacked h cache → IsBacked g cache
  Extends-IsBacked none e b = tt
  Extends-IsBacked (some cached) same b = b
  Extends-IsBacked (some cached) (more c r g e) b = later c r g (Extends-IsBacked (some cached) e b)

  -- What a read of the version leaves.
  abbrev Asked : Log Url → Log Url → Result ApiError Text → Type 0
  Asked h g (err error) = Extends h g
  Asked h g (ok v) =
      Extends h g
      × (endpoint : Url) × (reply : Option Response) × (before : Log Url) × (g
          ≡ sent libraries client (text "GetVersion") (object end) endpoint reply before)
      × (receive libraries client version_from_slice (text "GetVersion") (object end) reply ≡ ok v)

  Asked-sent :
      (endpoint : Url) (reply : Option Response) (h before : Log Url) (r : Result ApiError Text)
      → Extends h (sent libraries client (text "GetVersion") (object end) endpoint reply before)
      → receive libraries client version_from_slice (text "GetVersion") (object end) reply ≡ r
      → Asked h (sent libraries client (text "GetVersion") (object end) endpoint reply before) r
  Asked-sent endpoint reply h before (err error) e q = e
  Asked-sent endpoint reply h before (ok v) e q = (e, endpoint, reply, before, refl, q)

  Attempts-Asked :
      (h g : Log Url) (r : Result ApiError Text)
      → Attempts libraries client version_from_slice
          (text "read")
          (text "GetVersion")
          (object end)
          true
          h
          g
          r
      → Asked h g r
  Attempts-Asked h _ _ (unsent e) = same
  Attempts-Asked h _ _ (once endpoint reply e _) =
      Asked-sent endpoint reply h h _ (more _ reply h same) refl
  Attempts-Asked h _ _ (twice endpoint first second e t) =
      Asked-sent endpoint second h _ _ (more _ second _ (more _ first h same)) refl

  version-Asked : (h : Log Url) → Always (Asked h) h (version libraries client version_from_slice)
  unfolding version
  version-Asked h = Always-map (Attempts-Asked h) h (version libraries client version_from_slice) (
      post-Attempts libraries client version_from_slice (text "read") (text "GetVersion")
        (object end) true h)

  module _ (h : Log Url) (cache : Cache) (backed : IsBacked h cache) where
    answered :
        (g : Log Url) (r : Result ApiError Text) → Asked h g r → Always Holds g (renewed cache r)
    unfolding renewed uses_current_names
    answered g (err error) e = (tt, Extends-IsBacked cache e backed)
    answered g (ok v) (e, endpoint, reply, before, made, got) =
        elim (Option-cases (uses_current_names v)) [
          | inl unread ↦ rw unread (tt, Extends-IsBacked cache e backed)
          | inr (answer, known) ↦
              let b : (instant : ℕ)
                  → Backed answer (instant + core_version_cache_ttl) ((now, instant) ∷ g) =
                λ instant. rw made (read endpoint reply v instant before got known refl) in
              rw known (λ instant. (
                (instant, g, instant + core_version_cache_ttl, refl, omega arith, b instant),
                b instant,
              ))
        ]

    refresh-Holds : Always Holds h (refresh libraries client version_from_slice cache)
    unfolding refresh
    refresh-Holds =
        Always-attempt Holds (renewed cache) h (version libraries client version_from_slice)
          (Always-map answered h (version libraries client version_from_slice) (version-Asked h))

  -- If a cached answer is backed before, it is so afterwards, and each answer comes from a version that Core
  -- replied with; the clock was read next, less than a minute before its last reading.
  pub core_version_fresh :
      (h : Log Url) (cache : Cache)
      → IsBacked h cache
      → Always Holds h (core_2_3_or_later libraries client version_from_slice cache)
  unfolding core_2_3_or_later
  core_version_fresh h none backed = refresh-Holds h none tt
  core_version_fresh h (some cached) backed = λ instant.
      let b = later now instant h backed in
      if_cases (Always Holds ((now, instant) ∷ h)) (ltb instant cached.expires_at)
        (λ early. ((instant, h, cached.expires_at, refl, ltb→lt _ _ early, b), b))
        (λ late. refresh-Holds ((now, instant) ∷ h) (some cached) b)
