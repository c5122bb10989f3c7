-- ===== src/Server/Auth/Keys.antt =====
-- crates/komodo-server/src/auth.rs: the key cache of `IdentityVerifier`. A call holds the lock of the
-- refresh time from its second look at the cache on. The keys, the search in them, and the fetch over
-- HTTP are those of other crates; readings of the clock are arguments, in their order.
use mcp_komodo_rs.Prelude.{
  ℕ, ◌≡◌, ◌≤◌, ◌+◌, ◌*◌, min, refl, subst, Bool, true, false, ltb, if◌then◌else◌, Option, some,
  none, is_some_and, List, [], ◌∷◌, Result, ok, err, ok_or, arith, Bool-cases, Option-cases, inl,
  inr, ◌⊎◌, Result-cases,
}
use mcp_komodo_rs.Prelude.Text.{Text}
use mcp_komodo_rs.Server.Auth.Claims.{IdentityError, key_unavailable}

-- Instants and durations are in nanoseconds.
abbrev pub minimum_jwks_refresh_interval : ℕ
minimum_jwks_refresh_interval = 30 * 1_000_000_000

pub record CachedKeys (JwkSet : Type 0) : Type 0 where
  pub keys : JwkSet
  pub expires_at : ℕ

-- The state behind the two locks: the cached keys, and the time before which no keys are fetched.
pub record KeyCache (JwkSet : Type 0) : Type 0 where
  pub cache : Option (CachedKeys JwkSet)
  pub refresh : Option ℕ

-- One call: the key it asks for; the cache that it sees before it waits for the lock; the clock at both
-- looks into the cache, before the fetch and after it; and what a fetch gives.
pub record KeyCall (JwkSet : Type 0) : Type 0 where
  pub key_id : Text
  pub seen : Option (CachedKeys JwkSet)
  pub first_look : ℕ
  pub second_look : ℕ
  pub now : ℕ
  pub fetched_at : ℕ
  pub fetched : Result IdentityError JwkSet

-- What a call gives: its result, the state that it leaves, and whether it has fetched the keys.
pub record KeyOutcome (Jwk JwkSet : Type 0) : Type 0 where
  pub result : Result IdentityError Jwk
  pub state : KeyCache JwkSet
  pub fetches : Bool

module _ {Jwk JwkSet : Type 0} (find : JwkSet → Text → Option Jwk) (cache_ttl : ℕ) where
  unfoldable pub cached_key : Text → ℕ → Option (CachedKeys JwkSet) → Option Jwk
  cached_key key_id now cache = elim cache [
    | none ↦ none
    | some cached ↦ if ltb now cached.expires_at then find cached.keys key_id else none
  ]

  abbrev pub interval : ℕ
  interval = min minimum_jwks_refresh_interval cache_ttl

  -- The fetch of `key`, after the refresh time is set.
  unfoldable pub fetch : KeyCall JwkSet → KeyCache JwkSet → KeyOutcome Jwk JwkSet
  fetch c s = elim c.fetched [
    | err e ↦ record { result = err e; state = s; fetches = true }
    | ok keys ↦ record {
      result = ok_or (find keys c.key_id) key_unavailable;
      state = record s {
        cache = some (record { keys = keys; expires_at = c.fetched_at + cache_ttl });
      };
      fetches = true;
    }
  ]

  unfoldable pub key : KeyCall JwkSet → KeyCache JwkSet → KeyOutcome Jwk JwkSet
  key c s = elim (cached_key c.key_id c.first_look c.seen) [
    | some k ↦ record { result = ok k; state = s; fetches = false }
    | none ↦ elim (cached_key c.key_id c.second_look s.cache) [
      | some k ↦ record { result = ok k; state = s; fetches = false }
      | none ↦
          if is_some_and s.refresh (ltb c.now)
          then record { result = err key_unavailable; state = s; fetches = false }
          else fetch c (record s { refresh = some (c.now + interval) })
    ]
  ]

  -- The times at which a sequence of calls fetches the keys.
  unfoldable pub fetch_times : List (KeyCall JwkSet) → KeyCache JwkSet → List ℕ
  fetch_times [] s = []
  fetch_times (c ∷ cs) s =
      let rest = fetch_times cs (key c s).state in if (key c s).fetches then c.now ∷ rest else rest

  -- Each time is at least the interval after the last one, and the first not before `after`.
  abbrev pub IsSpaced : Option ℕ → List ℕ → Type 0
  IsSpaced after [] = Unit
  IsSpaced none (t ∷ ts) = IsSpaced (some (t + interval)) ts
  IsSpaced (some after) (t ∷ ts) = (after ≤ t) × IsSpaced (some (t + interval)) ts

  -- A call fetches only when the refresh time allows it, and then sets it anew.
  abbrev IsPermitted : KeyCall JwkSet → KeyCache JwkSet → KeyOutcome Jwk JwkSet → Type 0
  IsPermitted c s out =
      ((out.fetches ≡ false) × (out.state.refresh ≡ s.refresh))
      ⊎ ((out.fetches ≡ true)
          × (is_some_and s.refresh (ltb c.now) ≡ false)
          × (out.state.refresh ≡ some (c.now + interval)))

  fetch_lem :
      (c : KeyCall JwkSet) (s : KeyCache JwkSet)
      → ((fetch c s).fetches ≡ true) × ((fetch c s).state.refresh ≡ s.refresh)
  unfolding fetch
  fetch_lem c s = elim (Result-cases c.fetched) [
    | inl (keys, e) ↦ rw e (refl, refl)
    | inr (error, e) ↦ rw e (refl, refl)
  ]

  key_lem : (c : KeyCall JwkSet) (s : KeyCache JwkSet) → IsPermitted c s (key c s)
  unfolding key
  key_lem c s = elim (Option-cases (cached_key c.key_id c.first_look c.seen)) [
    | inr (k, e) ↦ rw (e, key) (inl (refl, refl))
    | inl miss ↦ elim (Option-cases (cached_key c.key_id c.second_look s.cache)) [
      | inr (k, e) ↦ rw (miss, key, e) (inl (refl, refl))
      | inl again ↦ elim (Bool-cases (is_some_and s.refresh (ltb c.now))) [
        | inl early ↦ rw (miss, key, again, early) (inl (refl, refl))
        | inr allowed ↦
            let done = fetch_lem c (record s { refresh = some (c.now + interval) }) in
            rw (miss, key, again, allowed) (inr (done.0, refl, done.1))
      ]
    ]
  ]

  spaced_lem :
      (after : Option ℕ) (t : ℕ) (ts : List ℕ)
      → is_some_and after (ltb t) ≡ false
      → IsSpaced (some (t + interval)) ts
      → IsSpaced after (t ∷ ts)
  spaced_lem none t ts allowed rest = rest
  spaced_lem (some after) t ts allowed rest = (ground arith, rest)

  -- Whatever keys are asked for, and whatever the fetches give, a verifier fetches the keys at times
  -- that are at least 30 seconds apart, or the lifetime of the cache where that is shorter, and never
  -- before the time that its state allows.
  pub fetch_times-IsSpaced :
      (cs : List (KeyCall JwkSet)) (s : KeyCache JwkSet) → IsSpaced s.refresh (fetch_times cs s)
  unfolding fetch_times
  fetch_times-IsSpaced [] s = tt
  fetch_times-IsSpaced (c ∷ cs) s = elim (key_lem c s) [
    | inl (none_fetched, same) ↦ rw none_fetched (
        subst (λ r. IsSpaced r (fetch_times cs (key c s).state)) same
          (fetch_times-IsSpaced cs (key c s).state))
    | inr (fetched, allowed, set) ↦ rw fetched (
        spaced_lem s.refresh c.now (fetch_times cs (key c s).state) allowed (
          subst (λ r. IsSpaced r (fetch_times cs (key c s).state)) set
            (fetch_times-IsSpaced cs (key c s).state)))
  ]
