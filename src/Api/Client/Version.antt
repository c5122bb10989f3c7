-- ===== src/Api/Client/Version.antt =====
-- crates/komodo-api/src/lib.rs: `core_2_3_or_later` of `Client`, with the cache behind its mutex, and
-- `version`, which it asks.
use mcp_komodo_rs.Prelude.{
  ℕ, ◌+◌, ◌*◌, Bool, true, ltb, if◌then◌else◌, Option, some, none, List, Result, ok, err, ◌>>=◌,
  ok_or,
}
use mcp_komodo_rs.Prelude.Text.{Text, text}
use mcp_komodo_rs.Prelude.Tasks.{done, call, attempt}
use mcp_komodo_rs.Api.Json.{object, end}
use mcp_komodo_rs.Api.Errors.{ApiError, incompatible_response}
use mcp_komodo_rs.Api.Networks.{uses_current_names}
use mcp_komodo_rs.Api.Client.Http.{Libraries, Client, now, Web, post}

-- In nanoseconds.
abbrev pub core_version_cache_ttl : ℕ
core_version_cache_ttl = 60 * 1_000_000_000

pub record CachedCoreVersion : Type 0 where
  pub at_least_2_3 : Bool
  pub expires_at : ℕ

abbrev pub Cache : Type 0
Cache = Option CachedCoreVersion

-- A method that may use the cache, and leaves one behind whether it fails or not.
abbrev pub Cached : Type 0 → Type 0 → Type 0
Cached Url A = Cache → Web Url (Result ApiError A × Cache)

-- `networks::uses_current_names(&self.version().await?).ok_or(…)`
abbrev pub current_names : Result ApiError Text → Result ApiError Bool
current_names version = version >>= λ v. ok_or (uses_current_names v) incompatible_response

-- `core_2_3_or_later` from the reply of `version` on.
unfoldable pub renewed :
    {Url : Type 0} → Cache → Result ApiError Text → Web Url (Result ApiError Bool × Cache)
renewed cached version = elim (current_names version) [
  | err error ↦ done (ok (err error, cached))
  | ok at_least_2_3 ↦ call now λ instant. done (
      ok (
        ok at_least_2_3,
        some
            (record { at_least_2_3 = at_least_2_3; expires_at = instant + core_version_cache_ttl }),
      ))
]

module _ {Url : Type 0} (libraries : Libraries Url) (client : Client Url)
    (version_from_slice : List ℕ → Option Text) where
  unfoldable pub version : Web Url Text
  version =
      post libraries client version_from_slice (text "read") (text "GetVersion") (object end) true

  -- What follows when the cache holds no answer.
  unfoldable pub refresh : Cached Url Bool
  unfolding renewed
  refresh cached = attempt version (renewed cached)

  unfoldable pub core_2_3_or_later : Cached Url Bool
  unfolding refresh
  core_2_3_or_later none = refresh none
  core_2_3_or_later (some cached) = call now λ instant.
      if ltb instant cached.expires_at
      then done (ok (ok cached.at_least_2_3, some cached))
      else refresh (some cached)
