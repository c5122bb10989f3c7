-- ===== src/Api/Client/Posts.antt =====
-- crates/komodo-api/src/lib.rs: how often `post` sends, and what it makes of the replies.
use mathlib.Core.Bool.{and-false}
use mcp_komodo_rs.Prelude.{
  ℕ, ◌≡◌, ◌≤◌, refl, Bool, true, false, ◌&&◌, Option, some, none, List, ◌∷◌, Result, ok, err,
  Bool-cases, Option-cases, Result-cases, if◌then◌else◌, arith, inl, inr,
}
use mcp_komodo_rs.Prelude.Text.{Text, text}
use mcp_komodo_rs.Prelude.Tasks.{History, Always, done}
use mcp_komodo_rs.Api.Errors.{
  ApiError, UpstreamFailure, upstream, unavailable, invalid_configuration,
}
use mcp_komodo_rs.Api.Json.{Json}
use mcp_komodo_rs.Api.Client.Http.{
  Libraries, Client, Response, Call, Reply, send, is_transient, receive, request, post_once, post,
}

abbrev pub Log : Type 0 → Type 0
Log Url = History (Call Url) (Reply Url)

-- No response came, or its body broke off, or the response was a server error.
pub data IsTransient : ApiError → Type 0 where
  lost : IsTransient unavailable
  server_error :
      (failure : UpstreamFailure)
      → 500 ≤ failure.status
      → failure.status ≤ 599
      → IsTransient (upstream failure)

-- A read whose result is a transient error.
pub data IsRetried {T : Type 0} : Bool → Result ApiError T → Type 0 where
  retried : (error : ApiError) → IsTransient error → IsRetried true (err error)

is_transient_sound : (error : ApiError) → is_transient error ≡ true → IsTransient error
unfolding is_transient
is_transient_sound unavailable h = lost
is_transient_sound (upstream failure) h = server_error failure (ground arith) (ground arith)
is_transient_sound _ h = absurd (cc h)

is_transient_complete : (error : ApiError) → IsTransient error → is_transient error ≡ true
unfolding is_transient
is_transient_complete _ lost = refl
is_transient_complete _ (server_error failure low high) = ground arith

again-IsRetried :
    {T : Type 0} (retry_read : Bool) (r : Result ApiError T) (error : ApiError)
    → r ≡ err error
    → (retry_read && is_transient error) ≡ true
    → IsRetried retry_read r
again-IsRetried true r error e h = rw e (retried error (is_transient_sound error (ground arith)))
again-IsRetried false r error e h = absurd (cc h)

not-IsRetried-ok :
    {T : Type 0} (retry_read : Bool) (r : Result ApiError T) (a : T)
    → r ≡ ok a
    → ¬ IsRetried retry_read r
not-IsRetried-ok _ _ a e (retried error t) = absurd (cc e)

not-IsRetried-err :
    {T : Type 0} (retry_read : Bool) (r : Result ApiError T) (error : ApiError)
    → r ≡ err error
    → (retry_read && is_transient error) ≡ false
    → ¬ IsRetried retry_read r
not-IsRetried-err _ _ error e h (retried other t) =
    absurd (cc (e, h, is_transient_complete other t))

module _ {Url : Type 0} (libraries : Libraries Url) (client : Client Url) where
  abbrev pub sent : Text → Json → Url → Option Response → Log Url → Log Url
  sent variant params endpoint reply h =
      (send (request libraries client variant params endpoint), reply) ∷ h

  -- The ways in which a post can go after a history: nothing is sent; one request, whose reply
  -- gives the result, where this is not to be tried again; or, for a read, two equal ones, the first
  -- of them with a transient error.
  pub data Attempts {T : Type 0} (from_slice : List ℕ → Option T) (family variant : Text)
      (params : Json) (retry_read : Bool) (h : Log Url) : Log Url → Result ApiError T → Type 0 where
    unsent :
        libraries.join client.base_url family ≡ none
        → Attempts from_slice family variant params retry_read h h
            (err (invalid_configuration (text "base URL")))
    once :
        (endpoint : Url) (reply : Option Response)
        → libraries.join client.base_url family ≡ some endpoint
        → ¬ IsRetried retry_read (receive libraries client from_slice variant params reply)
        → Attempts from_slice family variant params retry_read h
            (sent variant params endpoint reply h)
            (receive libraries client from_slice variant params reply)
    twice :
        (endpoint : Url) (first second : Option Response)
        → libraries.join client.base_url family ≡ some endpoint
        → IsRetried retry_read (receive libraries client from_slice variant params first)
        → Attempts from_slice family variant params retry_read h
            (sent variant params endpoint second (sent variant params endpoint first h))
            (receive libraries client from_slice variant params second)

  module _ {T : Type 0} (from_slice : List ℕ → Option T) (family variant : Text)
      (params : Json) where
    -- After the first reply.
    replied :
        (endpoint : Url)
        → libraries.join client.base_url family ≡ some endpoint
        → (retry_read : Bool) (h : Log Url) (reply : Option Response)
        → Always
            (Attempts from_slice family variant params retry_read h)
            (sent variant params endpoint reply h)
            (elim (receive libraries client from_slice variant params reply) [
              | ok a ↦ done (ok a)
              | err error ↦
                  if retry_read && is_transient error
                  then post_once libraries client from_slice family variant params
                  else done (err error)
            ])
    unfolding post_once
    replied endpoint joined retry_read h reply =
        elim (Result-cases (receive libraries client from_slice variant params reply)) [
          | inl (a, e) ↦
              rw e (rw (← e) (once endpoint reply joined (not-IsRetried-ok retry_read _ a e)))
          | inr (error, e) ↦ elim (Bool-cases (retry_read && is_transient error)) [
            | inr last ↦
                rw (e, last)
                  (rw (← e)
                    (once endpoint reply joined (not-IsRetried-err retry_read _ error e last)))
            | inl again ↦
                rw (e, again, post_once, joined)
                  (λ second.
                    twice endpoint reply second joined (again-IsRetried retry_read _ error e again))
          ]
        ]

    pub post-Attempts :
        (retry_read : Bool) (h : Log Url)
        → Always
            (Attempts from_slice family variant params retry_read h)
            h
            (post libraries client from_slice family variant params retry_read)
    unfolding post post_once
    post-Attempts retry_read h = elim (Option-cases (libraries.join client.base_url family)) [
      | inl unjoined ↦ rw (post, post_once, unjoined, and-false retry_read) (unsent unjoined)
      | inr (endpoint, joined) ↦
          rw (post, post_once, joined) (λ reply. replied endpoint joined retry_read h reply)
    ]
