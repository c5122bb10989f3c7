-- ===== src/Server/Auth/Claims.antt =====
-- crates/komodo-server/src/auth.rs: what `verify_with_time` makes of the claims of a token whose
-- signature, audience and issuer are verified. An i64 stands in offset binary, n for n - 2^63, so that
-- its subtraction saturates as that of ℕ does.
use mcp_komodo_rs.Prelude.{
  ℕ, ◌≡◌, ◌≤◌, ◌<◌, ◌+◌, ◌-◌, ◌^◌, min, Bool, false, not, ◌&&◌, ◌||◌, ltb, leb, List, length, any,
  is_empty, Result, ok, ◌>>◌, refuse, arith, Bool-cases, inl, inr,
}
use mcp_komodo_rs.Prelude.Text.{Text, str_eq, str_eq_sound, len}

abbrev pub clock_skew_seconds : ℕ
clock_skew_seconds = 30

abbrev pub maximum_identity_token_age_seconds : ℕ
maximum_identity_token_age_seconds = 240

abbrev pub maximum_identity_token_lifetime_seconds : ℕ
maximum_identity_token_lifetime_seconds = 300

abbrev pub i64_max : ℕ
i64_max = 2 ^ 64 - 1

abbrev pub saturating_add : ℕ → ℕ → ℕ
saturating_add n k = min (n + k) i64_max

pub record IdentityClaims : Type 0 where
  pub sub : Text
  pub iat : ℕ
  pub exp : ℕ
  pub groups : List Text
  pub actor : Text

pub record IdentityPrincipal : Type 0 where
  pub subject : Text
  pub groups : List Text

pub data IdentityError : Type 0 where
  invalid key_unavailable unavailable : IdentityError

-- `claims.exp.checked_sub(claims.iat)` within `1..=300`
abbrev pub has_valid_lifetime : IdentityClaims → Bool
has_valid_lifetime claims =
    ltb claims.iat claims.exp
    && leb (claims.exp - claims.iat) maximum_identity_token_lifetime_seconds

-- The timing tests.
unfoldable pub is_untimely : IdentityClaims → ℕ → Bool
is_untimely claims now =
    ltb claims.iat (now - (maximum_identity_token_age_seconds + clock_skew_seconds))
    || (ltb (saturating_add now clock_skew_seconds) claims.iat
        || (ltb (saturating_add now (maximum_identity_token_lifetime_seconds + clock_skew_seconds))
              claims.exp
            || not (has_valid_lifetime claims)))

unfoldable pub is_oversized : IdentityClaims → Bool
unfolding len
is_oversized claims =
    ltb 256 (length claims.groups) || any (λ group. ltb 256 (len group)) claims.groups

unfoldable pub verify_claims : Text → IdentityClaims → ℕ → Result IdentityError IdentityPrincipal
verify_claims actor claims now = do
  refuse
      (is_empty claims.sub
        || (not (str_eq claims.actor actor) || (is_untimely claims now || is_oversized claims)))
      invalid
  ok (record { subject = claims.sub; groups = claims.groups })

-- What the claims of a verified token are: of this actor, with a subject, and issued at most 270
-- seconds ago and 30 seconds ahead, to end at most 300 seconds later and 330 seconds ahead.
pub record IsTimely (claims : IdentityClaims) (now : ℕ) : Type 0 where
  pub not_old : now ≤ claims.iat + 270
  pub not_ahead : claims.iat ≤ now + 30
  pub ends_after : claims.iat < claims.exp
  pub short_lived : claims.exp ≤ claims.iat + 300
  pub ends_soon : claims.exp ≤ now + 330

timely_lem :
    (claims : IdentityClaims) (now : ℕ) → is_untimely claims now ≡ false → IsTimely claims now
unfolding is_untimely
timely_lem claims now h = record {
  not_old = ground arith;
  not_ahead = ground arith;
  ends_after = ground arith;
  short_lived = ground arith;
  ends_soon = ground arith;
}

-- A principal is verified only from claims of the configured actor, with a subject, issued at most 270
-- seconds ago and at most 30 seconds ahead, that end at most 300 seconds after that and within 330
-- seconds; and it is the subject of the claims, with their groups.
pub verify_claims_sound :
    (actor : Text) (claims : IdentityClaims) (now : ℕ) (principal : IdentityPrincipal)
    → verify_claims actor claims now ≡ ok principal
    → (claims.actor ≡ actor)
      × IsTimely claims now
      × (is_empty claims.sub ≡ false)
      × (principal ≡ record { subject = claims.sub; groups = claims.groups })
unfolding verify_claims
verify_claims_sound actor claims now principal h =
    elim (Bool-cases (
      is_empty claims.sub
      || (not (str_eq claims.actor actor) || (is_untimely claims now || is_oversized claims)))) [
        | inl refused ↦ absurd (cc (rw refused at h))
        | inr passed ↦ (
          str_eq_sound claims.actor actor (ground arith),
          timely_lem claims now (ground arith),
          ground arith,
          cc (rw passed at h),
        )
      ]
