-- ===== src/Api/Credentials.antt =====
-- crates/komodo-api/src/lib.rs: `Credentials`.
use mcp_komodo_rs.Prelude.{
  ◌≡◌, Bool, false, ◌||◌, ◌==◌, any, is_empty, Result, ok, ◌>>◌, refuse, Bool-cases, inl, inr,
}
use mcp_komodo_rs.Prelude.Text.{Text, text, as_bytes}
use mcp_komodo_rs.Api.Errors.{ApiError, invalid_configuration}

pub record Credentials : Type 0 where
  pub key : Text
  pub secret : Text

-- A header of HTTP can carry the value.
abbrev pub is_unusable : Text → Bool
is_unusable value = is_empty value || any (λ byte. byte == 13 || byte == 10) (as_bytes value)

unfoldable pub validate_secret : Text → Text → Result ApiError (Unit {0})
validate_secret label value = refuse (is_unusable value) (invalid_configuration label)

-- Credentials::from_protected
unfoldable pub from_protected : Text → Text → Result ApiError Credentials
unfolding validate_secret
from_protected key secret = do
  validate_secret (text "API key") key
  validate_secret (text "API secret") secret
  ok (record { key = key; secret = secret })

pub from_protected_sound :
    (key secret : Text) (credentials : Credentials)
    → from_protected key secret ≡ ok credentials
    → (is_unusable key ≡ false)
      × (is_unusable secret ≡ false)
      × (credentials ≡ record { key = key; secret = secret })
unfolding from_protected
from_protected_sound key secret credentials h = elim (Bool-cases (is_unusable key)) [
  | inl bad ↦ absurd (cc (rw bad at h))
  | inr first ↦ elim (Bool-cases (is_unusable secret)) [
    | inl bad ↦ absurd (cc (rw (first, bad) at h))
    | inr last ↦ (first, last, cc (rw (first, last) at h))
  ]
]
