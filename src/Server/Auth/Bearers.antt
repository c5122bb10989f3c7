-- ===== src/Server/Auth/Bearers.antt =====
-- crates/komodo-server/src/auth.rs: `GatewayBearers`. `ct_eq` is that of the crate subtle, on slices of
-- equal length.
use mcp_komodo_rs.Prelude.{
  ℕ, ◌≡◌, ◌≢◌, ap, sym, subst, ◌↔◌, ◌⊎◌, inl, inr, Bool, true, false, not, ◌||◌, ◌==◌, ltb,
  if◌then◌else◌, Option, some, none, is_some_and, List, [], length, any, Result, ok, ◌>>◌, refuse,
  arith, Bool-cases,
}
use mcp_komodo_rs.Prelude.Text.{Text, as_bytes}

abbrev pub minimum_bearer_bytes : ℕ
minimum_bearer_bytes = 32

pub data AuthConfigError : Type 0 where
  invalid_bearer duplicate_bearers unsafe_jwks_url invalid_identity_settings : AuthConfigError
  identity_client : AuthConfigError

pub record GatewayBearers : Type 0 where
  pub current : Text
  pub previous : Option Text

-- u8::is_ascii_whitespace
abbrev pub is_ascii_whitespace : ℕ → Bool
is_ascii_whitespace b = b == 9 || (b == 10 || (b == 12 || (b == 13 || b == 32)))

abbrev pub is_bearer : Text → Bool
is_bearer value =
    not (
      ltb (length (as_bytes value)) minimum_bearer_bytes
      || any is_ascii_whitespace (as_bytes value))

unfoldable pub validate_bearer : Text → Result AuthConfigError (Unit {0})
validate_bearer value = refuse (not (is_bearer value)) invalid_bearer

module _ (ct_eq : List ℕ → List ℕ → Bool) where
  unfoldable pub constant_time_equal : List ℕ → List ℕ → Bool
  constant_time_equal left right =
      if not (length left == length right) then false else ct_eq left right

  unfoldable pub from_protected : Text → Option Text → Result AuthConfigError GatewayBearers
  from_protected current none = do
    validate_bearer current
    ok (record { current = current; previous = none })
  from_protected current (some previous) = do
    validate_bearer current
    validate_bearer previous
    refuse (constant_time_equal (as_bytes current) (as_bytes previous)) duplicate_bearers
    ok (record { current = current; previous = some previous })

  unfoldable pub accepts : GatewayBearers → List ℕ → Bool
  accepts bearers supplied =
      constant_time_equal supplied (as_bytes bearers.current)
      || is_some_and bearers.previous (λ value. constant_time_equal supplied (as_bytes value))

-- The bearers are long enough, have no whitespace, and differ.
abbrev pub IsRotation : Text → Option Text → Type 0
IsRotation current none = is_bearer current ≡ true
IsRotation current (some previous) =
    (is_bearer current ≡ true)
    × (is_bearer previous ≡ true)
    × (as_bytes current ≢ as_bytes previous)

abbrev pub IsOneOf : Text → Option Text → List ℕ → Type 0
IsOneOf current none supplied = supplied ≡ as_bytes current
IsOneOf current (some previous) supplied =
    (supplied ≡ as_bytes current) ⊎ (supplied ≡ as_bytes previous)

-- What subtle documents of `ct_eq`.
pub record ComparesSlices (ct_eq : List ℕ → List ℕ → Bool) : Type 0 where
  pub ct_eq_iff : (a b : List ℕ) → length a ≡ length b → (ct_eq a b ≡ true) ↔ (a ≡ b)

module _ (ct_eq : List ℕ → List ℕ → Bool) (laws : ComparesSlices ct_eq) where
  pub constant_time_equal_iff : (a b : List ℕ) → (constant_time_equal ct_eq a b ≡ true) ↔ (a ≡ b)
  unfolding constant_time_equal
  constant_time_equal_iff a b = (
    λ h. ground (arith, laws.ct_eq_iff a b),
    λ e. ground (arith, laws.ct_eq_iff a b, ap length e),
  )

  made_none :
      (current : Text) (bearers : GatewayBearers)
      → from_protected ct_eq current none ≡ ok bearers
      → (is_bearer current ≡ true) × (bearers ≡ record { current = current; previous = none })
  unfolding from_protected validate_bearer
  made_none current bearers made = elim (Bool-cases (is_bearer current)) [
    | inl valid ↦ (valid, cc (rw valid at made))
    | inr invalid ↦ absurd (cc (rw invalid at made))
  ]

  made_some :
      (current previous : Text) (bearers : GatewayBearers)
      → from_protected ct_eq current (some previous) ≡ ok bearers
      → (is_bearer current ≡ true)
        × (is_bearer previous ≡ true)
        × (constant_time_equal ct_eq (as_bytes current) (as_bytes previous) ≡ false)
        × (bearers ≡ record { current = current; previous = some previous })
  unfolding from_protected validate_bearer
  made_some current previous bearers made = elim (Bool-cases (is_bearer current)) [
    | inr invalid ↦ absurd (cc (rw invalid at made))
    | inl valid ↦ elim (Bool-cases (is_bearer previous)) [
      | inr invalid ↦ absurd (cc (rw (valid, invalid) at made))
      | inl both ↦
          elim (Bool-cases (constant_time_equal ct_eq (as_bytes current) (as_bytes previous))) [
            | inl same ↦ absurd (cc (rw (valid, both, same) at made))
            | inr differ ↦ (valid, both, differ, cc (rw (valid, both, differ) at made))
          ]
    ]
  ]

  made_fields :
      (current : Text) (previous : Option Text) (bearers : GatewayBearers)
      → from_protected ct_eq current previous ≡ ok bearers
      → bearers ≡ record { current = current; previous = previous }
  made_fields current none bearers made = (made_none current bearers made).1
  made_fields current (some previous) bearers made = (made_some current previous bearers made).3

  -- A rotation set is made only of bearers of at least 32 bytes without whitespace that differ, and it
  -- then accepts exactly the bytes of the current and of the previous one.
  pub accepts_iff :
      (current : Text) (previous : Option Text) (bearers : GatewayBearers) (supplied : List ℕ)
      → from_protected ct_eq current previous ≡ ok bearers
      → IsRotation current previous
        × ((accepts ct_eq bearers supplied ≡ true) ↔ IsOneOf current previous supplied)
  unfolding accepts
  accepts_iff current none bearers supplied made =
      let (valid, e) = made_none current bearers made in
      let same = constant_time_equal_iff supplied (as_bytes current) in
      (valid, rw e (λ h. ground (arith, same), λ h. ground (arith, same)))
  accepts_iff current (some previous) bearers supplied made =
      let (valid, both, differ, e) = made_some current previous bearers made in
      let same = constant_time_equal_iff supplied (as_bytes current) in
      let same' = constant_time_equal_iff supplied (as_bytes previous) in
      (
        (
          valid,
          both,
          λ h. ground (arith, constant_time_equal_iff (as_bytes current) (as_bytes previous)),
        ),
        rw e (λ h. ground (arith, same, same'), λ h. ground (arith, same, same')),
      )

  pub from_protected-IsRotation :
      (current : Text) (previous : Option Text) (bearers : GatewayBearers)
      → from_protected ct_eq current previous ≡ ok bearers
      → IsRotation bearers.current bearers.previous
  from_protected-IsRotation current previous bearers made =
      subst (λ (b : GatewayBearers). IsRotation b.current b.previous)
        (sym (made_fields current previous bearers made))
        (accepts_iff current previous bearers [] made).0
