-- ===== src/Prelude/Lists/Members.antt =====
-- Membership in a list that is filtered or searched.
use mathlib.Core.Path.{◌≡◌, refl, sym, ap, ◌∙◌}
use mathlib.Core.Logic.{inl, inr}
use mathlib.Core.Bool.{Bool, true}
use mathlib.Core.Option.{some}
use mathlib.Core.List.{List, [], ◌∷◌}
use mathlib.Core.List.{Memᴰ}
use mathlib.Core.List.Memᴰ as Memᴰ
use native.Mathlib.Omega.{arith}
use mcp_komodo_rs.Prelude.Tests.{Bool-cases}
use mcp_komodo_rs.Prelude.Lists.{retain, find, all}

module _ {ℓ} {A : Type ℓ} where
  pub mem-retain_sound :
      (p : A → Bool) (a : A) (xs : List A) → Memᴰ a (retain p xs) → Memᴰ a xs × (p a ≡ true)
  mem-retain_sound p a [] m = absurd (Memᴰ.not-nil m)
  mem-retain_sound p a (x ∷ xs) m = elim (Bool-cases (p x)) [
    | inl hit ↦ elim (Memᴰ.cases_cons (rw hit at m)) [
      | inl e ↦ (Memᴰ.head e, ap p e ∙ hit)
      | inr m ↦ let (listed, passes) = mem-retain_sound p a xs m in (Memᴰ.tail listed, passes)
    ]
    | inr miss ↦
        let (listed, passes) = mem-retain_sound p a xs (rw miss at m) in (Memᴰ.tail listed, passes)
  ]

  pub mem-retain_complete :
      (p : A → Bool) (a : A) (xs : List A) → Memᴰ a xs → p a ≡ true → Memᴰ a (retain p xs)
  mem-retain_complete p a [] m h = absurd (Memᴰ.not-nil m)
  mem-retain_complete p a (x ∷ xs) m h = elim (Memᴰ.cases_cons m) [
    | inl e ↦ rw (sym e, h) (Memᴰ.head refl)
    | inr m ↦ elim (Bool-cases (p x)) [
      | inl hit ↦ rw hit (Memᴰ.tail (mem-retain_complete p a xs m h))
      | inr miss ↦ rw miss (mem-retain_complete p a xs m h)
    ]
  ]

  pub all-mem : (p : A → Bool) (a : A) (xs : List A) → all p xs ≡ true → Memᴰ a xs → p a ≡ true
  all-mem p a [] h m = absurd (Memᴰ.not-nil m)
  all-mem p a (x ∷ xs) h m = elim (Memᴰ.cases_cons m) [
    | inl e ↦ ap p e ∙ ground arith
    | inr m ↦ all-mem p a xs (ground arith) m
  ]

  pub find_sound :
      (p : A → Bool) (a : A) (xs : List A) → find p xs ≡ some a → Memᴰ a xs × (p a ≡ true)
  find_sound p a [] h = cc
  find_sound p a (x ∷ xs) h = elim (Bool-cases (p x)) [
    | inl hit ↦ let e : x ≡ a = cc (rw hit at h) in (Memᴰ.head (sym e), ap p (sym e) ∙ hit)
    | inr miss ↦
        let (listed, passes) = find_sound p a xs (rw miss at h) in (Memᴰ.tail listed, passes)
  ]

  -- An element that passes the test is the one found when no other one passes it.
  pub find_complete :
      (p : A → Bool) (a : A) (xs : List A)
      → Memᴰ a xs
      → p a ≡ true
      → ((b : A) → Memᴰ b xs → p b ≡ true → b ≡ a)
      → find p xs ≡ some a
  find_complete p a [] m h only = absurd (Memᴰ.not-nil m)
  find_complete p a (x ∷ xs) m h only = elim (Bool-cases (p x)) [
    | inl hit ↦ rw (hit, only x (Memᴰ.head refl) hit)
    | inr miss ↦ rw miss (elim (Memᴰ.cases_cons m) [
      | inl e ↦ absurd (cc (ap p e))
      | inr m ↦ find_complete p a xs m h λ b l. only b (Memᴰ.tail l)
    ])
  ]
