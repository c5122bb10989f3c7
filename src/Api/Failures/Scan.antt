-- ===== src/Api/Failures/Scan.antt =====
-- crates/komodo-api/src/errors.rs: the search that `project_text` relies on.
use mcp_komodo_rs.Prelude.{
  ℕ, zero, suc, ◌+◌, ◌-◌, ◌≤◌, ◌<◌, ◌≡◌, refl, sym, ap, ◌∙◌, inl, inr, true, false, some, none,
  List, [], ◌∷◌, ◌++◌, length, take, drop, is_empty, Memᴰ, arith, Bool-cases, Option-cases,
  drop-drop, take-append-drop, length-take, take-nil,
}
use mcp_komodo_rs.Prelude.Text.{
  Text, strip_prefix, strip_prefix-append, strip_prefix-eq-some, contains,
}
use mcp_komodo_rs.Api.Failures.Project.{Match}

-- What a text contains starts somewhere in it.
contains_sound :
    (q s : Text)
    → is_empty q ≡ false
    → contains q s ≡ true
    → (i : ℕ) × (r : Text) × (strip_prefix q (drop i s) ≡ some r) × (i < length s)
unfolding contains
contains_sound [] s filled h = absurd (cc filled)
contains_sound (a ∷ q) [] filled h = absurd (cc h)
contains_sound (a ∷ q) (c ∷ s) filled h = elim (Option-cases (strip_prefix (a ∷ q) (c ∷ s))) [
  | inr (r, e) ↦ (0, r, e, omega arith)
  | inl missing ↦
      let (i, r, e, small) = contains_sound (a ∷ q) s filled (rw (missing, contains) at h) in
      (suc i, r, e, omega (arith, small))
]

append_assoc_text : (a b c : Text) → (a ++ b) ++ c ≡ a ++ (b ++ c)
append_assoc_text [] b c = refl
append_assoc_text (x ∷ a) b c = ap (λ t. x ∷ t) (append_assoc_text a b c)

-- A prefix of a part is one of the whole.
strip_prefix-take :
    (q : Text) (m : ℕ) (s r : Text)
    → strip_prefix q (take m s) ≡ some r
    → strip_prefix q s ≡ some (r ++ drop m s)
strip_prefix-take q m s r h =
    let split : s ≡ q ++ (r ++ drop m s) =
      sym (take-append-drop m s)
      ∙ ap (λ t. t ++ drop m s) (strip_prefix-eq-some q (take m s) r h)
      ∙ append_assoc_text q r (drop m s) in
    ap (strip_prefix q) split ∙ strip_prefix-append q (r ++ drop m s)

drop-take : (i n : ℕ) (s : Text) → drop i (take n s) ≡ take (n - i) (drop i s)
drop-take zero n s = ap (λ k. take k s) (omega arith)
drop-take (suc i) zero s =
    let none_left : 0 - suc i ≡ 0 = omega arith in sym (ap (λ k. take k (drop (suc i) s)) none_left)
drop-take (suc i) (suc n) [] = sym (take-nil (suc n - suc i))
drop-take (suc i) (suc n) (x ∷ s) = drop-take i n s ∙ ap (λ k. take k (drop i s)) (omega arith)

module _ (patterns : List Text) where
  -- No pattern starts at an offset from `k` to below `end`.
  abbrev pub IsFree : Text → ℕ → ℕ → Type 0
  IsFree value k end =
      (q : Text) (i : ℕ) → Memᴰ q patterns → k ≤ i → i < end → strip_prefix q (drop i value) ≡ none

  -- The matches are those of a leftmost search that goes on where the last match ended: none starts
  -- before the next one does, or after the last one.
  abbrev pub IsScan : Text → ℕ → List Match → Type 0
  IsScan value k [] = IsFree value k (length value)
  IsScan value k (found ∷ matches) =
      (k ≤ found.start)
      × (found.start < found.end)
      × (found.end ≤ length value)
      × IsFree value k found.start
      × IsScan value found.end matches

  abbrev pub IsClean : Text → Type 0
  IsClean t = (q : Text) → Memᴰ q patterns → contains q t ≡ false

  module _ (filled : (q : Text) → Memᴰ q patterns → is_empty q ≡ false) where
    pub free_lem :
        (value : Text) (k n : ℕ) → IsFree value k (k + n) → IsClean (take n (drop k value))
    free_lem value k n free q listed = elim (Bool-cases (contains q (take n (drop k value)))) [
      | inr clean ↦ clean
      | inl found ↦
          let (i, r, e, small) = contains_sound q (take n (drop k value)) (filled q listed) found in
          let at : strip_prefix q (drop (k + i) value)
              ≡ some (r ++ drop (n - i) (drop i (drop k value))) =
            ap (strip_prefix q) (drop-drop k i value)
            ∙ strip_prefix-take q (n - i) (drop i (drop k value)) r
                (ap (strip_prefix q) (sym (drop-take i n (drop k value))) ∙ e) in
          absurd (
            cc (
              at,
              free q (k + i) listed (omega arith)
                  (omega (arith, small, length-take n (drop k value))),
            ))
    ]
