-- ===== src/Api/Failures/Examples.antt =====
-- crates/komodo-api/src/errors.rs: a search of every offset in turn as the matcher, and a failure on
-- concrete data.
use mcp_komodo_rs.Prelude.{
  ℕ, zero, suc, ◌+◌, ◌-◌, ◌≤◌, ◌<◌, ◌≡◌, refl, ap, subst, ◌∙◌, inl, inr, false, not, if◌then◌else◌,
  Option, some, none, is_some, List, [], ◌∷◌, length, drop, is_empty, retain, Memᴰ, arith,
  Bool-cases, Option-cases, length-append, length-drop, ltb,
}
use mcp_komodo_rs.Prelude.Memᴰ as Memᴰ
use mcp_komodo_rs.Prelude.Text.{Text, text, strip_prefix, strip_prefix-eq-some}
use mcp_komodo_rs.Api.Resources.{ReportedError}
use mcp_komodo_rs.Api.Errors.{Diagnostic, segments}
use mcp_komodo_rs.Api.Failures.Project.{
  Match, visit_all, finish, project_text, project_trace, project_error, project_reported,
  read_report, failure_of, from_response,
}
use mcp_komodo_rs.Api.Failures.Scan.{IsFree, IsScan}
use mcp_komodo_rs.Api.Failures.Hides.{Searches, IsCleanDiagnostic, from_response_hides}

-- The length of the first pattern that starts a text.
unfoldable pub first : List Text → Text → Option ℕ
first [] s = none
first (q ∷ patterns) s =
    let rest = first patterns s in if is_some (strip_prefix q s) then some (length q) else rest

first_none :
    (patterns : List Text) (s q : Text)
    → first patterns s ≡ none
    → Memᴰ q patterns
    → strip_prefix q s ≡ none
unfolding first
first_none [] s q h listed = absurd (Memᴰ.not-nil listed)
first_none (p ∷ patterns) s q h listed = elim (Option-cases (strip_prefix p s)) [
  | inr (r, e) ↦ absurd (cc (rw (e, first) at h))
  | inl missing ↦ elim (Memᴰ.cases_cons listed) [
    | inl e ↦ ap (λ p. strip_prefix p s) e ∙ missing
    | inr listed ↦ first_none patterns s q (rw (missing, first) at h) listed
  ]
]

first_some :
    (patterns : List Text) (s : Text) (n : ℕ)
    → ((q : Text) → Memᴰ q patterns → is_empty q ≡ false)
    → first patterns s ≡ some n
    → (0 < n) × (n ≤ length s)
unfolding first
first_some [] s n filled h = absurd (cc h)
first_some (q ∷ patterns) s n filled h = elim (Option-cases (strip_prefix q s)) [
  | inl missing ↦ first_some patterns s n (λ q m. filled q (Memᴰ.tail m)) (rw (missing, first) at h)
  | inr (r, e) ↦
      let size : length q ≡ n = cc (rw (e, first) at h) in
      let whole = ap length (strip_prefix-eq-some q s r e) in
      (positive q (filled q (Memᴰ.head refl)) size, omega (arith, whole, length-append q r, size))
]
  where
    positive : (q : Text) → is_empty q ≡ false → length q ≡ n → 0 < n
    positive [] filled size = absurd (cc filled)
    positive (c ∷ q) filled size = omega (arith, size)

unfoldable pub scan : List Text → ℕ → ℕ → Text → List Match
scan patterns zero k value = []
scan patterns (suc fuel) k value = elim (first patterns (drop k value)) [
  | none ↦ scan patterns fuel (k + 1) value
  | some n ↦ record { start = k; end = k + n } ∷ scan patterns fuel (k + n) value
]

abbrev pub build : List Text → Option (Text → List Match)
build patterns = some (λ value. scan patterns (length value) 0 value)

scan-IsScan :
    (patterns : List Text) (fuel k from : ℕ) (value : Text)
    → ((q : Text) → Memᴰ q patterns → is_empty q ≡ false)
    → length value - k ≤ fuel
    → from ≤ k
    → IsFree patterns value from k
    → IsScan patterns value from (scan patterns fuel k value)
unfolding scan
scan-IsScan patterns zero k from value filled enough ordered free =
    λ q i listed low high. free q i listed low (omega arith)
scan-IsScan patterns (suc fuel) k from value filled enough ordered free =
    elim (Option-cases (first patterns (drop k value))) [
      | inl missing ↦
          rw (missing, scan)
            (scan-IsScan patterns fuel (k + 1) from value filled (omega arith) (omega arith)
              (λ q i listed low high. elim (Bool-cases (ltb i k)) [
                | inl before ↦ free q i listed low (ground arith)
                | inr after ↦
                    let here : i ≡ k = ground arith in
                    ap (λ j. strip_prefix q (drop j value)) here
                    ∙ first_none patterns (drop k value) q missing listed
              ]))
      | inr (n, e) ↦
          let (positive, fits) = first_some patterns (drop k value) n filled e in
          let size = length-drop k value in
          rw (e, scan)
            (
              ordered,
              omega (arith, positive),
              omega (arith, fits, size, positive),
              free,
              scan-IsScan patterns fuel (k + n) (k + n) value filled (omega (arith, positive))
                  (omega arith) (λ q i listed low high. absurd (omega arith)),
            )
    ]

pub build-Searches : Searches build
build-Searches = record {
  scans = λ patterns find_iter filled built value.
      let same : (λ (v : Text). scan patterns (length v) 0 v) ≡ find_iter = cc built in
      subst (λ (f : Text → List Match). IsScan patterns value 0 (f value)) same
        (scan-IsScan patterns (length value) 0 0 value filled (omega arith) (omega arith)
          (λ q i listed low high. absurd (omega arith)));
}

abbrev pub parse : List ℕ → Option ReportedError
parse bytes = none

abbrev pub from_utf8 : List ℕ → Option Text
from_utf8 bytes = some bytes

abbrev credentials : List Text
credentials = text "key-1" ∷ [] ∷ text "key" ∷ []

abbrev projected : Diagnostic
projected = record { error = segments (text "denied " ∷ text ", " ∷ text "!" ∷ []); trace = [] }

projects :
    (from_response build parse from_utf8 403
      (text "GetStack")
      (text "denied key-1, key!")
      credentials).diagnostic
    ≡ some projected
unfolding from_response read_report failure_of project_reported project_error project_trace
    project_text visit_all finish scan first strip_prefix
projects = refl

from_response_hides_example :
    IsCleanDiagnostic (retain (λ value. not (is_empty value)) credentials) projected
from_response_hides_example =
    from_response_hides build parse from_utf8 build-Searches 403 (text "GetStack")
      (text "denied key-1, key!") credentials projected projects
