-- ===== src/Api/Failures/Hides.antt =====
-- crates/komodo-api/src/errors.rs: no credential is left in the texts that `project_text` gives.
use mcp_komodo_rs.Prelude.{
  ℕ, ◌-◌, ◌≤◌, ◌≡◌, refl, ap, subst, ◌⊎◌, inl, inr, Bool, true, false, not, ◌&&◌, ◌==◌, ltb,
  if◌then◌else◌, Option, some, none, List, [], ◌∷◌, ◌++◌, length, drop, is_empty, retain, All, Memᴰ,
  mem-retain_sound, arith, Bool-cases, Option-cases, length-drop, take_all,
}
use mcp_komodo_rs.Prelude.Text.{Text}
use mcp_komodo_rs.Api.Resources.{ReportedError}
use mcp_komodo_rs.Api.Errors.{Diagnostic, DiagnosticText, complete, segments}
use mcp_komodo_rs.Api.Failures.Project.{
  max_segments, Match, slice, Projection, visit_all, finish, Flags, start, project_text,
  project_trace, project_error, project_reported, from_response, failure_of, read_report,
}
use mcp_komodo_rs.Api.Failures.Scan.{IsFree, IsScan, IsClean, free_lem}

-- The texts that a projection shows.
abbrev pub texts_of : DiagnosticText → List Text
texts_of (complete t) = t ∷ []
texts_of (segments parts) = parts

module _ (patterns : List Text) where
  -- No text of the diagnostic contains one of the patterns.
  abbrev pub IsCleanDiagnostic : Diagnostic → Type 0
  IsCleanDiagnostic d =
      All (IsClean patterns) (texts_of d.error)
      × All (λ t. All (IsClean patterns) (texts_of t)) d.trace

  module _ (filled : (q : Text) → Memᴰ q patterns → is_empty q ≡ false) where
    -- What the loop keeps: the parts are clean, and nothing is behind until something is found.
    abbrev IsKept : Projection → Type 0
    IsKept v =
        All (IsClean patterns) v.parts × ((v.changed ≡ true) ⊎ ((v.cursor ≡ 0) × (v.parts ≡ [])))

    -- Where the loop ends: it breaks after something is found, or no pattern starts behind the cursor.
    abbrev IsEnded : Text → Projection → Type 0
    IsEnded value v =
        ((v.changed ≡ true) × (v.fragmented ≡ true)) ⊎ IsFree patterns value v.cursor (length value)

    All-append_one :
        (parts : List Text) (part : Text)
        → All (IsClean patterns) parts
        → IsClean patterns part
        → All (IsClean patterns) (parts ++ part ∷ [])
    All-append_one [] part clean last = (last, tt)
    All-append_one (p ∷ parts) part (first, clean) last =
        (first, All-append_one parts part clean last)

    gap_lem :
        (value : Text) (k end : ℕ)
        → k ≤ end
        → IsFree patterns value k end
        → IsClean patterns (slice value k end)
    gap_lem value k end ordered free =
        free_lem patterns filled value k (end - k)
          (subst (IsFree patterns value k) (omega arith) free)

    visit_all_lem :
        (value : Text) (matches : List Match) (v : Projection)
        → IsScan patterns value v.cursor matches
        → IsKept v
        → IsKept (visit_all value matches v) × IsEnded value (visit_all value matches v)
    unfolding visit_all
    visit_all_lem value [] v free kept = (kept, inr free)
    visit_all_lem value (found ∷ matches) v (ordered, _, _, free, rest) (clean, state) =
        elim (Bool-cases (ltb v.cursor found.start)) [
          | inr adjacent ↦ rw adjacent (
              visit_all_lem value matches
                (record v { cursor = found.end; changed = true; present = true }) rest
                (clean, inl refl))
          | inl gap ↦ elim (Bool-cases (length v.parts == max_segments)) [
            | inr room ↦
                rw (gap, room)
                  (visit_all_lem value matches
                    (record v {
                      cursor = found.end;
                      changed = true;
                      present = true;
                      parts = v.parts ++ slice value v.cursor found.start ∷ [];
                    })
                    rest
                    (
                      All-append_one v.parts (slice value v.cursor found.start) clean
                          (gap_lem value v.cursor found.start ordered free),
                      inl refl,
                    ))
            | inl full ↦ rw (gap, full) ((clean, state), inl (full_lem v.parts state full, refl))
          ]
        ]
      where
        full_lem :
            (parts : List Text) {cursor : ℕ} {changed : Bool}
            → (changed ≡ true) ⊎ ((cursor ≡ 0) × (parts ≡ []))
            → (length parts == max_segments) ≡ true
            → changed ≡ true
        full_lem parts (inl e) full = e
        full_lem parts (inr (_, e)) full = absurd (ground (arith, ap length e))

    finish_lem :
        (value : Text) (v : Projection)
        → IsKept v
        → IsEnded value v
        → All (IsClean patterns) (texts_of (finish value v).0)
    unfolding finish
    finish_lem value v (clean, state) ended = elim (Bool-cases v.changed) [
      | inr same ↦ rw same (whole_lem v.cursor state ended same, tt)
      | inl changed ↦ elim (Bool-cases (ltb v.cursor (length value) && not v.fragmented)) [
        | inr over ↦ rw (changed, over) clean
        | inl left ↦ elim (Bool-cases (length v.parts == max_segments)) [
          | inl full ↦ rw (changed, left, full) clean
          | inr room ↦
              rw (changed, left, room)
                (All-append_one v.parts (drop v.cursor value) clean
                  (tail_lem v.cursor (ground arith) ended))
        ]
      ]
    ]
      where
        rest_lem :
            (k : ℕ) → IsFree patterns value k (length value) → IsClean patterns (drop k value)
        rest_lem k free =
            let n = length value - k in
            subst (IsClean patterns)
              (take_all n (drop k value) (omega (arith, length-drop k value)))
              (free_lem patterns filled value k n
                (λ q i m first last. free q i m first (omega arith)))

        whole_lem :
            (k : ℕ) {changed fragmented : Bool} {parts : List Text}
            → (changed ≡ true) ⊎ ((k ≡ 0) × (parts ≡ []))
            → ((changed ≡ true) × (fragmented ≡ true)) ⊎ IsFree patterns value k (length value)
            → changed ≡ false
            → IsClean patterns value
        whole_lem k (inl e) _ same = absurd (cc (e, same))
        whole_lem k (inr _) (inl (e, _)) same = absurd (cc (e, same))
        whole_lem k (inr (e, _)) (inr free) same =
            rest_lem 0 (subst (λ i. IsFree patterns value i (length value)) e free)

        tail_lem :
            (k : ℕ) {changed fragmented : Bool}
            → fragmented ≡ false
            → ((changed ≡ true) × (fragmented ≡ true)) ⊎ IsFree patterns value k (length value)
            → IsClean patterns (drop k value)
        tail_lem k whole (inl (_, e)) = absurd (cc (e, whole))
        tail_lem k whole (inr free) = rest_lem k free

    project_text_lem :
        (find_iter : Text → List Match) (value : Text) (flags : Flags)
        → IsScan patterns value 0 (find_iter value)
        → All (IsClean patterns) (texts_of (project_text find_iter value flags).0)
    unfolding project_text
    project_text_lem find_iter value flags scan =
        let (kept, ended) =
          visit_all_lem value (find_iter value) (start flags) scan (tt, inr (refl, refl)) in
        finish_lem value (visit_all value (find_iter value) (start flags)) kept ended

    project_trace_lem :
        (find_iter : Text → List Match) (trace : List Text) (flags : Flags)
        → ((value : Text) → IsScan patterns value 0 (find_iter value))
        → All (λ t. All (IsClean patterns) (texts_of t)) (project_trace find_iter trace flags).0
    unfolding project_trace
    project_trace_lem find_iter [] flags scans = tt
    project_trace_lem find_iter (value ∷ trace) flags scans = (
      project_text_lem find_iter value flags (scans value),
      project_trace_lem find_iter trace (project_text find_iter value flags).1 scans,
    )

    project_reported_lem :
        (find_iter : Text → List Match) (reported : Option ReportedError) (flags : Flags)
        (d : Diagnostic)
        → ((value : Text) → IsScan patterns value 0 (find_iter value))
        → (project_reported find_iter reported flags).0 ≡ some d
        → IsCleanDiagnostic d
    unfolding project_reported project_error
    project_reported_lem find_iter none flags d scans h = absurd (cc h)
    project_reported_lem find_iter (some reported) flags d scans h =
        let made : record {
          error = (project_text find_iter reported.error flags).0;
          trace =
              (project_trace find_iter reported.trace
                (project_text find_iter reported.error flags).1).0;
        }
            ≡ d =
          cc h in
        subst IsCleanDiagnostic made (
          project_text_lem find_iter reported.error flags (scans reported.error),
          project_trace_lem find_iter reported.trace (project_text find_iter reported.error flags).1
              scans,
        )

-- What aho-corasick documents of a matcher of the kind `LeftmostLongest`, where no pattern is empty.
pub record Searches (build : List Text → Option (Text → List Match)) : Type 0 where
  pub scans :
      (patterns : List Text) (find_iter : Text → List Match)
      → ((q : Text) → Memᴰ q patterns → is_empty q ≡ false)
      → build patterns ≡ some find_iter
      → (value : Text) → IsScan patterns value 0 (find_iter value)

module _ (build : List Text → Option (Text → List Match)) (parse : List ℕ → Option ReportedError)
    (from_utf8 : List ℕ → Option Text) where
  -- With a matcher that searches as documented, whatever an unsuccessful response says, and wherever it
  -- repeats a credential, no text of the diagnostic that is kept of it contains one of the credentials
  -- that are not empty.
  pub from_response_hides :
      Searches build
      → (status : ℕ) (request : Text) (bytes : List ℕ) (credentials : List Text) (d : Diagnostic)
      → (from_response build parse from_utf8 status request bytes credentials).diagnostic ≡ some d
      → IsCleanDiagnostic (retain (λ value. not (is_empty value)) credentials) d
  unfolding from_response failure_of
  from_response_hides laws status request bytes credentials d h =
      let patterns = retain (λ value. not (is_empty value)) credentials in
      elim (Option-cases (build patterns)) [
        | inl unbuilt ↦ absurd (cc (rw (unbuilt, from_response) at h))
        | inr (find_iter, built) ↦
            let reported = read_report parse from_utf8 bytes in
            let flags : Flags = record { present = false; fragmented = false } in
            project_reported_lem patterns (filled_lem credentials) find_iter reported.diagnostic
              flags d (laws.scans patterns find_iter (filled_lem credentials) built)
              (kept_lem (project_reported find_iter reported.diagnostic flags) d
                (rw (built, from_response) at h))
      ]
    where
      filled_lem :
          (credentials : List Text) (q : Text)
          → Memᴰ q (retain (λ value. not (is_empty value)) credentials)
          → is_empty q ≡ false
      filled_lem credentials q listed =
          ground (arith, (mem-retain_sound (λ value. not (is_empty value)) q credentials listed).1)

      kept_lem :
          (made : Option Diagnostic × Flags) (d : Diagnostic)
          → (if not made.1.fragmented then made.0 else none) ≡ some d
          → made.0 ≡ some d
      kept_lem made d h = elim (Bool-cases made.1.fragmented) [
        | inl split ↦ absurd (cc (rw split at h))
        | inr whole ↦ rw whole at h
      ]
