-- ===== src/Api/Failures/Project.antt =====
-- crates/komodo-api/src/errors.rs: `project_text` and `UpstreamFailure::from_response`. The matcher is that
-- of the crate aho-corasick, the parser of the body that of serde; offsets count code points.
use mcp_komodo_rs.Prelude.{
  ℕ, ◌-◌, Bool, true, false, not, ◌&&◌, ◌==◌, ltb, if◌then◌else◌, Option, some, none, is_some, List,
  [], ◌∷◌, ◌++◌, length, take, drop, retain, is_empty,
}
use mcp_komodo_rs.Prelude.Text.{Text, text}
use mcp_komodo_rs.Api.Resources.{ReportedError}
use mcp_komodo_rs.Api.Errors.{DiagnosticText, complete, segments, Diagnostic, UpstreamFailure}

abbrev pub max_segments : ℕ
max_segments = 256

-- aho_corasick::Match
pub record Match : Type 0 where
  pub start : ℕ
  pub end : ℕ

-- `text[start..end]`
abbrev pub slice : Text → ℕ → ℕ → Text
slice value start end = take (end - start) (drop start value)

-- The variables of the loop of `project_text`, those behind the references included.
pub record Projection : Type 0 where
  pub cursor : ℕ
  pub parts : List Text
  pub changed : Bool
  pub present : Bool
  pub fragmented : Bool

-- The body of the loop: the variables, and whether it breaks.
unfoldable pub visit : Text → Match → Projection → Projection × Bool
visit value found v =
    let moved = record v { cursor = found.end; changed = true; present = true } in
    if ltb v.cursor found.start
    then if length v.parts == max_segments
      then (record v { fragmented = true }, true)
      else (record moved { parts = v.parts ++ slice value v.cursor found.start ∷ [] }, false)
    else (moved, false)

unfoldable pub visit_all : Text → List Match → Projection → Projection
unfolding visit
visit_all value [] v = v
visit_all value (found ∷ matches) v =
    let (v', broken) = visit value found v in
    let rest = visit_all value matches v' in if broken then v' else rest

-- What follows the loop.
unfoldable pub finish : Text → Projection → DiagnosticText × Projection
finish value v =
    if not v.changed
    then (complete value, v)
    else if ltb v.cursor (length value) && not v.fragmented
    then if length v.parts == max_segments
      then (segments v.parts, record v { fragmented = true })
      else (segments (v.parts ++ drop v.cursor value ∷ []), v)
    else (segments v.parts, v)

-- The references of `project_text`.
pub record Flags : Type 0 where
  pub present : Bool
  pub fragmented : Bool

abbrev pub start : Flags → Projection
start flags = record {
  cursor = 0;
  parts = [];
  changed = false;
  present = flags.present;
  fragmented = flags.fragmented;
}

module _ (find_iter : Text → List Match) where
  unfoldable pub project_text : Text → Flags → DiagnosticText × Flags
  unfolding visit_all finish
  project_text value flags =
      let (projected, v) = finish value (visit_all value (find_iter value) (start flags)) in
      (projected, record { present = v.present; fragmented = v.fragmented })

  -- The texts of the trace, in their order.
  unfoldable pub project_trace : List Text → Flags → List DiagnosticText × Flags
  project_trace [] flags = ([], flags)
  project_trace (value ∷ trace) flags =
      let (projected, flags') = project_text value flags in
      let (rest, flags'') = project_trace trace flags' in (projected ∷ rest, flags'')

  unfoldable pub project_error : ReportedError → Flags → Diagnostic × Flags
  project_error reported flags =
      let (error, flags') = project_text reported.error flags in
      let (trace, flags'') = project_trace reported.trace flags' in
      (record { error = error; trace = trace }, flags'')

  -- `diagnostic.map(…)`
  unfoldable pub project_reported : Option ReportedError → Flags → Option Diagnostic × Flags
  project_reported none flags = (none, flags)
  project_reported (some reported) flags =
      let (diagnostic, flags') = project_error reported flags in (some diagnostic, flags')

-- What a body says, `serde_json` first and its text otherwise, and why it is not available.
pub record Reported : Type 0 where
  pub diagnostic : Option ReportedError
  pub not_available : Option Text

unfoldable pub read_report :
    (List ℕ → Option ReportedError) → (List ℕ → Option Text) → List ℕ → Reported
read_report parse from_utf8 bytes =
    if is_empty bytes
    then record { diagnostic = none; not_available = some (text "upstream response body is empty") }
    else elim (parse bytes) [
      | some reported ↦ record { diagnostic = some reported; not_available = none }
      | none ↦ elim (from_utf8 bytes) [
        | some error ↦ record {
          diagnostic = some (record { error = error; trace = [] });
          not_available = none;
        }
        | none ↦ record {
          diagnostic = none;
          not_available = some (text "upstream response body has unsupported encoding");
        }
      ]
    ]

abbrev pub or_else : {A : Type 0} → Option A → Option A → Option A
or_else none other = other
or_else (some a) other = some a

-- The failure, with what the projection gives.
unfoldable pub failure_of :
    ℕ → Text → List ℕ → Reported → Option Diagnostic × Flags → UpstreamFailure
failure_of status request bytes reported (diagnostic, flags) = record {
  status = status;
  request = request;
  diagnostic = if not flags.fragmented then diagnostic else none;
  diagnostic_unavailable =
      or_else
        (if flags.fragmented
          then some
              (text "credential-separated text exceeds inline segment bound; use original file")
          else none)
        reported.not_available;
  original = if flags.present then some bytes else none;
  credential_values_present = if is_some reported.diagnostic then some flags.present else none;
}

-- `build` gives the matcher of some patterns.
module _ (build : List Text → Option (Text → List Match)) (parse : List ℕ → Option ReportedError)
    (from_utf8 : List ℕ → Option Text) where
  unfoldable pub from_response : ℕ → Text → List ℕ → List Text → UpstreamFailure
  unfolding read_report failure_of project_reported project_error project_trace
  from_response status request bytes credentials =
      elim (build (retain (λ value. not (is_empty value)) credentials)) [
        | none ↦ record {
          status = status;
          request = request;
          diagnostic = none;
          diagnostic_unavailable =
              some (text "credential projection unavailable; use original file");
          credential_values_present = none;
          original = some bytes;
        }
        | some find_iter ↦
            let reported = read_report parse from_utf8 bytes in
            failure_of status request bytes reported (
              project_reported find_iter reported.diagnostic
                (record { present = false; fragmented = false }))
      ]
