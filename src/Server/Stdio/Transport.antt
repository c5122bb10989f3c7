-- ===== src/Server/Stdio/Transport.antt =====
-- crates/komodo-server/src/stdio.rs: `BoundedStdio`, the input that is buffered and the requests that
-- are pending. The messages, their ids and their JSON are those of rmcp and serde; what a read and a
-- write give are arguments.
use mcp_komodo_rs.Prelude.{
  ℕ, ◌+◌, ◌-◌, ◌*◌, ◌≤◌, ◌≡◌, Bool, true, false, not, ◌&&◌, ◌||◌, ◌==◌, leb, if◌then◌else◌, Option,
  some, none, List, [], ◌∷◌, ◌++◌, length, any, retain, is_empty, Result, ok, err,
}

abbrev pub max_frame_bytes : ℕ
max_frame_bytes = 64 * 1024

abbrev pub max_pending_requests : ℕ
max_pending_requests = 32

abbrev pub newline : ℕ
newline = 10

-- `line.ends_with(b"\n")`
unfoldable pub ends_with_newline : List ℕ → Bool
ends_with_newline [] = false
ends_with_newline (b ∷ bs) =
    let rest = ends_with_newline bs in if is_empty bs then b == newline else rest

-- What a read appends to the line, and whether it ends with an error.
pub record Read : Type 0 where
  pub bytes : List ℕ
  pub fails : Bool

-- How a send ends.
pub data Sent : Type 0 where
  written encoding_failed timed_out write_failed : Sent

-- The messages of the server, as far as a send looks at them.
pub data ServerMessage (RequestId : Type 0) : Type 0 where
  response : RequestId → ServerMessage RequestId
  error : Option RequestId → ServerMessage RequestId
  other : ServerMessage RequestId

pub record BoundedStdio (RequestId : Type 0) : Type 0 where
  pub line : List ℕ
  pub pending : List RequestId
  pub closed : Bool

abbrev pub new : {RequestId : Type 0} → BoundedStdio RequestId
new = record { line = []; pending = []; closed = false }

-- `MAX_FRAME_BYTES + 1 - self.line.len()`
abbrev pub remaining : {RequestId : Type 0} → BoundedStdio RequestId → ℕ
remaining s = max_frame_bytes + 1 - length s.line

abbrev pub closing : {RequestId : Type 0} → BoundedStdio RequestId → BoundedStdio RequestId
closing s = record s { closed = true }

-- A read that is cancelled leaves its bytes in the line.
abbrev pub buffered :
    {RequestId : Type 0} → List ℕ → BoundedStdio RequestId → BoundedStdio RequestId
buffered bytes s = record s { line = s.line ++ bytes }

-- `matches!(read, Ok(count) if count > 0)` and the tests of the line.
unfoldable pub is_frame : Read → List ℕ → Bool
is_frame read line =
    not (read.fails || is_empty read.bytes)
    && (leb (length line) max_frame_bytes && ends_with_newline line)

module _ {RequestId ClientMessage : Type 0} (same : RequestId → RequestId → Bool)
    (decode : List ℕ → Option ClientMessage) (request_id : ClientMessage → Option RequestId) where
  -- A request joins the pending ones, unless they are too many or have its id.
  unfoldable pub enqueue :
      ClientMessage
      → Option RequestId
      → BoundedStdio RequestId
      → Option ClientMessage × BoundedStdio RequestId
  enqueue message none s = (some message, s)
  enqueue message (some id) s =
      if leb max_pending_requests (length s.pending) || any (same id) s.pending
      then (none, closing s)
      else (some message, record s { pending = s.pending ++ id ∷ [] })

  unfoldable pub accept :
      Option ClientMessage → BoundedStdio RequestId → Option ClientMessage × BoundedStdio RequestId
  accept none s = (none, closing s)
  accept (some message) s = enqueue message (request_id message) s

  unfoldable pub receive :
      Read → BoundedStdio RequestId → Option ClientMessage × BoundedStdio RequestId
  receive read s =
      if s.closed
      then (none, s)
      else if is_frame read (s.line ++ read.bytes)
      then accept (decode (s.line ++ read.bytes)) (record s { line = [] })
      else (none, closing (buffered read.bytes s))

  abbrev pub answered : ServerMessage RequestId → Option RequestId
  answered (response id) = some id
  answered (error id) = id
  answered other = none

  unfoldable pub remove : Option RequestId → BoundedStdio RequestId → BoundedStdio RequestId
  remove none s = s
  remove (some id) s = record s { pending = retain (λ entry. not (same id entry)) s.pending }

  -- A message's request is pending until the message is written.
  unfoldable pub send :
      ServerMessage RequestId
      → Sent
      → BoundedStdio RequestId
      → Result Sent (Unit {0}) × BoundedStdio RequestId
  send message written s = (ok tt, remove (answered message) s)
  send message failure s = (err failure, s)

  -- What can happen to a transport. A read appends no more than it is asked for.
  pub data Step (s : BoundedStdio RequestId) : BoundedStdio RequestId → Type 0 where
    interrupted :
        (bytes : List ℕ) → s.closed ≡ false → length bytes ≤ remaining s → Step s (buffered bytes s)
    received : (read : Read) → length read.bytes ≤ remaining s → Step s (receive read s).1
    sent : (message : ServerMessage RequestId) (outcome : Sent) → Step s (send message outcome s).1
    closed : Step s (closing s)

  pub data Reach : BoundedStdio RequestId → Type 0 where
    start : Reach new
    later : {s t : BoundedStdio RequestId} → Reach s → Step s t → Reach t
