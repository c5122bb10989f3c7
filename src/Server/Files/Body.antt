-- ===== src/Server/Files/Body.antt =====
-- crates/komodo-server/src/files.rs: `DownloadBody`, the stream of one consumed download.
use mcp_komodo_rs.Prelude.{
  ℕ, zero, suc, ◌+◌, ◌-◌, ◌*◌, ◌≤◌, ◌<◌, ◌≡◌, refl, ap, sym, ◌∙◌, ltb, ltb→lt, drop-drop, Bool,
  true, false, ◌==◌, if◌then◌else◌, Option, some, none, [], ◌∷◌, ◌++◌, length, take, drop, is_empty,
  min, arith, length-drop, take-append-drop, Bool-cases, inl, inr,
}
use mcp_komodo_rs.Server.Files.Types.{Bytes, StoredBytes}

pub record DownloadBody : Type 0 where
  pub stored : StoredBytes
  pub offset : ℕ

abbrev pub frame_bytes : ℕ
frame_bytes = 16 * 1024

-- The next frame, if one is left.
unfoldable pub poll_frame : DownloadBody → Option Bytes × DownloadBody
poll_frame body =
    let remaining = drop body.offset body.stored.bytes in
    let count = min (length remaining) frame_bytes in
    if is_empty remaining
    then (none, body)
    else (some (take count remaining), record body { offset = body.offset + count })

unfoldable pub is_end_stream : DownloadBody → Bool
is_end_stream body = body.offset == length body.stored.bytes

-- SizeHint::with_exact
unfoldable pub size_hint : DownloadBody → ℕ
size_hint body = length body.stored.bytes - body.offset

abbrev after_poll :
    Option Bytes × DownloadBody → (DownloadBody → Bytes × DownloadBody) → Bytes × DownloadBody
after_poll (none, body) rest = ([], body)
after_poll (some bytes, body) rest = (bytes ++ (rest body).0, (rest body).1)

-- Polling until the stream ends, at most `fuel` times: the bytes of all frames, and the body then.
unfoldable pub drain : ℕ → DownloadBody → Bytes × DownloadBody
drain zero body = ([], body)
drain (suc fuel) body = after_poll (poll_frame body) (drain fuel)

not_empty : (xs : Bytes) → 0 < length xs → is_empty xs ≡ false
not_empty [] h = absurd (omega arith)
not_empty (x ∷ xs) h = refl

empty : (xs : Bytes) → length xs ≡ 0 → xs ≡ []
empty [] h = refl
empty (x ∷ xs) h = absurd (omega arith)

-- A poll gives a frame and moves on by its length, or ends at the end of the bytes.
poll_lem :
    (body : DownloadBody)
    → body.offset < length body.stored.bytes
    → poll_frame body ≡ (
      some (take (min (size_hint body) frame_bytes) (drop body.offset body.stored.bytes)),
      record body { offset = body.offset + min (size_hint body) frame_bytes },
    )
unfolding poll_frame size_hint
poll_lem body left =
    let n = length-drop body.offset body.stored.bytes in
    rw (not_empty (drop body.offset body.stored.bytes) (omega (arith, n)), n)

poll_end :
    (body : DownloadBody)
    → length body.stored.bytes ≤ body.offset
    → (poll_frame body ≡ (none, body)) × (drop body.offset body.stored.bytes ≡ [])
unfolding poll_frame
poll_end body done =
    let n = length-drop body.offset body.stored.bytes in
    let e = empty (drop body.offset body.stored.bytes) (omega (arith, n)) in (rw e, e)

-- The frames of the stream are exactly what `bytes` says, and it ends.
abbrev Drains : Bytes → Bytes × DownloadBody → Type 0
Drains bytes r = (r.0 ≡ bytes) × (is_end_stream r.1 ≡ true) × (size_hint r.1 ≡ 0)

drain_lem :
    (fuel : ℕ) (body : DownloadBody)
    → body.offset ≤ length body.stored.bytes
    → size_hint body < fuel
    → Drains (drop body.offset body.stored.bytes) (drain fuel body)
unfolding drain is_end_stream size_hint
drain_lem zero body within enough = elim enough [ ]
drain_lem (suc fuel) body within enough =
    elim (Bool-cases (ltb body.offset (length body.stored.bytes))) [
      | inl more ↦
          let k = min (size_hint body) frame_bytes in
          let rest =
            drain_lem fuel (record body { offset = body.offset + k }) (ground arith)
              (ground arith) in
          rw (poll_lem body (ltb→lt _ _ more)) (
            ap (λ b. take k (drop body.offset body.stored.bytes) ++ b)
                  (rest.0 ∙ drop-drop body.offset k body.stored.bytes)
                ∙ take-append-drop k (drop body.offset body.stored.bytes),
            rest.1,
            rest.2,
          )
      | inr ended ↦
          let (stops, nothing) = poll_end body (ground arith) in
          rw stops (sym nothing, ground arith, ground arith)
    ]

-- Polling a body to its end gives exactly the bytes that were left, in order, and leaves the stream
-- ended, with nothing in its size hint; more polls than bytes left are enough.
pub drain_complete :
    (fuel : ℕ) (body : DownloadBody)
    → body.offset ≤ length body.stored.bytes
    → size_hint body < fuel
    → ((drain fuel body).0 ≡ drop body.offset body.stored.bytes)
      × (is_end_stream (drain fuel body).1 ≡ true)
      × (size_hint (drain fuel body).1 ≡ 0)
drain_complete = drain_lem
