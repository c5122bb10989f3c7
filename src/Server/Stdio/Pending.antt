-- ===== src/Server/Stdio/Pending.antt =====
-- crates/komodo-server/src/stdio.rs: the bounds of a transport.
use mcp_komodo_rs.Prelude.{
  ℕ, ◌≤◌, ◌+◌, ◌≡◌, refl, Bool, false, not, ◌||◌, leb, Option, some, none, List, [], ◌∷◌, ◌++◌,
  length, any, retain, arith, Bool-cases, inl, inr, length-append, length-retain-le,
}
use mcp_komodo_rs.Server.Stdio.Transport.{
  max_frame_bytes, max_pending_requests, Read, BoundedStdio, remaining, closing, buffered, is_frame,
  enqueue, accept, receive, answered, remove, send, Step, interrupted, received, sent, closed,
  Reach, start, later, ServerMessage, Sent, written, encoding_failed, timed_out, write_failed,
}

module _ {RequestId ClientMessage : Type 0} (same : RequestId → RequestId → Bool)
    (decode : List ℕ → Option ClientMessage) (request_id : ClientMessage → Option RequestId) where
  -- No id is there twice.
  abbrev pub IsDistinct : List RequestId → Type 0
  IsDistinct [] = Unit
  IsDistinct (id ∷ ids) = (any (λ other. same other id) ids ≡ false) × IsDistinct ids

  -- What a transport keeps to.
  pub record IsBounded (s : BoundedStdio RequestId) : Type 0 where
    pub frame : length s.line ≤ max_frame_bytes + 1
    pub few : length s.pending ≤ max_pending_requests
    pub distinct : IsDistinct s.pending

  any-append-false :
      (p : RequestId → Bool) (ids : List RequestId) (id : RequestId)
      → any p ids ≡ false
      → p id ≡ false
      → any p (ids ++ id ∷ []) ≡ false
  any-append-false p [] id h last = ground arith
  any-append-false p (x ∷ ids) id h last = ground (arith, any-append-false p ids id)

  any-retain-false :
      (p q : RequestId → Bool) (ids : List RequestId)
      → any p ids ≡ false
      → any p (retain q ids) ≡ false
  any-retain-false p q [] h = refl
  any-retain-false p q (x ∷ ids) h = ground (arith, any-retain-false p q ids)

  IsDistinct-append :
      (ids : List RequestId) (id : RequestId)
      → IsDistinct ids
      → any (same id) ids ≡ false
      → IsDistinct (ids ++ id ∷ [])
  IsDistinct-append [] id d fresh = (refl, tt)
  IsDistinct-append (x ∷ ids) id d fresh = (
    any-append-false (λ other. same other x) ids id d.0 (ground arith),
    IsDistinct-append ids id d.1 (ground arith),
  )

  IsDistinct-retain :
      (q : RequestId → Bool) (ids : List RequestId) → IsDistinct ids → IsDistinct (retain q ids)
  IsDistinct-retain q [] d = tt
  IsDistinct-retain q (x ∷ ids) d = elim (Bool-cases (q x)) [
    | inl kept ↦
        rw kept (any-retain-false (λ other. same other x) q ids d.0, IsDistinct-retain q ids d.1)
    | inr dropped ↦ rw dropped (IsDistinct-retain q ids d.1)
  ]

  buffered-IsBounded :
      (bytes : List ℕ) (s : BoundedStdio RequestId)
      → IsBounded s
      → length bytes ≤ remaining s
      → IsBounded (buffered bytes s)
  buffered-IsBounded bytes s b fits = record {
    frame = omega (arith, length-append s.line bytes, b.frame, fits);
    few = b.few;
    distinct = b.distinct;
  }

  closing-IsBounded : (s : BoundedStdio RequestId) → IsBounded s → IsBounded (closing s)
  closing-IsBounded s b = record { frame = b.frame; few = b.few; distinct = b.distinct }

  enqueue-IsBounded :
      (message : ClientMessage) (id : Option RequestId) (s : BoundedStdio RequestId)
      → IsBounded s
      → IsBounded (enqueue same decode request_id message id s).1
  unfolding enqueue
  enqueue-IsBounded message none s b = b
  enqueue-IsBounded message (some id) s b =
      elim (Bool-cases (leb max_pending_requests (length s.pending) || any (same id) s.pending)) [
        | inl refused ↦ rw refused (closing-IsBounded s b)
        | inr room ↦ rw room (record {
          frame = b.frame;
          few = ground (arith, length-append s.pending (id ∷ []));
          distinct = IsDistinct-append s.pending id b.distinct (ground arith);
        })
      ]

  accept-IsBounded :
      (message : Option ClientMessage) (s : BoundedStdio RequestId)
      → IsBounded s
      → IsBounded (accept same decode request_id message s).1
  unfolding accept
  accept-IsBounded none s b = closing-IsBounded s b
  accept-IsBounded (some message) s b = enqueue-IsBounded message (request_id message) s b

  receive-IsBounded :
      (read : Read) (s : BoundedStdio RequestId)
      → IsBounded s
      → length read.bytes ≤ remaining s
      → IsBounded (receive same decode request_id read s).1
  unfolding receive
  receive-IsBounded read s b fits = elim (Bool-cases s.closed) [
    | inl shut ↦ rw shut (closing-IsBounded s b)
    | inr live ↦ elim (Bool-cases (is_frame read (s.line ++ read.bytes))) [
      | inl good ↦
          rw (live, good)
            (accept-IsBounded (decode (s.line ++ read.bytes))
              (record { line = []; pending = s.pending; closed = false })
              (record { frame = omega arith; few = b.few; distinct = b.distinct }))
      | inr bad ↦ rw (live, bad) (closing-IsBounded _ (buffered-IsBounded read.bytes s b fits))
    ]
  ]

  remove-IsBounded :
      (id : Option RequestId) (s : BoundedStdio RequestId)
      → IsBounded s
      → IsBounded (remove same decode request_id id s)
  unfolding remove
  remove-IsBounded none s b = b
  remove-IsBounded (some id) s b = record {
    frame = b.frame;
    few = omega (arith, length-retain-le (λ entry. not (same id entry)) s.pending, b.few);
    distinct = IsDistinct-retain (λ entry. not (same id entry)) s.pending b.distinct;
  }

  send-IsBounded :
      (message : ServerMessage RequestId) (outcome : Sent) (s : BoundedStdio RequestId)
      → IsBounded s
      → IsBounded (send same decode request_id message outcome s).1
  unfolding send
  send-IsBounded message written s b =
      remove-IsBounded (answered same decode request_id message) s b
  send-IsBounded message encoding_failed s b = b
  send-IsBounded message timed_out s b = b
  send-IsBounded message write_failed s b = b

  step-IsBounded :
      (s t : BoundedStdio RequestId) → IsBounded s → Step same decode request_id s t → IsBounded t
  step-IsBounded s t b (interrupted bytes live fits) = buffered-IsBounded bytes s b fits
  step-IsBounded s t b (received read fits) = receive-IsBounded read s b fits
  step-IsBounded s t b (sent message outcome) = send-IsBounded message outcome s b
  step-IsBounded s t b closed = closing-IsBounded s b

  -- Whatever is read, cancelled, received, sent and closed, a transport keeps at most 65,537 bytes of
  -- its input in its line, so that the bytes it may still read are not negative, and at most 32 pending requests, no
  -- two of which have the same id.
  pub reach-IsBounded : (s : BoundedStdio RequestId) → Reach same decode request_id s → IsBounded s
  reach-IsBounded s start = record { frame = omega arith; few = omega arith; distinct = tt }
  reach-IsBounded t (later {s} reached step) = step-IsBounded s t (reach-IsBounded s reached) step
