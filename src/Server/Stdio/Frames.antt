-- ===== src/Server/Stdio/Frames.antt =====
-- crates/komodo-server/src/stdio.rs: which messages are received.
use mcp_komodo_rs.Prelude.{
  ℕ, ◌≤◌, ◌<◌, ◌≡◌, refl, ap, subst, ◌∙◌, Bool, true, false, ◌||◌, leb, Option, some, none, List,
  [], ◌∷◌, ◌++◌, length, any, is_empty, arith, Bool-cases, Option-cases, inl, inr,
}
use mcp_komodo_rs.Server.Stdio.Transport.{
  max_frame_bytes, max_pending_requests, ends_with_newline, Read, BoundedStdio, is_frame, enqueue,
  accept, receive,
}

module _ {RequestId ClientMessage : Type 0} (same : RequestId → RequestId → Bool)
    (decode : List ℕ → Option ClientMessage) (request_id : ClientMessage → Option RequestId) where
  -- The pending requests, before and after a message with this id.
  abbrev pub IsEnqueued : Option RequestId → List RequestId → List RequestId → Type 0
  IsEnqueued none before after = after ≡ before
  IsEnqueued (some id) before after =
      (length before < max_pending_requests)
      × (any (same id) before ≡ false)
      × (after ≡ before ++ id ∷ [])

  -- What a message that is received shows.
  pub record IsReceived (read : Read) (s : BoundedStdio RequestId) (message : ClientMessage)
      (t : BoundedStdio RequestId) : Type 0 where
    pub open_before : s.closed ≡ false
    pub framed : ends_with_newline (s.line ++ read.bytes) ≡ true
    pub bounded : length (s.line ++ read.bytes) ≤ max_frame_bytes
    pub decoded : decode (s.line ++ read.bytes) ≡ some message
    pub emptied : t.line ≡ []
    pub open_after : t.closed ≡ false
    pub enqueued : IsEnqueued (request_id message) s.pending t.pending

  enqueue_lem :
      (message : ClientMessage) (id : Option RequestId) (s : BoundedStdio RequestId)
      (got : ClientMessage) (t : BoundedStdio RequestId)
      → enqueue same decode request_id message id s ≡ (some got, t)
      → (message ≡ got)
        × (t.line ≡ s.line)
        × (t.closed ≡ s.closed)
        × IsEnqueued id s.pending t.pending
  unfolding enqueue
  enqueue_lem message none s got t h = (cc h, cc h, cc h, cc h)
  enqueue_lem message (some id) s got t h =
      elim (Bool-cases (leb max_pending_requests (length s.pending) || any (same id) s.pending)) [
        | inl refused ↦ absurd (cc (rw refused at h))
        | inr room ↦
            let h' = rw room at h in (cc h', cc h', cc h', (ground arith, ground arith, cc h'))
      ]

  -- A message is received only from a transport that is open, as what the whole line decodes to, which
  -- ends with a newline and has at most 65,536 bytes. The line is then empty, and a request joins the
  -- pending ones, which are fewer than 32 and do not have its id.
  pub receive_sound :
      (read : Read) (s t : BoundedStdio RequestId) (message : ClientMessage)
      → receive same decode request_id read s ≡ (some message, t)
      → IsReceived read s message t
  unfolding receive accept is_frame
  receive_sound read s t message h = elim (Bool-cases s.closed) [
    | inl shut ↦ absurd (cc (rw shut at h))
    | inr live ↦ elim (Bool-cases (is_frame read (s.line ++ read.bytes))) [
      | inr bad ↦ absurd (cc (rw (live, bad) at h))
      | inl good ↦ elim (Option-cases (decode (s.line ++ read.bytes))) [
        | inl malformed ↦ absurd (cc (rw (live, good, malformed) at h))
        | inr (got, decoded) ↦
            let (e, line, closed, enqueued) =
              enqueue_lem got (request_id got)
                (record { line = []; pending = s.pending; closed = false }) message t
                (rw (live, good, decoded) at h) in
            record {
              open_before = live;
              framed = ground arith;
              bounded = ground arith;
              decoded = decoded ∙ ap some e;
              emptied = line;
              open_after = closed;
              enqueued = subst (λ m. IsEnqueued (request_id m) s.pending t.pending) e enqueued;
            }
      ]
    ]
  ]

  -- Whether a message with this id finds room.
  abbrev pub HasRoom : Option RequestId → List RequestId → Type 0
  HasRoom none pending = Unit
  HasRoom (some id) pending =
      (length pending < max_pending_requests) × (any (same id) pending ≡ false)

  enqueue_complete :
      (message : ClientMessage) (id : Option RequestId) (s : BoundedStdio RequestId)
      → HasRoom id s.pending
      → (enqueue same decode request_id message id s).0 ≡ some message
  unfolding enqueue
  enqueue_complete message none s room = refl
  enqueue_complete message (some id) s (few, fresh) =
      let many : leb max_pending_requests (length s.pending) ≡ false = ground arith in
      rw (many, fresh) refl

  -- A read that completes a line of at most 65,536 bytes which decodes is received as that message by
  -- an open transport: always, if it is no request, and if fewer than 32 requests are pending, none of
  -- which has its id, if it is one.
  pub receive_complete :
      (read : Read) (s : BoundedStdio RequestId) (message : ClientMessage)
      → s.closed ≡ false
      → read.fails ≡ false
      → is_empty read.bytes ≡ false
      → ends_with_newline (s.line ++ read.bytes) ≡ true
      → length (s.line ++ read.bytes) ≤ max_frame_bytes
      → decode (s.line ++ read.bytes) ≡ some message
      → HasRoom (request_id message) s.pending
      → (receive same decode request_id read s).0 ≡ some message
  unfolding receive accept is_frame
  receive_complete read s message live succeeds more framed bounded decoded room =
      let small : leb (length (s.line ++ read.bytes)) max_frame_bytes ≡ true = ground arith in
      rw (live, succeeds, more, framed, small, decoded)
        (enqueue_complete message (request_id message)
          (record { line = []; pending = s.pending; closed = false }) room)
