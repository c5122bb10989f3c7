-- ===== src/Server/Stdio/Examples.antt =====
-- crates/komodo-server/src/stdio.rs: the transport on concrete input.
use mcp_komodo_rs.Prelude.{
  ℕ, zero, suc, ◌≡◌, refl, Bool, true, false, ◌==◌, Option, some, none, List, [], ◌∷◌, leb→le,
}
use mcp_komodo_rs.Server.Stdio.Transport.{
  Read, BoundedStdio, new, ends_with_newline, is_frame, enqueue, accept, receive, remove, send,
  Reach, start, later, interrupted, received, sent, response, written,
}
use mcp_komodo_rs.Server.Stdio.Frames.{IsReceived, receive_sound, receive_complete}
use mcp_komodo_rs.Server.Stdio.Pending.{IsBounded, reach-IsBounded}

-- The message of a line is its first byte: a request with this id, unless it is 0.
abbrev decode : List ℕ → Option ℕ
decode [] = none
decode (b ∷ bs) = some b

abbrev request_id : ℕ → Option ℕ
request_id zero = none
request_id (suc n) = some (suc n)

abbrev same : ℕ → ℕ → Bool
same a b = a == b

abbrev partly_read : BoundedStdio ℕ
partly_read = record { line = 7 ∷ []; pending = []; closed = false }

abbrev read_rest : Read
read_rest = record { bytes = 1 ∷ 10 ∷ []; fails = false }

abbrev one_pending : BoundedStdio ℕ
one_pending = record { line = []; pending = 7 ∷ []; closed = false }

receives : receive same decode request_id read_rest partly_read ≡ (some 7, one_pending)
unfolding receive accept enqueue is_frame ends_with_newline
receives = refl

receive_sound_example : IsReceived same decode request_id read_rest partly_read 7 one_pending
receive_sound_example =
    receive_sound same decode request_id read_rest partly_read one_pending 7 receives

receive_complete_example : (receive same decode request_id read_rest partly_read).0 ≡ some 7
unfolding ends_with_newline
receive_complete_example =
    receive_complete same decode request_id read_rest partly_read 7 refl refl refl refl
      (leb→le _ _ refl) refl (leb→le _ _ refl, refl)

-- A second request with the same id closes the transport.
duplicate :
    receive same decode request_id (record { bytes = 7 ∷ 10 ∷ []; fails = false }) one_pending
    ≡ (none, record one_pending { closed = true })
unfolding receive accept enqueue is_frame ends_with_newline
duplicate = refl

abbrev answering : BoundedStdio ℕ
answering =
    (send same decode request_id (response 7) written
      (receive same decode request_id read_rest partly_read).1).1

answers : answering ≡ new
unfolding receive accept enqueue is_frame ends_with_newline send remove
answers = refl

-- A read is cancelled, goes on, and the request is answered.
reached : Reach same decode request_id answering
reached =
    later
      (later (later start (interrupted (7 ∷ []) refl (leb→le _ _ refl)))
        (received read_rest (leb→le _ _ refl)))
      (sent (response 7) written)

reach-IsBounded_example : IsBounded same decode request_id answering
reach-IsBounded_example = reach-IsBounded same decode request_id answering reached
