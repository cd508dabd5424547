-- ===== src/Listener/Stream/Frames.antt =====
-- dhcpkit/ipv6/server/listeners/tcp.py: no byte of a connection is lost between the messages.
use dhcpkit.Prelude.{
  ℕ, ◌≡◌, refl, sym, ap, ◌∙◌, ◌++◌, [], ◌∷◌, zero, suc, take, drop, length, length-take,
  length-append, subst, ◌≤◌, drop-drop, ltb, leb, Bool-cases, inl, inr, append_assoc, Option, none,
  some, arith, false, ◌<◌, ◌+◌, ◌*◌, ◌-◌,
}
use dhcpkit.Wire.{Bytes}
use dhcpkit.Listener.Stream.{
  Connection, Turn, closed, incomplete, message, Socket, added, recv_data_into_buffer,
  message_length, finish, recv_message, recv_request,
}

-- What the peer sent and is not part of a message yet.
abbrev pub stream : Connection → Bytes
stream c = c.buffer ++ c.pending

-- A socket gives the bytes in their order.
abbrev pub InOrder : Socket → Type 0
InOrder recv = (n : ℕ) (p : Bytes) → (recv n p).0 ++ (recv n p).1 ≡ p

-- A message is the first frame of the stream, and without one the stream stays as it is.
abbrev pub Cuts : Bytes → Turn × Connection → Type 0
Cuts s (message bytes, c) =
    (a : ℕ) × (b : ℕ) × (s ≡ a ∷ b ∷ (bytes ++ stream c)) × (length bytes ≡ a * 256 + b)
Cuts s (incomplete, c) = (s ≡ stream c) × (length c.buffer < 2 + message_length c.buffer)
Cuts s (closed, c) = s ≡ stream c

take-append-drop : (n : ℕ) (xs rest : Bytes) → take n xs ++ (drop n xs ++ rest) ≡ xs ++ rest
take-append-drop zero xs rest = refl
take-append-drop (suc n) [] rest = refl
take-append-drop (suc n) (x ∷ xs) rest = ap (λ t. x ∷ t) (take-append-drop n xs rest)

finish-Cuts :
    (buffer pending : Bytes)
    → ltb (length buffer) 2 ≡ false
    → Cuts (buffer ++ pending) (finish (record { buffer = buffer; pending = pending }))
finish-Cuts [] pending h = ground arith
finish-Cuts (a ∷ []) pending h = ground arith
finish-Cuts (a ∷ b ∷ rest) pending h =
    elim (Bool-cases (leb (a * 256 + b) (length (a ∷ b ∷ rest) - 2))) [
      | inl e ↦ rw e (
        a,
        b,
        ap (λ t. a ∷ b ∷ t)
            (sym (take-append-drop (a * 256 + b) rest pending)
              ∙ ap (λ t. take (a * 256 + b) rest ++ (t ++ pending))
                  (drop-drop 2 (a * 256 + b) (a ∷ b ∷ rest))),
        ground (arith, length-take (a * 256 + b) rest, e),
      )
      | inr e ↦ rw e (refl, ground (arith, e))
    ]

added-stream :
    (buffer : Bytes) (got : Bytes × Bytes) (d : Connection)
    → added buffer got ≡ some d
    → stream d ≡ buffer ++ (got.0 ++ got.1)
added-stream buffer ([], left) d e = cc
added-stream buffer (c ∷ cs, left) d e =
    let same : record { buffer = buffer ++ (c ∷ cs); pending = left } ≡ d = cc in
    ap stream (sym same) ∙ append_assoc buffer (c ∷ cs) left

recv-stream :
    (recv : Socket) (n : ℕ) (c d : Connection)
    → InOrder recv
    → recv_data_into_buffer recv n c ≡ some d
    → stream c ≡ stream d
unfolding recv_data_into_buffer
recv-stream recv n c d in_order e =
    sym (
      added-stream c.buffer (recv n c.pending) d e ∙ ap (λ t. c.buffer ++ t) (in_order n c.pending))

added-longer :
    (buffer : Bytes) (got : Bytes × Bytes) (d : Connection)
    → added buffer got ≡ some d
    → length buffer ≤ length d.buffer
added-longer buffer ([], left) d e = cc
added-longer buffer (c ∷ cs, left) d e =
    let same : record { buffer = buffer ++ (c ∷ cs); pending = left } ≡ d = cc in
    subst (λ x. length buffer ≤ length x.buffer) same (omega (arith, length-append buffer (c ∷ cs)))

recv-longer :
    (recv : Socket) (n : ℕ) (c d : Connection)
    → recv_data_into_buffer recv n c ≡ some d
    → length c.buffer ≤ length d.buffer
unfolding recv_data_into_buffer
recv-longer recv n c d e = added-longer c.buffer (recv n c.pending) d e

-- With what the socket gives, the next step goes on, and without it the connection ends.
received-Cuts :
    (o : Option Connection) (c : Connection) (next : Connection → Turn × Connection)
    → ((d : Connection) → o ≡ some d → Cuts (stream c) (next d))
    → Cuts (stream c) (elim o [ none ↦ (closed, c) | some d ↦ next d ])
received-Cuts none c next h = refl
received-Cuts (some d) c next h = h d refl

recv_message-Cuts :
    (recv : Socket) (c : Connection) → InOrder recv → Cuts (stream c) (recv_message recv c)
unfolding recv_message
recv_message-Cuts recv c in_order =
    let missing = message_length c.buffer - (length c.buffer - 2) in
    elim (Bool-cases (ltb (length c.buffer) 2)) [
      | inl short ↦ rw short (refl, ground (arith, short))
      | inr full ↦ elim (Bool-cases (ltb 0 missing)) [
        | inl more ↦
            rw (full, more)
              (received-Cuts (recv_data_into_buffer recv missing c) c finish (λ d e.
                subst (λ s. Cuts s (finish d)) (sym (recv-stream recv missing c d in_order e))
                  (finish-Cuts d.buffer d.pending
                    (ground (arith, full, recv-longer recv missing c d e)))))
        | inr enough ↦ rw (full, enough) (finish-Cuts c.buffer c.pending full)
      ]
    ]

-- For a socket that gives the bytes of the peer in their order, in pieces of any size, recv_request
-- on a connection: where it returns a message, the bytes of the buffer and those under way were the
-- two bytes of its length, the message, of that length, and the bytes of the buffer and under way
-- after it; where it raises IncompleteMessage they are the same as before and the buffer is shorter
-- than its two bytes of length and the message; where it raises ClosedListener they are the same as
-- before.
pub recv_request-Cuts :
    (recv : Socket) (c : Connection) → InOrder recv → Cuts (stream c) (recv_request recv c)
unfolding recv_request
recv_request-Cuts recv c in_order =
    let missing = 2 - length c.buffer in
    elim (Bool-cases (ltb (length c.buffer) 2)) [
      | inl short ↦ rw short (
          received-Cuts (recv_data_into_buffer recv missing c) c (recv_message recv) (λ d e.
            subst (λ s. Cuts s (recv_message recv d))
              (sym (recv-stream recv missing c d in_order e)) (recv_message-Cuts recv d in_order)))
      | inr full ↦
          let known = recv_message-Cuts recv c in_order in
          rw full (rw (recv_message, full) at known)
    ]
