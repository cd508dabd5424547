-- ===== src/Listener/Stream.antt =====
-- dhcpkit/ipv6/server/listeners/tcp.py: TCPConnection, which cuts the bytes of a connection into messages.
pub mod Frames
use dhcpkit.Prelude.{
  ℕ, ◌+◌, ◌*◌, ◌-◌, Bool, Option, none, some, List, [], ◌∷◌, ◌++◌, length, take, drop, ltb, leb,
  if◌then◌else◌,
}
use dhcpkit.Wire.{Bytes}

-- The buffer, and the bytes of the peer that the socket has not given yet.
pub record Connection : Type 0 where
  pub buffer : Bytes
  pub pending : Bytes

-- ClosedListener, IncompleteMessage, or the data of a packet.
pub data Turn : Type 0 where
  closed incomplete : Turn
  message : Bytes → Turn

-- connected_socket.recv: for an amount, the bytes that it gives and those that are left.
abbrev pub Socket : Type 0
Socket = ℕ → Bytes → Bytes × Bytes

abbrev pub added : Bytes → Bytes × Bytes → Option Connection
added buffer ([], left) = none
added buffer (c ∷ cs, left) = some (record { buffer = buffer ++ (c ∷ cs); pending = left })

-- recv_data_into_buffer; none for ClosedListener
unfoldable pub recv_data_into_buffer : Socket → ℕ → Connection → Option Connection
recv_data_into_buffer recv amount c = added c.buffer (recv amount c.pending)

-- unpack_from('!H', self.buffer)[0], for a buffer of at least two bytes
abbrev pub message_length : Bytes → ℕ
message_length (a ∷ b ∷ _) = a * 256 + b
message_length _ = 0

-- packet_from_buffer
abbrev pub packet_from_buffer : Connection → Turn × Connection
packet_from_buffer c = (
  message (take (message_length c.buffer) (drop 2 c.buffer)),
  record c { buffer = drop (2 + message_length c.buffer) c.buffer },
)

-- Whether there is a complete message, once the length is there.
abbrev pub finish : Connection → Turn × Connection
finish c =
    if leb (message_length c.buffer) (length c.buffer - 2)
    then packet_from_buffer c
    else (incomplete, c)

-- recv_request from where the length may be in the buffer.
unfoldable pub recv_message : Socket → Connection → Turn × Connection
unfolding recv_data_into_buffer
recv_message recv c =
    let remaining_data = message_length c.buffer - (length c.buffer - 2) in
    if ltb (length c.buffer) 2
    then (incomplete, c)
    else if ltb 0 remaining_data
    then elim (recv_data_into_buffer recv remaining_data c) [
      | none ↦ (closed, c)
      | some d ↦ finish d
    ]
    else finish c

-- recv_request
unfoldable pub recv_request : Socket → Connection → Turn × Connection
unfolding recv_data_into_buffer recv_message
recv_request recv c =
    if ltb (length c.buffer) 2
    then elim (recv_data_into_buffer recv (2 - length c.buffer) c) [
      | none ↦ (closed, c)
      | some d ↦ recv_message recv d
    ]
    else recv_message recv c
