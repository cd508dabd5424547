-- ===== src/Listener.antt =====
-- dhcpkit/ipv6/server/listeners/udp.py and tcp.py: what send_reply puts on the wire.
pub mod Destination
pub mod Stream
use dhcpkit.Prelude.{ℕ, ◌≡◌, Option, none, some, List, [], ◌∷◌, ◌++◌, length}
use dhcpkit.Wire.{Bytes, Result, ok, u16, pack, ◌>>=◌}
use dhcpkit.Address.{Address}
use dhcpkit.Element.{Message, unknown_message, client_server, relay_server, relay_reply}
use dhcpkit.Element.Save.{save_message}
use dhcpkit.Relay.{relayed_message}

-- SERVER_PORT and CLIENT_PORT
abbrev pub server_port : ℕ
server_port = 547

abbrev pub client_port : ℕ
client_port = 546

-- The destination without the index of the interface, which the operating system knows.
pub record Datagram : Type 0 where
  pub destination : Address
  pub port : ℕ
  pub payload : Bytes

abbrev pub port_for : Message → ℕ
port_for (relay_server relay_reply h l p os) = server_port
port_for _ = client_port

abbrev pub datagram_of : Address → Message → Result Datagram
datagram_of peer reply = do
  data_saved ← save_message reply
  ok (record { destination = peer; port = port_for reply; payload = data_saved })

-- UDPReplier.send_reply up to sendto; none where the code asks None for its attributes.
unfoldable pub udp_datagram : Message → Option (Result Datagram)
unfolding relayed_message
udp_datagram (relay_server c h l p os) = elim (relayed_message (relay_server c h l p os)) [
  | none ↦ none
  | some reply ↦ some (datagram_of p reply)
]
udp_datagram _ = none

abbrev pub framed : Message → Result Bytes
framed reply = do
  message_data ← save_message reply
  size ← pack (u16 (length message_data) ∷ [])
  ok (size ++ message_data)

-- TCPReplier.send_reply up to sendall.
unfoldable pub tcp_frame : Message → Option (Result Bytes)
unfolding relayed_message
tcp_frame m = elim (relayed_message m) [ none ↦ none | some reply ↦ some (framed reply) ]
