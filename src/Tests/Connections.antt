-- ===== src/Tests/Connections.antt =====
-- A connection over TCP.
use dhcpkit.Prelude.{ap, refl, zero, suc, [], ◌∷◌, take, drop}
use dhcpkit.Listener.Stream.{Connection, Socket, recv_request}
use dhcpkit.Listener.Stream.Frames.{InOrder, Cuts, stream, recv_request-Cuts}

abbrev full_socket : Socket
full_socket n p = (take n p, drop n p)

full_socket-InOrder : InOrder full_socket
full_socket-InOrder zero p = refl
full_socket-InOrder (suc n) [] = refl
full_socket-InOrder (suc n) (x ∷ xs) = ap (λ t. x ∷ t) (full_socket-InOrder n xs)

-- Half of the length is in the buffer, and more than a message is under way.
abbrev connection : Connection
connection = record { buffer = 0 ∷ []; pending = 2 ∷ 7 ∷ 8 ∷ 0 ∷ [] }

recv_request-Cuts_example : Cuts (stream connection) (recv_request full_socket connection)
recv_request-Cuts_example = recv_request-Cuts full_socket connection full_socket-InOrder
