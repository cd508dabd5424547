-- ===== src/Listener/Destination.antt =====
-- dhcpkit/ipv6/server/listeners/udp.py: a reply goes back to the sender of the packet.
use dhcpkit.Prelude.{◌≡◌, refl, sym, ap, subst, ◌∙◌, some, List, [], ◌∷◌, ◌++◌, ℕ}
use dhcpkit.Wire.{Bytes, ok, ◌>>=◌}
use dhcpkit.Element.{
  Message, unknown_message, client_server, relay_server, relay_forward, relay_reply,
}
use dhcpkit.Element.Save.{save_message}
use dhcpkit.Relay.{relayed_message}
use dhcpkit.Server.Answers.{IsAnswer, IsMirror}
use dhcpkit.Server.Sending.{Delivers, Wraps}
use dhcpkit.Worker.{IncomingPacketBundle, wrap_incoming}
use dhcpkit.Listener.{udp_datagram, server_port, client_port, port_for, datagram_of}

-- The port of a client, or of a server where there are relay messages.
abbrev pub port_behind : List Message → ℕ
port_behind [] = client_port
port_behind (r ∷ rs) = server_port

IsMirror-port : (i o : Message) → IsMirror i o → port_for o ≡ server_port
IsMirror-port (relay_server relay_forward h l p os) (relay_server relay_reply k m q ps) f = refl
IsMirror-port (relay_server relay_forward h l p os) (relay_server relay_forward k m q ps) f =
    absurd f
IsMirror-port (relay_server relay_forward h l p os) (client_server c i ps) f = absurd f
IsMirror-port (relay_server relay_forward h l p os) (unknown_message t d) f = absurd f
IsMirror-port (relay_server relay_reply h l p os) o f = absurd f
IsMirror-port (client_server c i os) o f = absurd f
IsMirror-port (unknown_message t d) o f = absurd f

IsAnswer-port :
    (transaction : Bytes) (a : Message) → IsAnswer transaction a → port_for a ≡ client_port
IsAnswer-port t (client_server c i os) h = refl
IsAnswer-port t (relay_server c h l p os) k = absurd k
IsAnswer-port t (unknown_message k d) h = absurd h

-- The outermost reply, with the message in it behind at least one relay message.
Wraps-behind :
    (inner : Message) (rs : List Message) (w sent : Message)
    → port_for inner ≡ server_port
    → Wraps inner (rs ++ (w ∷ [])) sent
    → (reply : Message) × IsMirror w sent
      × (relayed_message sent ≡ some reply)
      × (port_for reply ≡ server_port)
Wraps-behind inner [] w sent h (o, f, e, same) =
    (inner, subst (IsMirror w) same f, ap relayed_message (sym same) ∙ e, h)
Wraps-behind inner (r ∷ rs) w sent h (o, f, e, more) =
    Wraps-behind o rs w sent (IsMirror-port r o f) more

-- The outermost reply, and the port for the message in it.
Wraps-outermost :
    (inner : Message) (rs : List Message) (w sent : Message)
    → port_for inner ≡ client_port
    → Wraps inner (rs ++ (w ∷ [])) sent
    → (reply : Message) × IsMirror w sent
      × (relayed_message sent ≡ some reply)
      × (port_for reply ≡ port_behind rs)
Wraps-outermost inner [] w sent h (o, f, e, same) =
    (inner, subst (IsMirror w) same f, ap relayed_message (sym same) ∙ e, h)
Wraps-outermost inner (r ∷ rs) w sent h (o, f, e, more) =
    Wraps-behind o rs w sent (IsMirror-port r o f) more

IsMirror-datagram :
    (p : IncomingPacketBundle) (m sent reply : Message)
    → IsMirror (wrap_incoming p m) sent
    → relayed_message sent ≡ some reply
    → udp_datagram sent ≡ some (datagram_of p.source_address reply)
unfolding wrap_incoming udp_datagram
IsMirror-datagram p m (relay_server relay_reply h l q os) reply (_, _, same) e =
    rw (udp_datagram, e) (ap (λ a. some (datagram_of a reply)) same)
IsMirror-datagram p m (relay_server relay_forward h l q os) reply f e = absurd f
IsMirror-datagram p m (client_server c i os) reply f e = absurd f
IsMirror-datagram p m (unknown_message t d) reply f e = absurd f

-- For a message in replies to given relay messages and to the one that the server wraps around the
-- message m of a packet, around an Advertise or a Reply: UDPReplier sends the saved bytes of the
-- message inside the outermost reply to the source address of the packet, to the port of servers
-- where there are such relay messages and to the port of clients where there are none, or raises
-- the exception of save.
pub udp_datagram-Delivers :
    (p : IncomingPacketBundle) (m sent : Message) (transaction : Bytes) (rs : List Message)
    → Delivers transaction (rs ++ (wrap_incoming p m ∷ [])) sent
    → (reply : Message) × (relayed_message sent ≡ some reply)
      × (udp_datagram sent
          ≡ some (
              save_message reply >>= λ d.
              ok (record { destination = p.source_address; port = port_behind rs; payload = d })))
udp_datagram-Delivers p m sent transaction rs (a, answer, wraps) =
    let (reply, mirror, relayed, behind) =
      Wraps-outermost a rs (wrap_incoming p m) sent (IsAnswer-port transaction a answer) wraps in
    (
      reply,
      relayed,
      IsMirror-datagram p m sent reply mirror relayed
          ∙ ap
              (λ n. some (
                save_message reply >>= λ d.
                ok (record { destination = p.source_address; port = n; payload = d })))
              behind,
    )
