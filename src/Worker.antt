-- ===== src/Worker.antt =====
-- dhcpkit/ipv6/server/worker.py and dhcpkit/ipv6/server/listeners/__init__.py: from a received packet to
-- the messages that its replier is given.
pub mod Receiving
pub mod Answering
use dhcpkit.Server.{Working, MessageHandler, handle}
use dhcpkit.Handler.{Outcome, done, raised}
use dhcpkit.Statistics.Selection.{ServerStatistics, get_update_set}
use dhcpkit.Statistics.{
  StatisticsSet, count_each, count_incoming_packet, count_unparsable_packet, count_outgoing_packet,
  count_handling_error,
}
use dhcpkit.Prelude.{ℕ, ◌+◌, Bool, true, false, Option, none, some, List, [], ◌∷◌, if◌then◌else◌}
use dhcpkit.Wire.{Bytes, Result, ok, err, value_error, ◌>>=◌}
use dhcpkit.Address.{Address}
use mathlib.Core.Option
use dhcpkit.Leaf
use dhcpkit.Utf8.{Text}
use dhcpkit.Element.{
  Options, nil, cons, relay_message, Message, unknown_message, client_server, relay_server,
  relay_forward, relay_reply, leaf,
}
use dhcpkit.Element.Access.{join}
use dhcpkit.Element.Parse.{parse}
use dhcpkit.Element.Validate.{validate_message}
use dhcpkit.Relay.{relayed_message}
use dhcpkit.Bundle.{Bundle, new_bundle, has_mark, outgoing_messages}

-- IncomingPacketBundle, without what only the log and the replier use.
pub record IncomingPacketBundle : Type 0 where
  pub data_received : Bytes
  pub source_address : Address
  pub link_address : Address
  pub received_over_multicast : Bool
  pub received_over_tcp : Bool
  pub packet_marks : List Text
  pub relay_options : Options

abbrev pub next_hop_count : Message → ℕ
next_hop_count (relay_server relay_forward h l p os) = h + 1
next_hop_count _ = 0

-- The internal relay message around the received message.
unfoldable pub wrap_incoming : IncomingPacketBundle → Message → Message
unfolding join
wrap_incoming p m =
    relay_server relay_forward (next_hop_count m) p.link_address p.source_address
      (join p.relay_options (cons (relay_message m) nil))

-- set(marks)
abbrev pub mark_set : List Text → List Text
mark_set [] = []
mark_set (m ∷ ms) = if has_mark m ms then mark_set ms else m ∷ mark_set ms

-- parse_incoming_request
unfoldable pub parse_incoming_request : IncomingPacketBundle → Result Bundle
unfolding parse new_bundle wrap_incoming
parse_incoming_request p = do
  parsed ← parse p.data_received none
  valid ← validate_message parsed.1
  b ← new_bundle (wrap_incoming p parsed.1) p.received_over_multicast p.received_over_tcp false
  ok (record b { marks = mark_set p.packet_marks })

abbrev is_present : Option Message → Bool
is_present none = false
is_present (some m) = true

-- verify_response
unfoldable pub verify_response : Message → Result (Unit {0})
unfolding relayed_message
verify_response (relay_server relay_reply h l p os) =
    if is_present (relayed_message (relay_server relay_reply h l p os))
    then ok tt
    else err value_error
verify_response _ = err value_error

-- get_interface_name_from_options, with data.decode('utf-8', errors='replace') as `decode_replacing`.
unfoldable pub get_interface_name_from_options : (Bytes → Text) → Options → Text
get_interface_name_from_options decode_replacing nil = 117 ∷ 110 ∷ 107 ∷ 110 ∷ 111 ∷ 119 ∷ 110 ∷ []
get_interface_name_from_options decode_replacing (cons (leaf (Leaf.interface_id i)) os) =
    decode_replacing i
get_interface_name_from_options decode_replacing (cons _ os) =
    get_interface_name_from_options decode_replacing os

-- What handle_message does: the messages that are given to the replier, and the statistics.
abbrev pub Handled : Type 0
Handled = List Message × StatisticsSet

-- A ValueError of the replier is caught, and other exceptions are not.
abbrev pub stops : Result (Unit {0}) → Bool
stops (ok _) = false
stops (err value_error) = false
stops (err _) = true

-- The loop over the outgoing messages in handle_message.
unfoldable pub send_replies : (Message → Result (Unit {0})) → List Message → StatisticsSet → Handled
unfolding verify_response count_each count_outgoing_packet count_handling_error
send_replies send_reply [] s = ([], s)
send_replies send_reply (m ∷ ms) s =
    let rest = send_replies send_reply ms (count_each count_outgoing_packet s) in
    elim (verify_response m) [
      | err e ↦ ([], count_each count_handling_error s)
      | ok u ↦
          if stops (send_reply m)
          then (m ∷ [], count_each count_handling_error (count_each count_outgoing_packet s))
          else (m ∷ rest.0, rest.1)
    ]

unfoldable pub send_outcome : (Message → Result (Unit {0})) → Outcome Working → Handled
unfolding send_replies outgoing_messages count_each count_handling_error
send_outcome send_reply (done (b, s)) = send_replies send_reply (outgoing_messages b) s
send_outcome send_reply (raised e (b, s)) = ([], count_each count_handling_error s)

-- handle_message from the parsed packet. An exception of get_update_set leaves it.
unfoldable pub handle_parsed :
    MessageHandler
    → ServerStatistics
    → Text
    → (Message → Result (Unit {0}))
    → Result Bundle
    → Option Handled
unfolding get_update_set handle send_outcome count_each count_incoming_packet
    count_unparsable_packet
handle_parsed h stats name send_reply (err e) =
    Option.map (λ s. ([], count_each count_unparsable_packet (count_each count_incoming_packet s)))
      (get_update_set stats name none)
handle_parsed h stats name send_reply (ok b) =
    Option.map (λ s. send_outcome send_reply (handle h b (count_each count_incoming_packet s)))
      (get_update_set stats name (some b))

-- handle_message
unfoldable pub handle_message :
    (Bytes → Text)
    → MessageHandler
    → ServerStatistics
    → IncomingPacketBundle
    → (Message → Result (Unit {0}))
    → Option Handled
unfolding get_interface_name_from_options parse_incoming_request handle_parsed
handle_message decode_replacing h stats p send_reply =
    handle_parsed h stats (get_interface_name_from_options decode_replacing p.relay_options)
      send_reply (parse_incoming_request p)
