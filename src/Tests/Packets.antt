-- ===== src/Tests/Packets.antt =====
-- A packet as a listener hands it over.
use dhcpkit.Listener.Destination.{udp_datagram-Delivers}
use dhcpkit.Listener.{udp_datagram}
use dhcpkit.Tests.Server.{server}
use dhcpkit.Worker.Answering.{handle_message-Delivers, count_outgoing}
use dhcpkit.Statistics.Selection.{ServerStatistics, get_update_set}
use dhcpkit.Server.Sending.{Delivers}
use dhcpkit.Handler.{done}
use dhcpkit.Server.{handle, transaction_of}
use dhcpkit.Statistics.{no_statistics, StatisticsSet, count_each, count_incoming_packet}
use dhcpkit.Server.Leftover.{unanswered_ia_pd_handler-Keeps}
use dhcpkit.Server.Optional.{preference_handler-Keeps, ignore_request_handler-Keeps}
use dhcpkit.Server.Answers.{Answers}
use dhcpkit.Handler.Ensures.{Keeps}
use dhcpkit.Server.Configured.{Configured}
use dhcpkit.Address.{is_unspecified, is_loopback, is_link_local, number_of}
use dhcpkit.Server.Refusals.{allowed}
use dhcpkit.Filter.{get_all_handlers, subnet_match, in_any_network, in_network}
use dhcpkit.Handler.Basic.{client_id_class, preference_handler}
use dhcpkit.Element.Access.{join, get_option_of_type, options_of}
use dhcpkit.Element.RoundTrip.{parse-save}
use dhcpkit.Duid.{save_duid}
use dhcpkit.Leaf.Save.{
  save_leaf, save_client_id, save_rapid_commit, save_status_code, save_option_request,
  save_elapsed_time,
}
use dhcpkit.Relay.{first_relayed, split_relay_chain, relayed_message}
use dhcpkit.Prelude.{◌≡◌, refl, true, false, some, none, [], ◌∷◌, ◌++◌, take, drop, All}
use dhcpkit.Wire.{ok, pack, pad, Result, ◌>>=◌}
use dhcpkit.Leaf
use dhcpkit.Element.{
  leaf, nil, cons, client_server_class, confirm, Message, relay_server, relay_reply, relay_message,
}
use dhcpkit.Element.Save.{save_message, save_client_server, save_ia_address, save_ia_na}
use dhcpkit.Bundle.{Bundle, new_bundle, link_address, first_useful, outgoing_messages, started}
use dhcpkit.Worker.{
  IncomingPacketBundle, wrap_incoming, parse_incoming_request, handle_message,
  get_interface_name_from_options,
}
use dhcpkit.Worker.Receiving.{parse_incoming_request-save}
use dhcpkit.Tests.Data.{
  client_address, relay_address, solicit_bytes, client_duid, inner_relay, advertise_message,
}
use dhcpkit.Tests.Elements.{valid_solicit, valid_solicit-validate, valid_solicit-IsProper}

abbrev packet : IncomingPacketBundle
packet = record {
  data_received = take 4 solicit_bytes ++ (0 ∷ 8 ∷ 0 ∷ 2 ∷ 0 ∷ 0 ∷ drop 4 solicit_bytes);
  source_address = client_address;
  link_address = relay_address;
  received_over_multicast = true;
  received_over_tcp = false;
  packet_marks = (97 ∷ []) ∷ (97 ∷ []) ∷ [];
  relay_options = cons (leaf (Leaf.interface_id (101 ∷ []))) nil;
}

packet_saved : save_message valid_solicit ≡ ok packet.data_received
unfolding save_message save_client_server save_leaf save_client_id save_duid save_rapid_commit
    save_status_code save_ia_address save_ia_na save_option_request save_elapsed_time pad pack
packet_saved = refl

none_relayed : first_relayed packet.relay_options ≡ none
unfolding first_relayed
none_relayed = refl

parse_incoming_request-save_example :
    (b : Bundle) × (parse_incoming_request packet ≡ ok b)
    × (b.client_request ≡ some valid_solicit)
    × (b.incoming_relay_messages ≡ wrap_incoming packet valid_solicit ∷ [])
    × (b.responses ≡ [])
    × (b.outgoing_relay_messages ≡ none)
parse_incoming_request-save_example =
    parse_incoming_request-save packet valid_solicit valid_solicit [] valid_solicit-IsProper
      valid_solicit-validate packet_saved refl refl none_relayed refl

abbrev packet_bundle : Bundle
packet_bundle = record (started (wrap_incoming packet valid_solicit) true false false) {
  marks = (97 ∷ []) ∷ [];
}

packet_parsed : parse_incoming_request packet ≡ ok packet_bundle
unfolding parse_incoming_request new_bundle
packet_parsed =
    simp (parse-save valid_solicit valid_solicit-IsProper packet_saved, valid_solicit-validate)

packet_request : packet_bundle.client_request ≡ some valid_solicit
unfolding split_relay_chain wrap_incoming join
packet_request = refl

client_named :
    get_option_of_type (client_id_class ∷ []) (options_of valid_solicit)
    ≡ some (leaf (Leaf.client_id client_duid))
unfolding get_option_of_type
client_named = refl

filtered :
    get_all_handlers (allowed server packet_bundle) server.sub_filters
    ≡ some (preference_handler 10 ∷ [])
unfolding get_all_handlers subnet_match in_any_network in_network link_address first_useful
    split_relay_chain is_unspecified is_loopback is_link_local number_of wrap_incoming join
filtered = refl

server-Configured :
    Configured (Keeps (Answers valid_solicit packet_bundle.incoming_relay_messages)) server
server-Configured = record {
  in_filters = ((tt, (preference_handler-Keeps 10, tt)), tt);
  in_sub_handlers = (ignore_request_handler-Keeps (client_server_class confirm ∷ []), tt);
  in_setup = tt;
  in_cleanup = (unanswered_ia_pd_handler-Keeps true, tt);
}

abbrev server_statistics : ServerStatistics
server_statistics = record {
  global_stats = no_statistics;
  interface_stats = ((101 ∷ [], no_statistics)) ∷ [];
  subnet_stats = [];
  relay_stats = (relay_address, no_statistics) ∷ [];
}

-- A socket that takes every reply.
abbrev takes_all : Message → Result (Unit {0})
takes_all m = ok tt

handle_message-Delivers_example :
    (s : StatisticsSet) × (c : Bundle) × (t : StatisticsSet) × (get_update_set server_statistics
        (get_interface_name_from_options (λ i. i) packet.relay_options)
        (some packet_bundle)
      ≡ some s)
    × (handle server packet_bundle (count_each count_incoming_packet s) ≡ done (c, t))
    × (handle_message (λ i. i) server server_statistics packet takes_all
        ≡ some (outgoing_messages c, count_outgoing (outgoing_messages c) t))
    × All
        (Delivers (transaction_of valid_solicit) packet_bundle.incoming_relay_messages)
        (outgoing_messages c)
handle_message-Delivers_example =
    handle_message-Delivers (λ i. i) server server_statistics packet takes_all packet_bundle
      valid_solicit (leaf (Leaf.client_id client_duid)) (preference_handler 10 ∷ []) packet_parsed
      packet_request client_named filtered server-Configured (λ m. refl)

abbrev inner_reply : Message
inner_reply =
    relay_server relay_reply 0 relay_address client_address
      (cons (relay_message advertise_message) nil)

-- An Advertise on its way back through the relay from which the packet came.
abbrev outer_reply : Message
outer_reply =
    relay_server relay_reply 1 relay_address client_address (cons (relay_message inner_reply) nil)

outer_reply-Delivers :
    Delivers (241 ∷ 53 ∷ 9 ∷ []) (inner_relay ∷ wrap_incoming packet inner_relay ∷ []) outer_reply
unfolding wrap_incoming relayed_message
outer_reply-Delivers = (
  advertise_message,
  (refl, refl),
  (inner_reply, (refl, refl, refl), refl, (outer_reply, (refl, refl, refl), refl, refl)),
)

udp_datagram-Delivers_example :
    (reply : Message) × (relayed_message outer_reply ≡ some reply)
    × (udp_datagram outer_reply
        ≡ some (
            save_message reply >>= λ d.
            ok (record { destination = packet.source_address; port = 547; payload = d })))
udp_datagram-Delivers_example =
    udp_datagram-Delivers packet inner_relay outer_reply (241 ∷ 53 ∷ 9 ∷ []) (inner_relay ∷ [])
      outer_reply-Delivers
