-- ===== src/Worker/Answering.antt =====
-- dhcpkit/ipv6/server/worker.py: what the server answers passes the check and is sent.
use dhcpkit.Prelude.{
  ◌≡◌, ◌≢◌, refl, ap, subst, ◌∙◌, false, none, some, List, [], ◌∷◌, All, Bool-cases, inl, inr,
}
use dhcpkit.Wire.{Bytes, Result, ok}
use dhcpkit.Wire.Laws.{>>=-eq-ok}
use dhcpkit.Address.{Address}
use dhcpkit.Utf8.{Text}
use dhcpkit.Element.{
  DhcpOption, Message, relay_server, relay_forward, relay_reply, client_server, unknown_message,
}
use dhcpkit.Element.Access.{get_option_of_type, options_of}
use dhcpkit.Element.Parse.{parse}
use dhcpkit.Element.Validate.{validate_message}
use dhcpkit.Filter.{get_all_handlers}
use dhcpkit.Relay.{relayed_message}
use dhcpkit.Relay.Chain.{IsRequest, Relays, split_relay_chain_iff}
use dhcpkit.Bundle.{Bundle, new_bundle, outgoing_messages, link_address, last_peer, first_useful}
use dhcpkit.Bundle.Outgoing.{new_bundle-eq-ok}
use dhcpkit.Handler.{done, Handler}
use dhcpkit.Handler.Basic.{client_id_class}
use dhcpkit.Handler.Ensures.{Keeps}
use dhcpkit.Statistics.{StatisticsSet, count_each, count_incoming_packet, count_outgoing_packet}
use dhcpkit.Statistics.Selection.{ServerStatistics, get_update_set, located_set}
use dhcpkit.Server.{MessageHandler, transaction_of, handle}
use dhcpkit.Server.Answers.{Answers, IsMirror}
use dhcpkit.Server.Configured.{Configured}
use dhcpkit.Server.Refusals.{allowed}
use dhcpkit.Server.Sending.{Delivers, Wraps, handle-Delivers}
use dhcpkit.Worker.{
  IncomingPacketBundle, wrap_incoming, mark_set, parse_incoming_request, verify_response, stops,
  send_replies, send_outcome, handle_message, get_interface_name_from_options, handle_parsed,
}

-- A reply to a relay message that relays a message passes the check.
IsMirror-verify :
    (i o inner : Message)
    → IsMirror i o
    → relayed_message o ≡ some inner
    → verify_response o ≡ ok tt
unfolding verify_response
IsMirror-verify (relay_server relay_forward h l p os) (relay_server relay_reply k m q ps) inner f
      e =
    rw e refl
IsMirror-verify (relay_server relay_forward h l p os) (relay_server relay_forward k m q ps) inner f
      e =
    absurd f
IsMirror-verify (relay_server relay_forward h l p os) (client_server c i ps) inner f e = absurd f
IsMirror-verify (relay_server relay_forward h l p os) (unknown_message t d) inner f e = absurd f
IsMirror-verify (relay_server relay_reply h l p os) o inner f e = absurd f
IsMirror-verify (client_server c i os) o inner f e = absurd f
IsMirror-verify (unknown_message t d) o inner f e = absurd f

-- What is wrapped in replies to at least one relay message passes it.
Wraps-verify :
    (i : Message) (is : List Message) (inner sent : Message)
    → Wraps inner (i ∷ is) sent
    → verify_response sent ≡ ok tt
Wraps-verify i [] inner sent (o, f, e, same) =
    subst (λ m. verify_response m ≡ ok tt) same (IsMirror-verify i o inner f e)
Wraps-verify i (j ∷ is) inner sent (o, f, e, more) = Wraps-verify j is o sent more

-- The outgoing packets are counted one by one.
abbrev pub count_outgoing : List Message → StatisticsSet → StatisticsSet
count_outgoing [] s = s
count_outgoing (m ∷ ms) s = count_outgoing ms (count_each count_outgoing_packet s)

send_replies-each :
    (send_reply : Message → Result (Unit {0})) (ms : List Message) (s : StatisticsSet)
    → ((m : Message) → stops (send_reply m) ≡ false)
    → All (λ m. verify_response m ≡ ok tt) ms
    → send_replies send_reply ms s ≡ (ms, count_outgoing ms s)
unfolding send_replies
send_replies-each send_reply [] s quiet h = refl
send_replies-each send_reply (m ∷ ms) s quiet (v, h) = simp (
  send_replies,
  v,
  quiet m,
  send_replies-each send_reply ms (count_each count_outgoing_packet s) quiet h,
)

-- A bundle from parse_incoming_request is fresh, and its request came through a relay message.
pub record Received (asked : Message) (b : Bundle) : Type 0 where
  pub outermost : Message
  pub is_request : IsRequest asked
  pub relays : Relays asked b.incoming_relay_messages outermost
  pub relayed : b.incoming_relay_messages ≢ []
  pub no_chain : b.outgoing_relay_messages ≡ none
  pub no_responses : b.responses ≡ []

wrapped_not_request :
    (p : IncomingPacketBundle) (m asked : Message) → IsRequest asked → asked ≢ wrap_incoming p m
unfolding wrap_incoming
wrapped_not_request p m asked r e = subst IsRequest e r

parse_incoming_request-Received :
    (p : IncomingPacketBundle) (b : Bundle) (asked : Message)
    → parse_incoming_request p ≡ ok b
    → b.client_request ≡ some asked
    → Received asked b
unfolding parse_incoming_request
parse_incoming_request-Received p b asked h e =
    let (parsed, parses, h₁) = >>=-eq-ok (parse p.data_received none) _ h in
    let (u, valid, h₂) = >>=-eq-ok (validate_message parsed.1) _ h₁ in
    let (fresh, made, h₃) =
      >>=-eq-ok
        (new_bundle (wrap_incoming p parsed.1) p.received_over_multicast p.received_over_tcp false)
        _ h₂ in
    let same : record fresh { marks = mark_set p.packet_marks } ≡ b = cc in
    let asks : fresh.client_request ≡ some asked = ap (λ c. c.client_request) same ∙ e in
    let outer = wrap_incoming p parsed.1 in
    let (split, no_chain, no_responses) =
      new_bundle-eq-ok outer p.received_over_multicast p.received_over_tcp false fresh made in
    let (is_request, relays) =
      (split_relay_chain_iff outer asked fresh.incoming_relay_messages).0 (rw asks at split) in
    subst (Received asked) same (record {
      outermost = outer;
      is_request = is_request;
      relays = relays;
      relayed = λ none_relayed.
          wrapped_not_request p parsed.1 asked is_request
            (subst (λ is. Relays asked is outer) none_relayed relays);
      no_chain = no_chain;
      no_responses = no_responses;
    })

first_of : (ms : List Message) → ms ≢ [] → (r : Message) × (rs : List Message) × (ms ≡ r ∷ rs)
first_of [] h = absurd (h refl)
first_of (r ∷ rs) h = (r, rs, refl)

link_address-some :
    (b : Bundle) → b.incoming_relay_messages ≢ [] → (a : Address) × (link_address b ≡ some a)
unfolding link_address
link_address-some b relayed = elim (Bool-cases b.received_over_tcp) [
  | inl tcp ↦
      let (r, rs, e) = first_of b.incoming_relay_messages relayed in
      (last_peer r rs, rw (tcp, e) refl)
  | inr no_tcp ↦ (first_useful b.incoming_relay_messages, rw no_tcp refl)
]

-- With a relay message there is a set of statistics to update.
get_update_set-some :
    (stats : ServerStatistics) (name : Text) (b : Bundle)
    → b.incoming_relay_messages ≢ []
    → (s : StatisticsSet) × (get_update_set stats name (some b) ≡ some s)
unfolding get_update_set
get_update_set-some stats name b relayed =
    let (a, e) = link_address-some b relayed in (located_set stats name b a, rw e refl)

Delivers-verify :
    (transaction : Bytes) (incoming ms : List Message)
    → incoming ≢ []
    → All (Delivers transaction incoming) ms
    → All (λ m. verify_response m ≡ ok tt) ms
Delivers-verify transaction incoming [] relayed h = tt
Delivers-verify transaction [] (m ∷ ms) relayed h = absurd (relayed refl)
Delivers-verify transaction (i ∷ is) (m ∷ ms) relayed ((a, _, wraps), h) =
    (Wraps-verify i is a m wraps, Delivers-verify transaction (i ∷ is) ms relayed h)

handle_parsed-done :
    (h : MessageHandler) (stats : ServerStatistics) (name : Text)
    (send_reply : Message → Result (Unit {0})) (b c : Bundle) (s t : StatisticsSet)
    → get_update_set stats name (some b) ≡ some s
    → handle h b (count_each count_incoming_packet s) ≡ done (c, t)
    → ((m : Message) → stops (send_reply m) ≡ false)
    → All (λ m. verify_response m ≡ ok tt) (outgoing_messages c)
    → handle_parsed h stats name send_reply (ok b)
      ≡ some (outgoing_messages c, count_outgoing (outgoing_messages c) t)
unfolding handle_parsed send_outcome
handle_parsed-done h stats name send_reply b c s t selected handled quiet verified = simp (
  handle_parsed,
  send_outcome,
  selected,
  handled,
  send_replies-each send_reply (outgoing_messages c) t quiet verified,
)

-- For a packet that parse_incoming_request makes a bundle of, with a request in it that has a
-- client identifier, a server whose filters match without an exception and whose configured
-- handlers raise no exceptions but those of the handlers and keep the request, the relay messages,
-- the answers and their mirrors in the bundle, and a replier that raises no exception but
-- ValueError: get_update_set finds the statistics for the bundle, the handler returns, and
-- handle_message gives the replier exactly the messages that outgoing_messages yields, in their
-- order, and counts each of them as an outgoing packet; each of them is an Advertise or a Reply
-- with the transaction identifier of the request, in replies to all relay messages of the bundle,
-- each with the hop count and the addresses of its counterpart and with the message before it
-- inside.
pub handle_message-Delivers :
    (decode_replacing : Bytes → Text) (h : MessageHandler) (stats : ServerStatistics)
    (p : IncomingPacketBundle) (send_reply : Message → Result (Unit {0})) (b : Bundle)
    (asked : Message) (client : DhcpOption) (found : List Handler)
    → parse_incoming_request p ≡ ok b
    → b.client_request ≡ some asked
    → get_option_of_type (client_id_class ∷ []) (options_of asked) ≡ some client
    → get_all_handlers (allowed h b) h.sub_filters ≡ some found
    → Configured (Keeps (Answers asked b.incoming_relay_messages)) h
    → ((m : Message) → stops (send_reply m) ≡ false)
    → (s : StatisticsSet) × (c : Bundle) × (t : StatisticsSet) × (get_update_set stats
          (get_interface_name_from_options decode_replacing p.relay_options)
          (some b)
        ≡ some s)
      × (handle h b (count_each count_incoming_packet s) ≡ done (c, t))
      × (handle_message decode_replacing h stats p send_reply
          ≡ some (outgoing_messages c, count_outgoing (outgoing_messages c) t))
      × All (Delivers (transaction_of asked) b.incoming_relay_messages) (outgoing_messages c)
unfolding handle_message
handle_message-Delivers decode_replacing h stats p send_reply b asked client found parsed e named g
      k quiet =
    let received = parse_incoming_request-Received p b asked parsed e in
    let name = get_interface_name_from_options decode_replacing p.relay_options in
    let (s, selected) = get_update_set-some stats name b received.relayed in
    let (c, t, handled, delivers) =
      handle-Delivers h asked received.outermost client found b (count_each count_incoming_packet s)
        received.is_request received.relays named e received.no_responses received.no_chain g k in
    let verified =
      Delivers-verify (transaction_of asked) b.incoming_relay_messages (outgoing_messages c)
        received.relayed delivers in
    (
      s,
      c,
      t,
      selected,
      handled,
      ap (handle_parsed h stats name send_reply) parsed
          ∙ handle_parsed-done h stats name send_reply b c s t selected handled quiet verified,
      delivers,
    )
