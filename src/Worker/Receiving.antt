-- ===== src/Worker/Receiving.antt =====
-- dhcpkit/ipv6/server/worker.py: a valid request that is received is the request of the transaction.
use dhcpkit.Prelude.{
  ◌≡◌, refl, sym, ap, ◌∙◌, false, none, some, List, [], ◌∷◌, ◌++◌, ltb, length, ◌&&◌,
}
use dhcpkit.Wire.{ok}
use dhcpkit.Element.{
  leaf, ia_na, ia_ta, ia_address, ia_pd, ia_prefix, relay_message, Options, nil, cons, Message,
}
use dhcpkit.Element.Access.{join}
use dhcpkit.Element.Proper.{IsProper}
use dhcpkit.Element.Save.{save_message}
use dhcpkit.Element.Validate.{validate_message}
use dhcpkit.Element.RoundTrip.{parse-save}
use dhcpkit.Relay.{first_relayed, relayed_message, split_relay_chain}
use dhcpkit.Relay.Chain.{IsRequest, IsForward, Relays, split_relay_chain_iff}
use dhcpkit.Bundle.{Bundle, started, new_bundle}
use dhcpkit.Worker.{IncomingPacketBundle, wrap_incoming, mark_set, parse_incoming_request}

-- The listener adds no relayed message of its own.
first_relayed-join :
    (os : Options) (m : Message)
    → first_relayed os ≡ none
    → first_relayed (join os (cons (relay_message m) nil)) ≡ some m
unfolding first_relayed join
first_relayed-join nil m e = refl
first_relayed-join (cons (relay_message n) os) m e = cc
first_relayed-join (cons (leaf l) os) m e = first_relayed-join os m e
first_relayed-join (cons (ia_na i t u q) os) m e = first_relayed-join os m e
first_relayed-join (cons (ia_ta i q) os) m e = first_relayed-join os m e
first_relayed-join (cons (ia_address a v w q) os) m e = first_relayed-join os m e
first_relayed-join (cons (ia_pd i t u q) os) m e = first_relayed-join os m e
first_relayed-join (cons (ia_prefix a k v w q) os) m e = first_relayed-join os m e

-- One more relay message around a chain.
Relays-append :
    (q : Message) (rs : List Message) (m w : Message)
    → Relays q rs m
    → IsForward w
    → relayed_message w ≡ some m
    → Relays q (rs ++ (w ∷ [])) w
Relays-append q [] m w h f e = (f, e ∙ ap some (sym h), refl)
Relays-append q (r ∷ rs) m w (g, k, more) f e = (g, k, Relays-append r rs m w more f e)

-- The internal relay message is the last of the chain.
pub wrap_incoming-Relays :
    (p : IncomingPacketBundle) (q : Message) (rs : List Message) (m : Message)
    → Relays q rs m
    → first_relayed p.relay_options ≡ none
    → Relays q (rs ++ (wrap_incoming p m ∷ [])) (wrap_incoming p m)
unfolding wrap_incoming relayed_message
wrap_incoming-Relays p q rs m h none_relayed =
    Relays-append q rs m (wrap_incoming p m) h tt
      (first_relayed-join p.relay_options m none_relayed)

-- For a well-formed message that validate accepts and whose saved bytes are the data of a packet, a
-- request that came through given relay messages to make that message, a packet whose relay options
-- hold no relay message option, and, over TCP, no relay message around the request:
-- parse_incoming_request returns a bundle with that request, with those relay messages and behind
-- them the one that the server wraps around the message, without responses and without outgoing
-- relay messages.
pub parse_incoming_request-save :
    (p : IncomingPacketBundle) (m q : Message) (rs : List Message)
    → IsProper m
    → validate_message m ≡ ok tt
    → save_message m ≡ ok p.data_received
    → IsRequest q
    → Relays q rs m
    → first_relayed p.relay_options ≡ none
    → (p.received_over_tcp && ltb 1 (length (rs ++ (wrap_incoming p m ∷ [])))) ≡ false
    → (b : Bundle) × (parse_incoming_request p ≡ ok b)
      × (b.client_request ≡ some q)
      × (b.incoming_relay_messages ≡ rs ++ (wrap_incoming p m ∷ []))
      × (b.responses ≡ [])
      × (b.outgoing_relay_messages ≡ none)
unfolding parse_incoming_request new_bundle
parse_incoming_request-save p m q rs proper valid saved is_request relays none_relayed few =
    let w = wrap_incoming p m in
    let chain = rs ++ (w ∷ []) in
    let split : split_relay_chain w ≡ (some q, chain) =
      (split_relay_chain_iff w q chain).1
        (is_request, wrap_incoming-Relays p q rs m relays none_relayed) in
    let b = record (started w p.received_over_multicast p.received_over_tcp false) {
      marks = mark_set p.packet_marks;
    } in
    (
      b,
      simp (parse-save m proper saved, valid, split, few),
      ap (λ s. s.0) split,
      ap (λ s. s.1) split,
      refl,
      refl,
    )
