-- ===== src/Bundle/Outgoing.antt =====
-- What a transaction bundle sends: each response in its own chain of replies to the relay messages.
use dhcpkit.Prelude.{
  ◌≡◌, refl, Bool-cases, inl, inr, Bool, Option, none, some, List, [], ◌∷◌, map, All, subst,
  if◌then◌else◌, not, ltb, length, ◌&&◌,
}
use dhcpkit.Wire.{ok, require}
use dhcpkit.Wire.Laws.{>>=-eq-ok}
use dhcpkit.Element.{Message, unknown_message, client_server, relay_server}
use dhcpkit.Relay.{split_relay_chain, set_relayed_message, set_first_relayed}
use dhcpkit.Relay.Chain.{IsForward, Relays, split_relay_chain_iff}
use dhcpkit.Relay.Wrap.{
  reply_to, replies, nest, IsResponse, create_outgoing_relay_messages,
  create_outgoing_relay_messages-replies,
}
use dhcpkit.Bundle.{
  Bundle, started, new_bundle, from_server_to_client, relink, last_or, send_responses,
  outgoing_messages, chain_or,
}

-- The messages that a server may send to a client.
unfoldable pub sendable : List Message → List Message
sendable [] = []
sendable (r ∷ rs) =
    let others = sendable rs in if from_server_to_client r then r ∷ others else others

set_relayed_message-reply_to :
    (r old new : Message) → IsForward r → set_relayed_message new (reply_to r old) ≡ reply_to r new
unfolding set_relayed_message set_first_relayed
set_relayed_message-reply_to (relay_server c h l p os) old new f = refl
set_relayed_message-reply_to (client_server c i os) old new f = absurd f
set_relayed_message-reply_to (unknown_message t d) old new f = absurd f

-- A new response in the innermost reply of a chain makes the chain of replies with that response.
relink-replies :
    (inner : Message) (rs : List Message) (outer old new : Message)
    → Relays inner rs outer
    → relink new (replies old rs) ≡ replies new rs
unfolding relink
relink-replies inner [] outer old new h = refl
relink-replies inner (r ∷ rs) outer old new (f, e, more) =
    rw
      (
        set_relayed_message-reply_to r old new f,
        relink-replies r rs outer (reply_to r old) (reply_to r new) more,
      )
      refl

last_or-replies : (m : Message) (rs : List Message) → last_or m (replies m rs) ≡ nest m rs
last_or-replies m [] = refl
last_or-replies m (r ∷ rs) = last_or-replies (reply_to r m) rs

send_responses-replies :
    (inner : Message) (rs : List Message) (outer old : Message) (responses : List Message)
    → Relays inner rs outer
    → send_responses (replies old rs) responses ≡ map (λ r. nest r rs) (sendable responses)
unfolding send_responses sendable
send_responses-replies inner rs outer old [] h = refl
send_responses-replies inner rs outer old (r ∷ responses) h =
    let linked = relink-replies inner rs outer old r h in
    elim (Bool-cases (from_server_to_client r)) [
      | inl e ↦
          rw (e, linked, last_or-replies r rs, send_responses-replies inner rs outer r responses h)
            refl
      | inr e ↦ rw (e, send_responses-replies inner rs outer old responses h) refl
    ]

-- What a fresh bundle has.
pub new_bundle-eq-ok :
    (m : Message) (multicast tcp rapid_commit : Bool) (b : Bundle)
    → new_bundle m multicast tcp rapid_commit ≡ ok b
    → (split_relay_chain m ≡ (b.client_request, b.incoming_relay_messages))
      × (b.outgoing_relay_messages ≡ none)
      × (b.responses ≡ [])
unfolding new_bundle
new_bundle-eq-ok m multicast tcp rapid_commit b h =
    let (u, e, made) =
      >>=-eq-ok (require (not (tcp && ltb 1 (length (split_relay_chain m).1)))) _ h in
    let same : started m multicast tcp rapid_commit ≡ b = cc in
    subst
      (λ c.
        (split_relay_chain m ≡ (c.client_request, c.incoming_relay_messages))
        × (c.outgoing_relay_messages ≡ none)
        × (c.responses ≡ []))
      same (refl, refl, refl)

chain_or-none :
    (created : List Message) (o : Option (List Message)) → o ≡ none → chain_or created o ≡ created
chain_or-none created none e = refl
chain_or-none created (some c) e = cc

-- For a bundle that was made for a message with a request in it, and responses that are
-- client/server messages, outgoing_messages yields, in their order and for each response of a class
-- that servers send, the response wrapped in the replies to all relay messages of the message.
pub outgoing_messages-nest :
    (m q : Message) (multicast tcp rapid_commit : Bool) (b : Bundle) (responses : List Message)
    → new_bundle m multicast tcp rapid_commit ≡ ok b
    → b.client_request ≡ some q
    → All IsResponse responses
    → outgoing_messages (record b { responses = responses })
      ≡ map (λ r. nest r b.incoming_relay_messages) (sendable responses)
unfolding outgoing_messages sendable
outgoing_messages-nest m q multicast tcp rapid_commit b [] h e all = refl
outgoing_messages-nest m q multicast tcp rapid_commit b (r ∷ rs) h e (first_is, more) =
    let (split, fresh, _) = new_bundle-eq-ok m multicast tcp rapid_commit b h in
    let (is_request, relays) =
      (split_relay_chain_iff m q b.incoming_relay_messages).0 (rw e at split) in
    rw
      (
        chain_or-none (create_outgoing_relay_messages b.incoming_relay_messages r)
            b.outgoing_relay_messages fresh,
        create_outgoing_relay_messages-replies q r b.incoming_relay_messages m is_request relays
            first_is,
      )
      (send_responses-replies q b.incoming_relay_messages m r (r ∷ rs) relays)
