-- ===== src/Server/Sending.antt =====
-- dhcpkit/ipv6/server/message_handler.py and dhcpkit/ipv6/server/transaction_bundle.py: what the server
-- sends after it has handled a request.
use dhcpkit.Server.Refusals.{allowed}
use dhcpkit.Filter.{get_all_handlers}
use dhcpkit.Element.Access.{get_option_of_type, options_of}
use dhcpkit.Handler.Basic.{client_id_class}
use dhcpkit.Prelude.{
  ◌≡◌, refl, sym, subst, Bool, List, [], ◌∷◌, All, Option, none, some, Bool-cases, inl, inr,
}
use dhcpkit.Wire.{Bytes, ok}
use dhcpkit.Element.{
  leaf, ia_na, ia_ta, ia_address, ia_pd, ia_prefix, relay_message, Options, nil, cons, Message,
  unknown_message, client_server, relay_server, relay_forward, relay_reply, DhcpOption,
}
use dhcpkit.Relay.{first_relayed, relayed_message, set_relayed_message, set_first_relayed}
use dhcpkit.Relay.Chain.{IsRequest, Relays, split_relay_chain_iff}
use dhcpkit.Relay.Wrap.{create_outgoing_relay_messages}
use dhcpkit.Bundle.{
  Bundle, new_bundle, from_server_to_client, relink, last_or, send_responses, chain_or,
  outgoing_messages,
}
use dhcpkit.Bundle.Outgoing.{new_bundle-eq-ok}
use dhcpkit.Handler.{done, Handler}
use dhcpkit.Handler.Ensures.{Keeps}
use dhcpkit.Statistics.{StatisticsSet}
use dhcpkit.Server.{MessageHandler, transaction_of, handle}
use dhcpkit.Server.Answers.{IsAnswer, IsMirror, Mirrors, Mirrored, Answers}
use dhcpkit.Server.Mirrors.{set_relayed_message-IsMirror}
use dhcpkit.Server.Phases.{IsAnswer-IsResponse, chain_for-Mirrors}
use dhcpkit.Server.Configured.{Configured}
use dhcpkit.Server.Handling.{handle-Completes}

-- `sent` is a message in replies to the relay messages, from the inside out.
abbrev pub Wraps : Message → List Message → Message → Type 0
Wraps inner [] sent = inner ≡ sent
Wraps inner (i ∷ is) sent =
    (o : Message) × IsMirror i o × (relayed_message o ≡ some inner) × Wraps o is sent

-- An answer in the transaction, in replies to the relay messages.
abbrev pub Delivers : Bytes → List Message → Message → Type 0
Delivers transaction incoming sent = (a : Message) × IsAnswer transaction a × Wraps a incoming sent

first_relayed-set : (m : Message) (os : Options) → first_relayed (set_first_relayed m os) ≡ some m
unfolding first_relayed set_first_relayed
first_relayed-set m nil = refl
first_relayed-set m (cons (relay_message n) os) = refl
first_relayed-set m (cons (leaf l) os) = first_relayed-set m os
first_relayed-set m (cons (ia_na i t u q) os) = first_relayed-set m os
first_relayed-set m (cons (ia_ta i q) os) = first_relayed-set m os
first_relayed-set m (cons (ia_address a v w q) os) = first_relayed-set m os
first_relayed-set m (cons (ia_pd i t u q) os) = first_relayed-set m os
first_relayed-set m (cons (ia_prefix a k v w q) os) = first_relayed-set m os

-- The setter of relayed_message is seen by relayed_message.
relayed_message-set :
    (i o m : Message) → IsMirror i o → relayed_message (set_relayed_message m o) ≡ some m
unfolding relayed_message set_relayed_message
relayed_message-set i (relay_server c h l p os) m r = first_relayed-set m os
relayed_message-set (relay_server relay_forward h l p os) (client_server c j ps) m r = absurd r
relayed_message-set (relay_server relay_reply h l p os) (client_server c j ps) m r = absurd r
relayed_message-set (client_server d k os) (client_server c j ps) m r = absurd r
relayed_message-set (unknown_message t d) (client_server c j ps) m r = absurd r
relayed_message-set (relay_server relay_forward h l p os) (unknown_message u e) m r = absurd r
relayed_message-set (relay_server relay_reply h l p os) (unknown_message u e) m r = absurd r
relayed_message-set (client_server d k os) (unknown_message u e) m r = absurd r
relayed_message-set (unknown_message t d) (unknown_message u e) m r = absurd r

relink-Mirrors : (is os : List Message) (m : Message) → Mirrors is os → Mirrors is (relink m os)
unfolding relink
relink-Mirrors [] [] m h = tt
relink-Mirrors (i ∷ is) (o ∷ os) m (h, hs) =
    (set_relayed_message-IsMirror i o m h, relink-Mirrors is os (set_relayed_message m o) hs)
relink-Mirrors [] (o ∷ os) m h = absurd h
relink-Mirrors (i ∷ is) [] m h = absurd h

relink-Wraps :
    (is os : List Message) (m : Message) → Mirrors is os → Wraps m is (last_or m (relink m os))
unfolding relink
relink-Wraps [] [] m h = refl
relink-Wraps (i ∷ is) (o ∷ os) m (h, hs) = (
  set_relayed_message m o,
  set_relayed_message-IsMirror i o m h,
  relayed_message-set i o m h,
  relink-Wraps is os (set_relayed_message m o) hs,
)
relink-Wraps [] (o ∷ os) m h = absurd h
relink-Wraps (i ∷ is) [] m h = absurd h

send_responses-Delivers :
    (transaction : Bytes) (incoming chain responses : List Message)
    → Mirrors incoming chain
    → All (IsAnswer transaction) responses
    → All (Delivers transaction incoming) (send_responses chain responses)
unfolding send_responses
send_responses-Delivers t is chain [] h ks = tt
send_responses-Delivers t is chain (r ∷ rs) h (a, ks) =
    elim (Bool-cases (from_server_to_client r)) [
      | inl e ↦ rw e (
        (r, a, relink-Wraps is chain r h),
        send_responses-Delivers t is (relink r chain) rs (relink-Mirrors is chain r h) ks,
      )
      | inr e ↦ rw e (send_responses-Delivers t is chain rs h ks)
    ]

chain_or-Mirrors :
    (incoming created : List Message) (o : Option (List Message))
    → Mirrors incoming created
    → Mirrored incoming o
    → Mirrors incoming (chain_or created o)
chain_or-Mirrors is created none h k = h
chain_or-Mirrors is created (some []) h k = h
chain_or-Mirrors is created (some (r ∷ rs)) h k = k

outgoing_messages-Delivers :
    (asked outer : Message) (b : Bundle) (responses : List Message)
    → IsRequest asked
    → Relays asked b.incoming_relay_messages outer
    → All (IsAnswer (transaction_of asked)) responses
    → Mirrored b.incoming_relay_messages b.outgoing_relay_messages
    → All
        (Delivers (transaction_of asked) b.incoming_relay_messages)
        (outgoing_messages (record b { responses = responses }))
unfolding outgoing_messages
outgoing_messages-Delivers asked outer b [] is_request relays answers mirrored = tt
outgoing_messages-Delivers asked outer b (r ∷ rs) is_request relays (a, ks) mirrored =
    let created = create_outgoing_relay_messages b.incoming_relay_messages r in
    send_responses-Delivers (transaction_of asked) b.incoming_relay_messages
      (chain_or created b.outgoing_relay_messages) (r ∷ rs)
      (chain_or-Mirrors b.incoming_relay_messages created b.outgoing_relay_messages
        (chain_for-Mirrors asked b.incoming_relay_messages outer is_request relays r
          (IsAnswer-IsResponse (transaction_of asked) r a))
        mirrored)
      (a, ks)

-- For a fresh bundle of a request in the relay messages that end in `outer`.
pub handle-Delivers :
    (h : MessageHandler) (asked outer : Message) (client : DhcpOption) (found : List Handler)
    (b : Bundle) (s : StatisticsSet)
    → IsRequest asked
    → Relays asked b.incoming_relay_messages outer
    → get_option_of_type (client_id_class ∷ []) (options_of asked) ≡ some client
    → b.client_request ≡ some asked
    → b.responses ≡ []
    → b.outgoing_relay_messages ≡ none
    → get_all_handlers (allowed h b) h.sub_filters ≡ some found
    → Configured (Keeps (Answers asked b.incoming_relay_messages)) h
    → (c : Bundle) × (t : StatisticsSet) × (handle h b s ≡ done (c, t))
      × All (Delivers (transaction_of asked) b.incoming_relay_messages) (outgoing_messages c)
handle-Delivers h asked outer client found b s is_request relays named e no_responses no_chain g k =
    let (c, t, handled, answers) =
      handle-Completes h asked outer client found b s is_request relays named e no_responses
        no_chain g k in
    (
      c,
      t,
      handled,
      subst (λ is. All (Delivers (transaction_of asked) is) (outgoing_messages c))
          answers.same_relays
          (outgoing_messages-Delivers asked outer c c.responses is_request
            (subst (λ is. Relays asked is outer) (sym answers.same_relays) relays) answers.answers
            (subst (λ is. Mirrored is c.outgoing_relay_messages) (sym answers.same_relays)
              answers.mirrored)),
    )

-- For a message with a request in it that has a client identifier, and a server whose filters match
-- without an exception and whose configured handlers raise no exceptions but those of the handlers
-- and keep the request, the relay messages, the answers and their mirrors in the bundle: handle
-- returns, and each message that outgoing_messages then yields is an Advertise or a Reply with the
-- transaction identifier of the request, in replies to all relay messages of the message, each with
-- the hop count and the addresses of its counterpart and with the message before it inside.
pub handle-outgoing_messages :
    (h : MessageHandler) (m asked : Message) (client : DhcpOption) (found : List Handler)
    (multicast tcp rapid_commit : Bool) (b : Bundle) (s : StatisticsSet)
    → new_bundle m multicast tcp rapid_commit ≡ ok b
    → b.client_request ≡ some asked
    → get_option_of_type (client_id_class ∷ []) (options_of asked) ≡ some client
    → get_all_handlers (allowed h b) h.sub_filters ≡ some found
    → Configured (Keeps (Answers asked b.incoming_relay_messages)) h
    → (c : Bundle) × (t : StatisticsSet) × (handle h b s ≡ done (c, t))
      × All (Delivers (transaction_of asked) b.incoming_relay_messages) (outgoing_messages c)
handle-outgoing_messages h m asked client found multicast tcp rapid_commit b s made e named g k =
    let (split, no_chain, no_responses) = new_bundle-eq-ok m multicast tcp rapid_commit b made in
    let (is_request, relays) =
      (split_relay_chain_iff m asked b.incoming_relay_messages).0 (rw e at split) in
    handle-Delivers h asked m client found b s is_request relays named e no_responses no_chain g k
