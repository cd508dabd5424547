-- ===== src/Relay/Wrap.antt =====
-- dhcpkit/ipv6/messages.py and dhcpkit/ipv6/server/transaction_bundle.py: the chain of relay replies
-- that `wrap_response` builds mirrors the chain of relay messages of the request.
use dhcpkit.Prelude.{◌≡◌, refl, ap, ◌∙◌, append-nil, some, List, [], ◌∷◌, ◌++◌}
use dhcpkit.Element.{
  leaf, ia_na, ia_ta, ia_address, ia_pd, ia_prefix, relay_message, Options, nil, cons, Message,
  unknown_message, client_server, relay_server, relay_forward, relay_reply,
}
use dhcpkit.Relay.{first_relayed, relayed_message, wrap_within, wrap_relayed, wrap_response}
use dhcpkit.Relay.Chain.{IsRequest, IsForward, Relays}

-- The loop of TransactionBundle.create_outgoing_relay_messages: while the message is a
-- RelayReplyMessage, put it in front and go on with what it relays.
unfoldable mutual
  pub collect_from : Message → List Message → List Message
  collect_from (relay_server relay_reply h l p os) found =
      collect_within os (relay_server relay_reply h l p os ∷ found)
  collect_from (relay_server relay_forward h l p os) found = found
  collect_from (client_server c i os) found = found
  collect_from (unknown_message t d) found = found

  pub collect_within : Options → List Message → List Message
  collect_within nil found = found
  collect_within (cons (relay_message m) os) found = collect_from m found
  collect_within (cons _ os) found = collect_within os found

abbrev last_of : List Message → Message → Message
last_of [] m = m
last_of (r ∷ rs) m = last_of rs r

-- TransactionBundle.create_outgoing_relay_messages: from the incoming relay messages and the
-- response, the outgoing relay messages.
unfoldable pub create_outgoing_relay_messages : List Message → Message → List Message
unfolding collect_from wrap_response
create_outgoing_relay_messages [] response = []
create_outgoing_relay_messages (r ∷ rs) response =
    collect_from (wrap_response (last_of rs r) response) []

-- A reply to a relay message with another message inside.
abbrev pub reply_to : Message → Message → Message
reply_to (relay_server c h l p os) inner =
    relay_server relay_reply h l p (cons (relay_message inner) nil)
reply_to other inner = inner

-- The replies to relay messages from the inside out, the first with `inner` inside, each other one
-- with the one before it inside.
abbrev pub replies : Message → List Message → List Message
replies inner [] = []
replies inner (r ∷ rs) = reply_to r inner ∷ replies (reply_to r inner) rs

-- The outermost of them.
abbrev pub nest : Message → List Message → Message
nest inner [] = inner
nest inner (r ∷ rs) = nest (reply_to r inner) rs

wrap_within-first :
    (os : Options) (n response : Message)
    → first_relayed os ≡ some n
    → wrap_within os response ≡ wrap_relayed n response
unfolding first_relayed wrap_within
wrap_within-first nil n response e = cc
wrap_within-first (cons (relay_message m) os) n response e = cc
wrap_within-first (cons (leaf l) os) n response e = wrap_within-first os n response e
wrap_within-first (cons (ia_na i t u q) os) n response e = wrap_within-first os n response e
wrap_within-first (cons (ia_ta i q) os) n response e = wrap_within-first os n response e
wrap_within-first (cons (ia_address a v w q) os) n response e = wrap_within-first os n response e
wrap_within-first (cons (ia_pd i t u q) os) n response e = wrap_within-first os n response e
wrap_within-first (cons (ia_prefix a k v w q) os) n response e = wrap_within-first os n response e

-- One relay message around a message whose wrapping is known.
wrap_relayed-forward :
    (r inner response wrapped : Message)
    → IsForward r
    → relayed_message r ≡ some inner
    → wrap_relayed inner response ≡ cons (relay_message wrapped) nil
    → wrap_relayed r response ≡ cons (relay_message (reply_to r wrapped)) nil
unfolding wrap_within relayed_message
wrap_relayed-forward (relay_server relay_forward h l p os) inner response wrapped f e w =
    ap (λ x. cons (relay_message (relay_server relay_reply h l p x)) nil)
      (wrap_within-first os inner response e ∙ w)
wrap_relayed-forward (relay_server relay_reply h l p os) inner response wrapped f e w = absurd f
wrap_relayed-forward (client_server c i os) inner response wrapped f e w = absurd f
wrap_relayed-forward (unknown_message t d) inner response wrapped f e w = absurd f

wrap_relayed-Relays :
    (inner : Message) (rs : List Message) (outer response wrapped : Message)
    → Relays inner rs outer
    → wrap_relayed inner response ≡ cons (relay_message wrapped) nil
    → wrap_relayed outer response ≡ cons (relay_message (nest wrapped rs)) nil
wrap_relayed-Relays inner [] outer response wrapped e w = rw (← e) w
wrap_relayed-Relays inner (r ∷ rs) outer response wrapped (f, e, more) w =
    wrap_relayed-Relays r rs outer response (reply_to r wrapped) more
      (wrap_relayed-forward r inner response wrapped f e w)

wrap_relayed-request :
    (q response : Message)
    → IsRequest q
    → wrap_relayed q response ≡ cons (relay_message response) nil
unfolding wrap_within
wrap_relayed-request (client_server c i os) response h = refl
wrap_relayed-request (relay_server c h l p os) response n = absurd n
wrap_relayed-request (unknown_message t d) response n = absurd n

wrap_response-wrap_relayed :
    (r response x : Message)
    → IsForward r
    → wrap_relayed r response ≡ cons (relay_message x) nil
    → wrap_response r response ≡ x
unfolding wrap_within wrap_response
wrap_response-wrap_relayed (relay_server relay_forward h l p os) response x f w = cc
wrap_response-wrap_relayed (relay_server relay_reply h l p os) response x f w = absurd f
wrap_response-wrap_relayed (client_server c i os) response x f w = absurd f
wrap_response-wrap_relayed (unknown_message t d) response x f w = absurd f

Relays-last :
    (q r : Message) (rs : List Message) (m : Message) → Relays q (r ∷ rs) m → last_of rs r ≡ m
Relays-last q r [] m (f, e, h) = h
Relays-last q r (s ∷ rs) m (f, e, more) = Relays-last r s rs m more

Relays-IsForward :
    (q r : Message) (rs : List Message) (m : Message) → Relays q (r ∷ rs) m → IsForward m
Relays-IsForward q r [] m (f, e, h) = rw (← h) f
Relays-IsForward q r (s ∷ rs) m (f, e, more) = Relays-IsForward r s rs m more

collect_from-reply_to :
    (r inner : Message) (found : List Message)
    → IsForward r
    → collect_from (reply_to r inner) found ≡ collect_from inner (reply_to r inner ∷ found)
unfolding collect_from
collect_from-reply_to (relay_server c h l p os) inner found f = refl
collect_from-reply_to (client_server c i os) inner found f = absurd f
collect_from-reply_to (unknown_message t d) inner found f = absurd f

collect_from-nest :
    (inner : Message) (rs : List Message) (outer x : Message) (found : List Message)
    → Relays inner rs outer
    → collect_from (nest x rs) found ≡ collect_from x (replies x rs ++ found)
collect_from-nest inner [] outer x found e = refl
collect_from-nest inner (r ∷ rs) outer x found (f, e, more) =
    collect_from-nest r rs outer (reply_to r x) found more
    ∙ collect_from-reply_to r x (replies (reply_to r x) rs ++ found) f

-- A response to a client: no RelayReplyMessage.
abbrev pub IsResponse : Message → Type 0
IsResponse (client_server c i os) = Unit
IsResponse _ = ⊥

collect_from-response :
    (m : Message) (found : List Message) → IsResponse m → collect_from m found ≡ found
unfolding collect_from
collect_from-response (client_server c i os) found h = refl
collect_from-response (relay_server c h l p os) found n = absurd n
collect_from-response (unknown_message t d) found n = absurd n

-- For a request that came through relay messages, wrap_response of the outermost one is the
-- outermost of the nested replies to them all, with the response innermost.
pub wrap_response-nest :
    (q r response : Message) (rs : List Message) (m : Message)
    → IsRequest q
    → Relays q (r ∷ rs) m
    → wrap_response m response ≡ nest response (r ∷ rs)
wrap_response-nest q r response rs m h relays =
    wrap_response-wrap_relayed m response (nest response (r ∷ rs))
      (Relays-IsForward q r rs m relays)
      (wrap_relayed-Relays q (r ∷ rs) m response response relays
        (wrap_relayed-request q response h))

-- For a request that came through the given relay messages, and a client/server message as the
-- response, the outgoing relay messages mirror the incoming ones in the same order: each is a
-- RelayReplyMessage with the hop count and the addresses of its counterpart and one option, which
-- holds the reply before it or the response.
pub create_outgoing_relay_messages-replies :
    (q response : Message) (rs : List Message) (m : Message)
    → IsRequest q
    → Relays q rs m
    → IsResponse response
    → create_outgoing_relay_messages rs response ≡ replies response rs
unfolding create_outgoing_relay_messages
create_outgoing_relay_messages-replies q response [] m h relays n = refl
create_outgoing_relay_messages-replies q response (r ∷ rs) m h relays n =
    rw (Relays-last q r rs m relays, wrap_response-nest q r response rs m h relays)
      (collect_from-nest q (r ∷ rs) m response [] relays
        ∙ collect_from-response response (replies response (r ∷ rs) ++ []) n
        ∙ append-nil (replies response (r ∷ rs)))
