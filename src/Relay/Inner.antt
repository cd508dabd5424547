-- ===== src/Relay/Inner.antt =====
-- dhcpkit/ipv6/messages.py and dhcpkit/ipv6/utils.py: `inner_message` and `inner_relay_message` find
-- what `split_relay_chain` finds.
use dhcpkit.Prelude.{◌≡◌, refl, ◌∙◌, some, List, [], ◌∷◌}
use dhcpkit.Element.{
  leaf, ia_na, ia_ta, ia_address, ia_pd, ia_prefix, relay_message, Options, nil, cons, Message,
  unknown_message, client_server, relay_server,
}
use dhcpkit.Relay.{
  first_relayed, relayed_message, inner_message, inner_within, inner_relay_message, inner_relay_of,
  inner_relay_within, split_relay_chain,
}
use dhcpkit.Relay.Chain.{IsRequest, IsForward, Relays, split_relay_chain_iff}

inner_within-first :
    (os : Options) (n : Message) → first_relayed os ≡ some n → inner_within os ≡ inner_message n
unfolding first_relayed inner_message
inner_within-first nil n e = cc
inner_within-first (cons (relay_message m) os) n e = cc
inner_within-first (cons (leaf l) os) n e = inner_within-first os n e
inner_within-first (cons (ia_na i t u q) os) n e = inner_within-first os n e
inner_within-first (cons (ia_ta i q) os) n e = inner_within-first os n e
inner_within-first (cons (ia_address a v w q) os) n e = inner_within-first os n e
inner_within-first (cons (ia_pd i t u q) os) n e = inner_within-first os n e
inner_within-first (cons (ia_prefix a k v w q) os) n e = inner_within-first os n e

inner_message-relayed :
    (r n : Message) → relayed_message r ≡ some n → inner_message r ≡ inner_message n
unfolding relayed_message inner_message
inner_message-relayed (relay_server c h l p os) n e = inner_within-first os n e
inner_message-relayed (client_server c i os) n e = cc
inner_message-relayed (unknown_message t d) n e = cc

inner_message-Relays :
    (inner : Message) (rs : List Message) (outer : Message)
    → Relays inner rs outer
    → inner_message outer ≡ inner_message inner
inner_message-Relays inner [] outer e = rw e
inner_message-Relays inner (r ∷ rs) outer (f, e, more) =
    inner_message-Relays r rs outer more ∙ inner_message-relayed r inner e

inner_message-request : (q : Message) → IsRequest q → inner_message q ≡ some q
unfolding inner_message
inner_message-request (client_server c i os) h = refl
inner_message-request (relay_server c h l p os) n = absurd n
inner_message-request (unknown_message t d) n = absurd n

-- Where split_relay_chain finds a request, inner_message of the same message is that request.
pub inner_message-split_relay_chain :
    (m q : Message) (rs : List Message)
    → split_relay_chain m ≡ (some q, rs)
    → inner_message m ≡ some q
inner_message-split_relay_chain m q rs h =
    let (is_request, relays) = (split_relay_chain_iff m q rs).0 h in
    inner_message-Relays q rs m relays ∙ inner_message-request q is_request

inner_relay_within-first :
    (os : Options) (n self : Message)
    → first_relayed os ≡ some n
    → inner_relay_within os self ≡ inner_relay_of n self
unfolding first_relayed inner_relay_message
inner_relay_within-first nil n self e = cc
inner_relay_within-first (cons (relay_message m) os) n self e = cc
inner_relay_within-first (cons (leaf l) os) n self e = inner_relay_within-first os n self e
inner_relay_within-first (cons (ia_na i t u q) os) n self e = inner_relay_within-first os n self e
inner_relay_within-first (cons (ia_ta i q) os) n self e = inner_relay_within-first os n self e
inner_relay_within-first (cons (ia_address a v w q) os) n self e =
    inner_relay_within-first os n self e
inner_relay_within-first (cons (ia_pd i t u q) os) n self e = inner_relay_within-first os n self e
inner_relay_within-first (cons (ia_prefix a k v w q) os) n self e =
    inner_relay_within-first os n self e

inner_relay_message-relayed :
    (r n : Message)
    → IsForward r
    → relayed_message r ≡ some n
    → inner_relay_message r ≡ inner_relay_of n r
unfolding relayed_message inner_relay_message
inner_relay_message-relayed (relay_server c h l p os) n f e =
    inner_relay_within-first os n (relay_server c h l p os) e
inner_relay_message-relayed (client_server c i os) n f e = absurd f
inner_relay_message-relayed (unknown_message t d) n f e = absurd f

inner_relay_of-request : (q r : Message) → IsRequest q → inner_relay_of q r ≡ some r
unfolding inner_relay_message
inner_relay_of-request (client_server c i os) r h = refl
inner_relay_of-request (relay_server c h l p os) r n = absurd n
inner_relay_of-request (unknown_message t d) r n = absurd n

inner_relay_of-forward : (r s : Message) → IsForward r → inner_relay_of r s ≡ inner_relay_message r
unfolding inner_relay_message
inner_relay_of-forward (relay_server c h l p os) s f = refl
inner_relay_of-forward (client_server c i os) s f = absurd f
inner_relay_of-forward (unknown_message t d) s f = absurd f

inner_relay_message-Relays :
    (r : Message) (rs : List Message) (outer : Message)
    → IsForward r
    → Relays r rs outer
    → inner_relay_message outer ≡ inner_relay_message r
inner_relay_message-Relays r [] outer f e = rw e
inner_relay_message-Relays r (s ∷ rs) outer f (g, e, more) =
    inner_relay_message-Relays s rs outer g more
    ∙ inner_relay_message-relayed s r g e
    ∙ inner_relay_of-forward r s f

-- Where split_relay_chain finds a request and at least one relay message, inner_relay_message of
-- the same message is the first of those relay messages.
pub inner_relay_message-split_relay_chain :
    (m q r : Message) (rs : List Message)
    → split_relay_chain m ≡ (some q, r ∷ rs)
    → inner_relay_message m ≡ some r
inner_relay_message-split_relay_chain m q r rs h =
    let (is_request, (f, e, more)) = (split_relay_chain_iff m q (r ∷ rs)).0 h in
    inner_relay_message-Relays r rs m f more
    ∙ inner_relay_message-relayed r q f e
    ∙ inner_relay_of-request q r is_request
