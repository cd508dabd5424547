-- ===== src/Relay/Chain.antt =====
-- `split_relay_chain` takes a message apart along its relay messages, and loses nothing.
use dhcpkit.Prelude.{
  ◌≡◌, refl, subst, ◌∙◌, ◌↔◌, append-nil, true, Option, none, some, List, [], ◌∷◌, ◌++◌, Bool-cases,
  inl, inr,
}
use dhcpkit.Element.{
  leaf, ia_na, ia_ta, ia_address, ia_pd, ia_prefix, relay_message, Options, nil, cons, Message,
  unknown_message, client_server, relay_server, relay_forward, relay_reply,
}
use dhcpkit.Relay.{
  first_relayed, relayed_message, from_client_to_server, split_from, split_within,
  split_relay_chain,
}

-- A request: a message of a class that clients send.
abbrev pub IsRequest : Message → Type 0
IsRequest (client_server c i os) = from_client_to_server c ≡ true
IsRequest _ = ⊥

abbrev pub IsForward : Message → Type 0
IsForward (relay_server relay_forward h l p os) = Unit
IsForward _ = ⊥

-- From the inside out: each relay message is a RelayForwardMessage that relays the one before it,
-- the first of them relays `inner`, and `outer` is the last one.
abbrev pub Relays : Message → List Message → Message → Type 0
Relays inner [] outer = inner ≡ outer
Relays inner (r ∷ rs) outer = IsForward r × (relayed_message r ≡ some inner) × Relays r rs outer

-- What is found so far leads from `message` to `outer`.
abbrev Splits : Option Message × List Message → Message → Type 0
Splits (none, relays) outer = relays ≡ []
Splits (some r, relays) outer = IsRequest r × Relays r relays outer

mutual
  unfolding split_from relayed_message

  split_from-Splits :
      (m : Message) (relays : List Message) (outer : Message)
      → Relays m relays outer
      → Splits (split_from m relays) outer
  split_from-Splits (relay_server relay_forward h l p os) relays outer r =
      split_within-Splits os (relay_server relay_forward h l p os) relays outer tt refl r
  split_from-Splits (relay_server relay_reply h l p os) relays outer r = refl
  split_from-Splits (unknown_message t d) relays outer r = refl
  split_from-Splits (client_server c i os) relays outer r =
      elim (Bool-cases (from_client_to_server c)) [ inl e ↦ rw e (e, r) | inr e ↦ rw e refl ]

  split_within-Splits :
      (os : Options) (m : Message) (relays : List Message) (outer : Message)
      → IsForward m
      → relayed_message m ≡ first_relayed os
      → Relays m relays outer
      → Splits (split_within os (m ∷ relays)) outer
  split_within-Splits nil m relays outer f e r = refl
  split_within-Splits (cons (relay_message n) os) m relays outer f e r =
      split_from-Splits n (m ∷ relays) outer (f, e, r)
  split_within-Splits (cons (leaf l) os) m relays outer f e r =
      split_within-Splits os m relays outer f e r
  split_within-Splits (cons (ia_na i t u q) os) m relays outer f e r =
      split_within-Splits os m relays outer f e r
  split_within-Splits (cons (ia_ta i q) os) m relays outer f e r =
      split_within-Splits os m relays outer f e r
  split_within-Splits (cons (ia_address a v w q) os) m relays outer f e r =
      split_within-Splits os m relays outer f e r
  split_within-Splits (cons (ia_pd i t u q) os) m relays outer f e r =
      split_within-Splits os m relays outer f e r
  split_within-Splits (cons (ia_prefix a k v w q) os) m relays outer f e r =
      split_within-Splits os m relays outer f e r

-- The search for the relayed message goes on with what `relayed_message` finds.
split_within-first :
    (os : Options) (n : Message) (relays : List Message)
    → first_relayed os ≡ some n
    → split_within os relays ≡ split_from n relays
unfolding first_relayed split_from
split_within-first nil n relays e = cc
split_within-first (cons (relay_message m) os) n relays e = cc
split_within-first (cons (leaf l) os) n relays e = split_within-first os n relays e
split_within-first (cons (ia_na i t u q) os) n relays e = split_within-first os n relays e
split_within-first (cons (ia_ta i q) os) n relays e = split_within-first os n relays e
split_within-first (cons (ia_address a v w q) os) n relays e = split_within-first os n relays e
split_within-first (cons (ia_pd i t u q) os) n relays e = split_within-first os n relays e
split_within-first (cons (ia_prefix a k v w q) os) n relays e = split_within-first os n relays e

split_from-forward :
    (r inner : Message) (relays : List Message)
    → IsForward r
    → relayed_message r ≡ some inner
    → split_from r relays ≡ split_from inner (r ∷ relays)
unfolding split_from relayed_message
split_from-forward (relay_server relay_forward h l p os) inner relays f e =
    split_within-first os inner (relay_server relay_forward h l p os ∷ relays) e
split_from-forward (relay_server relay_reply h l p os) inner relays f e = absurd f
split_from-forward (client_server c i os) inner relays f e = absurd f
split_from-forward (unknown_message t d) inner relays f e = absurd f

split_from-Relays :
    (inner : Message) (rs : List Message) (outer : Message) (relays : List Message)
    → Relays inner rs outer
    → split_from outer relays ≡ split_from inner (rs ++ relays)
split_from-Relays inner [] outer relays e = rw e
split_from-Relays inner (r ∷ rs) outer relays (f, e, more) =
    split_from-Relays r rs outer relays more ∙ split_from-forward r inner (rs ++ relays) f e

split_from-request :
    (q : Message) (relays : List Message) → IsRequest q → split_from q relays ≡ (some q, relays)
unfolding split_from
split_from-request (client_server c i os) relays h = rw h
split_from-request (relay_server c h l p os) relays n = absurd n
split_from-request (unknown_message t d) relays n = absurd n

-- split_relay_chain returns a request and relay messages exactly when the request is one that
-- clients send and the list leads from it to the message through RelayForwardMessages, each
-- relaying the one before it.
pub split_relay_chain_iff :
    (m q : Message) (rs : List Message)
    → (split_relay_chain m ≡ (some q, rs)) ↔ (IsRequest q × Relays q rs m)
unfolding split_relay_chain
split_relay_chain_iff m q rs = (
  λ e. subst (λ r. Splits r m) e (split_from-Splits m [] m refl),
  λ (h, relays). split_from-Relays q rs m [] relays ∙ rw append-nil (split_from-request q rs h),
)
