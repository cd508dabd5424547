-- ===== src/Server/Mirrors.antt =====
-- dhcpkit/ipv6/server/handlers/__init__.py (RelayHandler) and handlers/basic_relay.py: the replies to the
-- relay messages keep their hop counts and addresses.
use dhcpkit.Prelude.{List, [], ◌∷◌, Option, none, some, inl, inr, Bool-cases}
use dhcpkit.Element.{
  Options, Message, unknown_message, client_server, relay_server, relay_forward, relay_reply,
  OptionClass,
}
use dhcpkit.Element.Access.{may_contain}
use dhcpkit.Relay.{set_relayed_message}
use dhcpkit.Handler.{with_options}
use dhcpkit.Handler.Chains.{relink_one, handle_relays, copy_relay_option}
use dhcpkit.Server.Answers.{IsMirror, Mirrors}

with_options-IsMirror :
    (i o : Message) (os : Options) → IsMirror i o → IsMirror i (with_options os o)
with_options-IsMirror (relay_server relay_forward h l p xs) (relay_server relay_reply k m q ps) os
      r =
    r
with_options-IsMirror (relay_server relay_forward h l p xs) (relay_server relay_forward k m q ps) os
      r =
    absurd r
with_options-IsMirror (relay_server relay_reply h l p xs) o os r = absurd r
with_options-IsMirror (client_server c i xs) o os r = absurd r
with_options-IsMirror (unknown_message t d) o os r = absurd r
with_options-IsMirror (relay_server relay_forward h l p xs) (client_server c i ps) os r = absurd r
with_options-IsMirror (relay_server relay_forward h l p xs) (unknown_message t d) os r = absurd r

pub set_relayed_message-IsMirror :
    (i o m : Message) → IsMirror i o → IsMirror i (set_relayed_message m o)
unfolding set_relayed_message
set_relayed_message-IsMirror i (relay_server c h l p os) m r =
    with_options-IsMirror i (relay_server c h l p os) _ r
set_relayed_message-IsMirror i (client_server c j os) m r = r
set_relayed_message-IsMirror i (unknown_message t d) m r = r

relink_one-IsMirror :
    (i o : Message) (before : Option Message) → IsMirror i o → IsMirror i (relink_one before o)
unfolding relink_one
relink_one-IsMirror i o none r = r
relink_one-IsMirror i o (some m) r = set_relayed_message-IsMirror i o m r

pub handle_relays-Mirrors :
    (handle_relay : Message → Message → Message)
    → ((i o : Message) → IsMirror i o → IsMirror i (handle_relay i o))
    → (before : Option Message) (is os : List Message) → Mirrors is os
    → Mirrors is (handle_relays handle_relay before is os)
unfolding handle_relays
handle_relays-Mirrors f k before [] [] r = tt
handle_relays-Mirrors f k before (i ∷ is) (o ∷ os) (r, rs) = (
  k i (relink_one before o) (relink_one-IsMirror i o before r),
  handle_relays-Mirrors f k (some (f i (relink_one before o))) is os rs,
)
handle_relays-Mirrors f k before [] (o ∷ os) r = absurd r
handle_relays-Mirrors f k before (i ∷ is) [] r = absurd r

pub copy_relay_option-IsMirror :
    (c : OptionClass) (i o : Message) → IsMirror i o → IsMirror i (copy_relay_option c i o)
unfolding copy_relay_option
copy_relay_option-IsMirror c i o r = elim (Bool-cases (may_contain o c)) [
  | inl e ↦ rw e (with_options-IsMirror i o _ r)
  | inr e ↦ rw e r
]
