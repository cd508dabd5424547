-- ===== src/Bundle.antt =====
-- dhcpkit/ipv6/server/transaction_bundle.py: the state of one transaction between the server and a
-- client. The data that handlers keep in it for themselves is not modelled.
pub mod Outgoing
pub mod Links
use dhcpkit.Prelude.{
  ℕ, Bool, true, false, Option, none, some, List, [], ◌∷◌, length, map, ltb, leb, ◌==◌, any, not,
  ◌&&◌, ◌||◌, if◌then◌else◌,
}
use dhcpkit.Wire.{Result, ok, ◌>>◌, require}
use dhcpkit.Address.{Address, any_address, is_unspecified, is_loopback, is_link_local}
use dhcpkit.Element.{
  Message, unknown_message, client_server, relay_server, relay_forward, relay_reply,
  ClientServerClass, solicit, advertise, request, confirm, renew, rebind, reply, release, decline,
  reconfigure, information_request, DhcpOption, Options, nil, cons, OptionClass,
}
use dhcpkit.Element.Access.{has_class, keep_options, join, contains, options_of}
use dhcpkit.Element.Validate.{equal_bytes}
use dhcpkit.Utf8.{Text}
use dhcpkit.Relay.{split_relay_chain, set_relayed_message}
use dhcpkit.Relay.Wrap.{create_outgoing_relay_messages}

-- `responses` is what iterating over the MessagesList gives: the first message and the subsequent
-- ones.
pub record Bundle : Type 0 where
  pub incoming_message : Message
  pub received_over_multicast : Bool
  pub received_over_tcp : Bool
  pub allow_unicast : Bool
  pub allow_rapid_commit : Bool
  pub client_request : Option Message
  pub incoming_relay_messages : List Message
  pub responses : List Message
  pub outgoing_relay_messages : Option (List Message)
  pub handled_options : Options
  pub marks : List Text

-- The state that TransactionBundle.__init__ sets up when it is given no marks.
abbrev pub started : Message → Bool → Bool → Bool → Bundle
started message multicast tcp rapid_commit = record {
  incoming_message = message;
  received_over_multicast = multicast;
  received_over_tcp = tcp;
  allow_unicast = false;
  allow_rapid_commit = rapid_commit;
  client_request = (split_relay_chain message).0;
  incoming_relay_messages = (split_relay_chain message).1;
  responses = [];
  outgoing_relay_messages = none;
  handled_options = nil;
  marks = [];
}

-- TransactionBundle.__init__, which raises a ValueError for further relay messages over TCP.
unfoldable pub new_bundle : Message → Bool → Bool → Bool → Result Bundle
new_bundle message multicast tcp rapid_commit = do
  require (not (tcp && ltb 1 (length (split_relay_chain message).1)))
  ok (started message multicast tcp rapid_commit)

-- The property response: the first one.
abbrev pub response : List Message → Option Message
response [] = none
response (r ∷ _) = some r

abbrev pub overwrite_first : Option Message → List Message → List Message
overwrite_first none rs = []
overwrite_first (some r) [] = r ∷ []
overwrite_first (some r) (_ ∷ rs) = r ∷ rs

-- The setter of response.
unfoldable pub set_response : Option Message → Bundle → Bundle
set_response r b = record b { responses = overwrite_first r b.responses }

-- mark_handled
unfoldable pub mark_handled : DhcpOption → Bundle → Bundle
unfolding contains join
mark_handled o b =
    if contains o b.handled_options
    then b
    else record b { handled_options = join b.handled_options (cons o nil) }

-- The options of the request; without a request the code raises an AttributeError.
abbrev pub unhandled_among : List OptionClass → Options → Options → Options
unhandled_among classes handled os =
    keep_options (λ o. has_class classes o && not (contains o handled)) os

-- get_unhandled_options, for a request
unfoldable pub get_unhandled_options : List OptionClass → Message → Bundle → Options
unfolding keep_options contains
get_unhandled_options classes asked b = unhandled_among classes b.handled_options (options_of asked)

-- The characters that str.strip removes.
abbrev is_space : ℕ → Bool
is_space c =
    (leb 9 c && leb c 13)
    || (leb 28 c && leb c 32)
    || (leb 8192 c && leb c 8202)
    || any (λ d. c == d) (133 ∷ 160 ∷ 5760 ∷ 8232 ∷ 8233 ∷ 8239 ∷ 8287 ∷ 12288 ∷ [])

abbrev strip_left : Text → Text
strip_left [] = []
strip_left (c ∷ cs) = if is_space c then strip_left cs else c ∷ cs

abbrev strip_right : Text → Text
strip_right [] = []
strip_right (c ∷ cs) = elim (strip_right cs) [
  | [] ↦ if is_space c then [] else c ∷ []
  | d ∷ ds ↦ c ∷ d ∷ ds
]

abbrev pub has_mark : Text → List Text → Bool
has_mark m [] = false
has_mark m (n ∷ ns) = equal_bytes m n || has_mark m ns

-- add_mark, on the marks as a list in which each stands once
unfoldable pub add_mark : Text → Bundle → Bundle
add_mark m b =
    let stripped = strip_right (strip_left m) in
    if has_mark stripped b.marks then b else record b { marks = stripped ∷ b.marks }

abbrev pub link_of : Message → Address
link_of (relay_server c h l p os) = l
link_of _ = any_address

-- The property relays.
unfoldable pub link_addresses : List Message → List Address
link_addresses [] = []
link_addresses (r ∷ rs) =
    let others = link_addresses rs in
    if is_unspecified (link_of r) then others else link_of r ∷ others

-- The class attribute from_server_to_client.
abbrev pub from_server_to_client : Message → Bool
from_server_to_client (client_server advertise i os) = true
from_server_to_client (client_server reply i os) = true
from_server_to_client (client_server reconfigure i os) = true
from_server_to_client (client_server _ i os) = false
from_server_to_client (relay_server relay_reply h l p os) = true
from_server_to_client (relay_server relay_forward h l p os) = false
from_server_to_client (unknown_message t d) = false

abbrev pub peer_of : Message → Address
peer_of (relay_server c h l p os) = p
peer_of _ = any_address

-- A link address that says where the client is.
abbrev pub is_useful : Address → Bool
is_useful a = not (is_unspecified a) && (not (is_loopback a) && not (is_link_local a))

unfoldable pub first_useful : List Message → Address
first_useful [] = any_address
first_useful (r ∷ rs) =
    let others = first_useful rs in if is_useful (link_of r) then link_of r else others

abbrev pub last_peer : Message → List Message → Address
last_peer r [] = peer_of r
last_peer r (s ∷ rs) = last_peer s rs

-- The property link_address. Over TCP with no relay message the code raises an IndexError.
unfoldable pub link_address : Bundle → Option Address
unfolding first_useful
link_address b =
    if b.received_over_tcp
    then elim b.incoming_relay_messages [ [] ↦ none | r ∷ rs ↦ some (last_peer r rs) ]
    else some (first_useful b.incoming_relay_messages)

-- The outgoing relay messages from the one closest to the client, when that one gets `message` to
-- relay. Each other one holds the one before it, the same object, and so changes with it.
unfoldable pub relink : Message → List Message → List Message
unfolding set_relayed_message
relink message [] = []
relink message (r ∷ rs) = set_relayed_message message r ∷ relink (set_relayed_message message r) rs

abbrev pub last_or : Message → List Message → Message
last_or m [] = m
last_or m (r ∷ rs) = last_or r rs

-- The loop of outgoing_messages: the messages that the generator yields, each as it is at that
-- moment.
unfoldable pub send_responses : List Message → List Message → List Message
unfolding relink
send_responses chain [] = []
send_responses chain (r ∷ rs) =
    let sent = last_or r (relink r chain) ∷ send_responses (relink r chain) rs in
    let skipped = send_responses chain rs in if from_server_to_client r then sent else skipped

abbrev pub chain_or : List Message → Option (List Message) → List Message
chain_or created none = created
chain_or created (some []) = created
chain_or created (some (r ∷ rs)) = r ∷ rs

-- The property outgoing_messages: the relay messages are created where there are none yet. Without a
-- response the code creates them too, and sends nothing.
unfoldable pub outgoing_messages : Bundle → List Message
unfolding send_responses create_outgoing_relay_messages
outgoing_messages b = elim b.responses [
  | [] ↦ []
  | r ∷ rs ↦
      send_responses
        (chain_or (create_outgoing_relay_messages b.incoming_relay_messages r)
          b.outgoing_relay_messages)
        (r ∷ rs)
]

-- The property outgoing_message.
unfoldable pub outgoing_message : Bundle → Option Message
unfolding outgoing_messages
outgoing_message b = response (outgoing_messages b)
