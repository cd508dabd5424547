-- ===== src/Handler/Chains.antt =====
-- dhcpkit/ipv6/server/handlers/__init__.py (RelayHandler), handlers/basic_relay.py and
-- handlers/interface_id.py: options of the relay messages.
use dhcpkit.Prelude.{Option, none, some, List, [], ◌∷◌, ◌==◌, length, if◌then◌else◌}
use dhcpkit.Leaf
use dhcpkit.Element.{Message, leaf_class, OptionClass}
use dhcpkit.Element.Access.{get_options_of_type, without, join, options_of, may_contain}
use dhcpkit.Relay.{set_relayed_message}
use dhcpkit.Bundle.{Bundle}
use dhcpkit.Handler.{Outcome, done, Handler, idle, with_options}

-- A change of one relay message is seen in the message that relays it, which refers to it.
unfoldable pub relink_one : Option Message → Message → Message
unfolding set_relayed_message
relink_one none out = out
relink_one (some changed) out = set_relayed_message changed out

-- The loop of RelayHandler.handle, with handle_relay for an incoming and an outgoing message.
unfoldable pub handle_relays :
    (Message → Message → Message) → Option Message → List Message → List Message → List Message
unfolding set_relayed_message
handle_relays handle_relay before (i ∷ is) (o ∷ os) =
    handle_relay i (relink_one before o)
    ∷ handle_relays handle_relay (some (handle_relay i (relink_one before o))) is os
handle_relays handle_relay before [] os = os
handle_relays handle_relay before (i ∷ is) [] = []

unfoldable pub handle_chain :
    (Message → Message → Message) → Option (List Message) → Bundle → Outcome Bundle
unfolding handle_relays
handle_chain handle_relay none b = done b
handle_chain handle_relay (some outgoing) b =
    if length b.incoming_relay_messages == length outgoing
    then done (record b {
      outgoing_relay_messages =
          some (handle_relays handle_relay none b.incoming_relay_messages outgoing);
    })
    else done b

-- RelayHandler.handle
unfoldable pub relay_handle : (Message → Message → Message) → Bundle → Outcome Bundle
unfolding handle_relays
relay_handle handle_relay b = handle_chain handle_relay b.outgoing_relay_messages b

-- CopyRelayOptionHandler.handle_relay
unfoldable pub copy_relay_option : OptionClass → Message → Message → Message
unfolding may_contain get_options_of_type without join
copy_relay_option c i o =
    if may_contain o c
    then with_options
        (join (get_options_of_type (c ∷ []) (options_of i)) (without c (options_of o))) o
    else o

abbrev pub interface_id_class : OptionClass
interface_id_class = leaf_class Leaf.interface_id_option

-- InterfaceIdOptionHandler
abbrev pub interface_id_handler : Handler
interface_id_handler = record idle { handle = relay_handle (copy_relay_option interface_id_class) }
