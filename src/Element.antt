-- ===== src/Element.antt =====
-- dhcpkit/ipv6/options.py, dhcpkit/ipv6/extensions/prefix_delegation.py, dhcpkit/ipv6/messages.py:
-- the options and the messages, which hold one another, their classes and their registries.
-- `Element.Load` has `load_from`, `Element.Parse` the parsers that tie the knot, `Element.Save` has
-- `save`.
pub mod Load
pub mod Parse
pub mod Save
pub mod Classes
pub mod Sizes
pub mod Access
pub mod Proper
pub mod Total
pub mod Steps
pub mod RoundTrip
pub mod Contains
pub mod Tables
pub mod Validate
pub mod Occurrences
pub mod Iaids
pub mod Writes
pub mod Validated
use dhcpkit.Prelude.{ℕ, Bool, true, false, List, [], ◌∷◌, ◌==◌, if◌then◌else◌}
use dhcpkit.Wire.{Bytes}
use dhcpkit.Address.{Address}
use dhcpkit.Extension
use dhcpkit.Extension.{ExtensionClass}
use dhcpkit.Leaf
use dhcpkit.Leaf.{Leaf, LeafClass}

-- The subclasses of ClientServerMessage.
pub data ClientServerClass : Type 0 where
  solicit advertise request confirm renew rebind reply : ClientServerClass
  release decline reconfigure information_request : ClientServerClass

-- The subclasses of RelayServerMessage.
pub data RelayClass : Type 0 where
  relay_forward relay_reply : RelayClass

mutual
  pub data DhcpOption : Type 0 where
    leaf : Leaf → DhcpOption
    ia_na : Bytes → ℕ → ℕ → Options → DhcpOption
    ia_ta : Bytes → Options → DhcpOption
    ia_address : Address → ℕ → ℕ → Options → DhcpOption
    ia_pd : Bytes → ℕ → ℕ → Options → DhcpOption
    ia_prefix : Address → ℕ → ℕ → ℕ → Options → DhcpOption
    relay_message : Message → DhcpOption

  pub data Options : Type 0 where
    nil : Options
    cons : DhcpOption → Options → Options

  pub data Message : Type 0 where
    unknown_message : ℕ → Bytes → Message
    client_server : ClientServerClass → Bytes → Options → Message
    relay_server : RelayClass → ℕ → Address → Address → Options → Message

pub data OptionClass : Type 0 where
  leaf_class : LeafClass → OptionClass
  ia_na_option ia_ta_option ia_address_option ia_pd_option ia_prefix_option : OptionClass
  relay_message_option : OptionClass

pub data MessageClass : Type 0 where
  unknown_class : MessageClass
  client_server_class : ClientServerClass → MessageClass
  relay_class : RelayClass → MessageClass

-- Entry points: a type code and the class that is registered for it.
abbrev pub Registry {ℓ} : Type ℓ → Type ℓ
Registry C = List (ℕ × C)

-- registry.get(code, default)
abbrev pub get {ℓ} : {C : Type ℓ} → Registry C → ℕ → C → C
get [] code default = default
get ((c, k) ∷ r) code default = if c == code then k else get r code default

abbrev pub extension_class : ExtensionClass → OptionClass
extension_class c = leaf_class (Leaf.extension_option c)

-- The entry points of setup.py for the option classes that are modelled.
abbrev pub option_entries : Registry OptionClass
option_entries =
    (1, leaf_class Leaf.client_id_option)
    ∷ (2, leaf_class Leaf.server_id_option)
    ∷ (3, ia_na_option)
    ∷ (4, ia_ta_option)
    ∷ (5, ia_address_option)
    ∷ (6, leaf_class Leaf.option_request_option)
    ∷ (7, leaf_class Leaf.preference_option)
    ∷ (8, leaf_class Leaf.elapsed_time_option)
    ∷ (9, relay_message_option)
    ∷ (11, leaf_class Leaf.authentication_option)
    ∷ (12, leaf_class Leaf.server_unicast_option)
    ∷ (13, leaf_class Leaf.status_code_option)
    ∷ (14, leaf_class Leaf.rapid_commit_option)
    ∷ (15, leaf_class Leaf.user_class_option)
    ∷ (16, leaf_class Leaf.vendor_class_option)
    ∷ (17, leaf_class Leaf.vendor_specific_information_option)
    ∷ (18, leaf_class Leaf.interface_id_option)
    ∷ (19, leaf_class Leaf.reconfigure_message_option)
    ∷ (20, leaf_class Leaf.reconfigure_accept_option)
    ∷ (22, extension_class Extension.sip_servers_option)
    ∷ (23, extension_class Extension.dns_servers_option)
    ∷ (25, ia_pd_option)
    ∷ (26, ia_prefix_option)
    ∷ (31, extension_class Extension.sntp_servers_option)
    ∷ (37, extension_class Extension.remote_id_option)
    ∷ (38, extension_class Extension.subscriber_id_option)
    ∷ (43, extension_class Extension.echo_request_option)
    ∷ (46, extension_class Extension.clt_time_option)
    ∷ (48, extension_class Extension.client_link_option)
    ∷ (53, extension_class Extension.relay_id_option)
    ∷ (67, extension_class Extension.pd_exclude_option)
    ∷ (79, extension_class Extension.link_layer_id_option)
    ∷ (82, extension_class Extension.sol_max_rt_option)
    ∷ (83, extension_class Extension.inf_max_rt_option)
    ∷ []

unfoldable pub option_registry : ℕ → OptionClass
option_registry code = get option_entries code (leaf_class Leaf.unknown_option)

abbrev pub message_entries : Registry MessageClass
message_entries =
    (1, client_server_class solicit)
    ∷ (2, client_server_class advertise)
    ∷ (3, client_server_class request)
    ∷ (4, client_server_class confirm)
    ∷ (5, client_server_class renew)
    ∷ (6, client_server_class rebind)
    ∷ (7, client_server_class reply)
    ∷ (8, client_server_class release)
    ∷ (9, client_server_class decline)
    ∷ (10, client_server_class reconfigure)
    ∷ (11, client_server_class information_request)
    ∷ (12, relay_class relay_forward)
    ∷ (13, relay_class relay_reply)
    ∷ []

unfoldable pub message_registry : ℕ → MessageClass
message_registry code = get message_entries code unknown_class

-- The class attributes message_type.
abbrev pub client_server_type : ClientServerClass → ℕ
client_server_type solicit = 1
client_server_type advertise = 2
client_server_type request = 3
client_server_type confirm = 4
client_server_type renew = 5
client_server_type rebind = 6
client_server_type reply = 7
client_server_type release = 8
client_server_type decline = 9
client_server_type reconfigure = 10
client_server_type information_request = 11

abbrev pub relay_type : RelayClass → ℕ
relay_type relay_forward = 12
relay_type relay_reply = 13
