-- ===== src/Leaf.antt =====
-- dhcpkit/ipv6/options.py: the option classes that hold neither options nor a message, with their
-- type codes; those of the extensions are one case (`Extension`). `Leaf.Load` has their `load_from`,
-- `Leaf.Save` their `save` and `Leaf.Validate` their `validate`.
pub mod Load
pub mod Save
pub mod Validate
pub mod Ends
pub mod Body
pub mod Strings
pub mod RoundTrip
pub mod Saves
use dhcpkit.Prelude.{ℕ, List}
use dhcpkit.Wire.{Bytes}
use dhcpkit.Address.{Address}
use dhcpkit.Utf8.{Text}
use dhcpkit.Duid.{Duid}
use dhcpkit.Extension
use dhcpkit.Extension.{Extension, ExtensionClass}

pub data Leaf : Type 0 where
  unknown : ℕ → Bytes → Leaf
  client_id server_id : Duid → Leaf
  option_request : List ℕ → Leaf
  preference elapsed_time : ℕ → Leaf
  authentication : ℕ → ℕ → ℕ → Bytes → Bytes → Leaf
  server_unicast : Address → Leaf
  status_code : ℕ → Text → Leaf
  rapid_commit : Leaf
  user_class : List Bytes → Leaf
  vendor_class : ℕ → List Bytes → Leaf
  vendor_specific_information : ℕ → List (ℕ × Bytes) → Leaf
  interface_id : Bytes → Leaf
  reconfigure_message : ℕ → Leaf
  reconfigure_accept : Leaf
  extension : Extension → Leaf

pub data LeafClass : Type 0 where
  unknown_option client_id_option server_id_option option_request_option preference_option :
      LeafClass
  elapsed_time_option authentication_option server_unicast_option status_code_option : LeafClass
  rapid_commit_option user_class_option vendor_class_option : LeafClass
  vendor_specific_information_option interface_id_option reconfigure_message_option : LeafClass
  reconfigure_accept_option : LeafClass
  extension_option : ExtensionClass → LeafClass

-- type(option)
abbrev pub class_of : Leaf → LeafClass
class_of (unknown t d) = unknown_option
class_of (client_id d) = client_id_option
class_of (server_id d) = server_id_option
class_of (option_request os) = option_request_option
class_of (preference p) = preference_option
class_of (elapsed_time t) = elapsed_time_option
class_of (authentication p a r d i) = authentication_option
class_of (server_unicast a) = server_unicast_option
class_of (status_code c m) = status_code_option
class_of rapid_commit = rapid_commit_option
class_of (user_class cs) = user_class_option
class_of (vendor_class n cs) = vendor_class_option
class_of (vendor_specific_information n os) = vendor_specific_information_option
class_of (interface_id i) = interface_id_option
class_of (reconfigure_message t) = reconfigure_message_option
class_of reconfigure_accept = reconfigure_accept_option
class_of (extension x) = extension_option (Extension.class_of x)

-- The class attribute option_type; UnknownOption keeps its own in the instance.
abbrev pub type_of_class : LeafClass → ℕ
type_of_class unknown_option = 0
type_of_class client_id_option = 1
type_of_class server_id_option = 2
type_of_class option_request_option = 6
type_of_class preference_option = 7
type_of_class elapsed_time_option = 8
type_of_class authentication_option = 11
type_of_class server_unicast_option = 12
type_of_class status_code_option = 13
type_of_class rapid_commit_option = 14
type_of_class user_class_option = 15
type_of_class vendor_class_option = 16
type_of_class vendor_specific_information_option = 17
type_of_class interface_id_option = 18
type_of_class reconfigure_message_option = 19
type_of_class reconfigure_accept_option = 20
type_of_class (extension_option c) = Extension.type_of_class c

-- option.option_type
abbrev pub type_of : Leaf → ℕ
type_of (unknown t d) = t
type_of l = type_of_class (class_of l)
