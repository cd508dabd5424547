-- ===== src/Extension.antt =====
-- dhcpkit/ipv6/extensions: the option classes of the extensions that hold no options, no domain names
-- and no text, with their type codes. `Extension.Load` has their `load_from`, `Extension.Save` their
-- `save` and `Extension.Validate` their `validate`.
pub mod Load
pub mod Save
pub mod Validate
pub mod Addresses
pub mod Body
pub mod Ends
pub mod RoundTrip
pub mod Saves
use dhcpkit.Prelude.{ℕ, List}
use dhcpkit.Wire.{Bytes}
use dhcpkit.Address.{Address}
use dhcpkit.Duid.{Duid}

pub data Extension : Type 0 where
  sip_servers dns_servers sntp_servers : List Address → Extension
  remote_id : ℕ → Bytes → Extension
  subscriber_id : Bytes → Extension
  echo_request : List ℕ → Extension
  clt_time : ℕ → Extension
  client_link : List Address → Extension
  relay_id : Duid → Extension
  pd_exclude : ℕ → Bytes → Extension
  link_layer_id : ℕ → Bytes → Extension
  sol_max_rt inf_max_rt : ℕ → Extension

pub data ExtensionClass : Type 0 where
  sip_servers_option dns_servers_option sntp_servers_option remote_id_option : ExtensionClass
  subscriber_id_option echo_request_option clt_time_option client_link_option : ExtensionClass
  relay_id_option pd_exclude_option link_layer_id_option sol_max_rt_option : ExtensionClass
  inf_max_rt_option : ExtensionClass

-- type(option)
abbrev pub class_of : Extension → ExtensionClass
class_of (sip_servers xs) = sip_servers_option
class_of (dns_servers xs) = dns_servers_option
class_of (sntp_servers xs) = sntp_servers_option
class_of (remote_id n i) = remote_id_option
class_of (subscriber_id i) = subscriber_id_option
class_of (echo_request os) = echo_request_option
class_of (clt_time t) = clt_time_option
class_of (client_link xs) = client_link_option
class_of (relay_id d) = relay_id_option
class_of (pd_exclude l i) = pd_exclude_option
class_of (link_layer_id t a) = link_layer_id_option
class_of (sol_max_rt t) = sol_max_rt_option
class_of (inf_max_rt t) = inf_max_rt_option

-- The class attribute option_type.
abbrev pub type_of_class : ExtensionClass → ℕ
type_of_class sip_servers_option = 22
type_of_class dns_servers_option = 23
type_of_class sntp_servers_option = 31
type_of_class remote_id_option = 37
type_of_class subscriber_id_option = 38
type_of_class echo_request_option = 43
type_of_class clt_time_option = 46
type_of_class client_link_option = 48
type_of_class relay_id_option = 53
type_of_class pd_exclude_option = 67
type_of_class link_layer_id_option = 79
type_of_class sol_max_rt_option = 82
type_of_class inf_max_rt_option = 83

abbrev pub type_of : Extension → ℕ
type_of e = type_of_class (class_of e)
