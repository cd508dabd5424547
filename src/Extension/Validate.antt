-- ===== src/Extension/Validate.antt =====
-- dhcpkit/ipv6/extensions: `validate` of the option classes without nested options. The checks of
-- Python types are what the model's types say.
use dhcpkit.Prelude.{ℕ, ◌^◌, ◌-◌, Bool, not, List, ◌&&◌, ◌||◌, length, all, ltb, leb}
use dhcpkit.Wire.{Bytes, Result, ok, ◌>>◌, require}
use dhcpkit.Address.{Address, is_link_local, is_loopback, is_multicast, is_unspecified}
use dhcpkit.Duid.{Duid, validate_duid}
use dhcpkit.Extension.{Extension}

abbrev is_routable : Address → Bool
is_routable a = not (is_link_local a || (is_loopback a || (is_multicast a || is_unspecified a)))

abbrev is_link_address : Address → Bool
is_link_address a = not (is_loopback a || (is_multicast a || is_unspecified a))

unfoldable pub validate_sip_servers : List Address → Result (Unit {0})
validate_sip_servers sip_servers = require (all is_routable sip_servers)

-- Only the types are checked.
unfoldable pub validate_dns_servers : List Address → Result (Unit {0})
validate_dns_servers dns_servers = ok tt

unfoldable pub validate_sntp_servers : List Address → Result (Unit {0})
validate_sntp_servers sntp_servers = require (all is_routable sntp_servers)

unfoldable pub validate_remote_id : ℕ → Bytes → Result (Unit {0})
validate_remote_id enterprise_number remote_id = do
  require (ltb enterprise_number (2 ^ 32))
  require (ltb (length remote_id) (2 ^ 16))

unfoldable pub validate_subscriber_id : Bytes → Result (Unit {0})
validate_subscriber_id subscriber_id = require (leb (length subscriber_id) (2 ^ 16 - 1))

unfoldable pub validate_echo_request : List ℕ → Result (Unit {0})
validate_echo_request requested_options = require (all (λ c. ltb c (2 ^ 16)) requested_options)

unfoldable pub validate_clt_time : ℕ → Result (Unit {0})
validate_clt_time clt_time = require (ltb clt_time (2 ^ 32))

unfoldable pub validate_client_link : List Address → Result (Unit {0})
validate_client_link link_addresses = require (all is_link_address link_addresses)

unfoldable pub validate_relay_id : Duid → Result (Unit {0})
validate_relay_id duid = validate_duid duid

unfoldable pub validate_pd_exclude : ℕ → Bytes → Result (Unit {0})
validate_pd_exclude prefix_length subnet_id = do
  require (leb 1 prefix_length && leb prefix_length 128)
  require (leb 1 (length subnet_id) && leb (length subnet_id) 16)

unfoldable pub validate_link_layer_id : ℕ → Bytes → Result (Unit {0})
validate_link_layer_id link_layer_type link_layer_address = do
  require (ltb link_layer_type (2 ^ 16))
  require (leb (length link_layer_address) (2 ^ 16 - 3))

unfoldable pub validate_sol_max_rt : ℕ → Result (Unit {0})
validate_sol_max_rt sol_max_rt = require (ltb sol_max_rt (2 ^ 32))

unfoldable pub validate_inf_max_rt : ℕ → Result (Unit {0})
validate_inf_max_rt inf_max_rt = require (ltb inf_max_rt (2 ^ 32))

unfoldable pub validate_extension : Extension → Result (Unit {0})
validate_extension (Extension.sip_servers xs) = validate_sip_servers xs
validate_extension (Extension.dns_servers xs) = validate_dns_servers xs
validate_extension (Extension.sntp_servers xs) = validate_sntp_servers xs
validate_extension (Extension.remote_id n i) = validate_remote_id n i
validate_extension (Extension.subscriber_id i) = validate_subscriber_id i
validate_extension (Extension.echo_request os) = validate_echo_request os
validate_extension (Extension.clt_time t) = validate_clt_time t
validate_extension (Extension.client_link xs) = validate_client_link xs
validate_extension (Extension.relay_id d) = validate_relay_id d
validate_extension (Extension.pd_exclude l i) = validate_pd_exclude l i
validate_extension (Extension.link_layer_id t a) = validate_link_layer_id t a
validate_extension (Extension.sol_max_rt t) = validate_sol_max_rt t
validate_extension (Extension.inf_max_rt t) = validate_inf_max_rt t
