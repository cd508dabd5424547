-- ===== src/Extension/Load.antt =====
-- dhcpkit/ipv6/extensions: `load_from` of the option classes without nested options. Each returns the
-- number of bytes used and the option.
use dhcpkit.Prelude.{
  ℕ, zero, suc, ◌+◌, ◌-◌, ◌/◌, ◌%◌, Option, some, Bool, List, [], ◌∷◌, leb, ltb, ◌==◌,
  if◌then◌else◌, drop,
}
use dhcpkit.Wire.{
  Bytes, Result, ok, err, out_of_fuel, ◌>>=◌, ◌>>◌, require, slice, byte_at, unpack_u16, unpack_u32,
}
use dhcpkit.Wire.Codes.{unpack_u16s}
use dhcpkit.Address.{Address, ipv6_address}
use dhcpkit.Duid.{parse_duid}
use dhcpkit.Header.{max_u16, parse_option_header}
use dhcpkit.Extension
use dhcpkit.Extension.{Extension, ExtensionClass}

abbrev Load : Type 0
Load = Bytes → Option ℕ → Result (ℕ × Extension)

-- The loop of the options that list addresses, from `my_offset` to `max_offset`, while `continues`,
-- which takes the two: the addresses and the offset where it stops. Each round adds sixteen to the
-- offset, so `max_offset + 1` rounds are enough.
unfoldable pub load_addresses : (ℕ → ℕ → Bool) → ℕ → Bytes → ℕ → ℕ → Result (List Address × ℕ)
load_addresses continues zero view max_offset my_offset = err out_of_fuel
load_addresses continues (suc fuel) view max_offset my_offset =
    let more = do
      address ← ipv6_address (slice view my_offset 16)
      (addresses, stop) ← load_addresses continues fuel view max_offset (my_offset + 16)
      ok (address ∷ addresses, stop)
    in if continues max_offset my_offset then more else ok ([], my_offset)

-- max_offset > my_offset
abbrev pub below : ℕ → ℕ → Bool
below max_offset my_offset = ltb my_offset max_offset

-- max_offset >= my_offset + 16
abbrev pub fits_one : ℕ → ℕ → Bool
fits_one max_offset my_offset = leb (my_offset + 16) max_offset

-- The options that list servers, with their type code and their constructor.
unfoldable pub load_servers : ℕ → (List Address → Extension) → Load
load_servers option_type option view len = do
  (my_offset, option_len) ← parse_option_header option_type view len 0 max_u16
  require (option_len % 16 == 0)
  let max_offset = option_len + my_offset
  (servers, stop) ← load_addresses below (suc max_offset) view max_offset my_offset
  ok (stop, option servers)

abbrev pub load_sip_servers : Load
load_sip_servers = load_servers 22 Extension.sip_servers

abbrev pub load_dns_servers : Load
load_dns_servers = load_servers 23 Extension.dns_servers

abbrev pub load_sntp_servers : Load
load_sntp_servers = load_servers 31 Extension.sntp_servers

-- There is no minimal length: with less than four bytes of data the enterprise number is read beyond
-- the option, `remote_id_length` is negative and the slice is empty, and my_offset is back at the
-- option's end.
unfoldable pub load_remote_id : Load
load_remote_id view len = do
  (my_offset, option_len) ← parse_option_header 37 view len 0 max_u16
  enterprise_number ← unpack_u32 view my_offset
  let remote_id = slice view (my_offset + 4) (option_len - 4)
  ok (my_offset + 4 + option_len - 4, Extension.remote_id enterprise_number remote_id)

unfoldable pub load_subscriber_id : Load
load_subscriber_id view len = do
  (my_offset, option_len) ← parse_option_header 38 view len 0 max_u16
  ok (my_offset + option_len, Extension.subscriber_id (slice view my_offset option_len))

unfoldable pub load_echo_request : Load
load_echo_request view len = do
  (my_offset, option_len) ← parse_option_header 43 view len 0 max_u16
  require (option_len % 2 == 0)
  requested_options ← unpack_u16s (option_len / 2) (drop my_offset view)
  ok (my_offset + option_len, Extension.echo_request requested_options)

unfoldable pub load_clt_time : Load
load_clt_time view len = do
  (my_offset, option_len) ← parse_option_header 46 view len 4 4
  clt_time ← unpack_u32 view my_offset
  ok (my_offset + 4, Extension.clt_time clt_time)

unfoldable pub load_client_link : Load
load_client_link view len = do
  (my_offset, option_len) ← parse_option_header 48 view len 0 max_u16
  let max_offset = option_len + my_offset
  (link_addresses, stop) ← load_addresses fits_one (suc max_offset) view max_offset my_offset
  require (stop == max_offset)
  ok (stop, Extension.client_link link_addresses)

unfoldable pub load_relay_id : Load
load_relay_id view len = do
  (my_offset, option_len) ← parse_option_header 53 view len 2 max_u16
  (duid_len, duid) ← parse_duid (drop my_offset view) (some option_len)
  ok (my_offset + duid_len, Extension.relay_id duid)

unfoldable pub load_pd_exclude : Load
load_pd_exclude view len = do
  (my_offset, option_len) ← parse_option_header 67 view len 2 17
  prefix_length ← byte_at view my_offset
  let subnet_id_length = option_len - 1
  let subnet_id = slice view (my_offset + 1) subnet_id_length
  ok (my_offset + 1 + subnet_id_length, Extension.pd_exclude prefix_length subnet_id)

unfoldable pub load_link_layer_id : Load
load_link_layer_id view len = do
  (my_offset, option_len) ← parse_option_header 79 view len 2 max_u16
  link_layer_type ← unpack_u16 view my_offset
  let ll_len = option_len - 2
  let link_layer_address = slice view (my_offset + 2) ll_len
  ok (my_offset + 2 + ll_len, Extension.link_layer_id link_layer_type link_layer_address)

unfoldable pub load_sol_max_rt : Load
load_sol_max_rt view len = do
  (my_offset, option_len) ← parse_option_header 82 view len 0 max_u16
  require (option_len == 4)
  sol_max_rt ← unpack_u32 view my_offset
  ok (my_offset + 4, Extension.sol_max_rt sol_max_rt)

unfoldable pub load_inf_max_rt : Load
load_inf_max_rt view len = do
  (my_offset, option_len) ← parse_option_header 83 view len 0 max_u16
  require (option_len == 4)
  inf_max_rt ← unpack_u32 view my_offset
  ok (my_offset + 4, Extension.inf_max_rt inf_max_rt)

unfoldable pub load_extension : ExtensionClass → Load
load_extension Extension.sip_servers_option = load_sip_servers
load_extension Extension.dns_servers_option = load_dns_servers
load_extension Extension.sntp_servers_option = load_sntp_servers
load_extension Extension.remote_id_option = load_remote_id
load_extension Extension.subscriber_id_option = load_subscriber_id
load_extension Extension.echo_request_option = load_echo_request
load_extension Extension.clt_time_option = load_clt_time
load_extension Extension.client_link_option = load_client_link
load_extension Extension.relay_id_option = load_relay_id
load_extension Extension.pd_exclude_option = load_pd_exclude
load_extension Extension.link_layer_id_option = load_link_layer_id
load_extension Extension.sol_max_rt_option = load_sol_max_rt
load_extension Extension.inf_max_rt_option = load_inf_max_rt
