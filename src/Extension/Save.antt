-- ===== src/Extension/Save.antt =====
-- dhcpkit/ipv6/extensions: `save` of the option classes without nested options.
use dhcpkit.Prelude.{ℕ, ◌+◌, ◌*◌, List, [], ◌∷◌, ◌++◌, length, map}
use dhcpkit.Wire.{Bytes, Result, ok, ◌>>=◌, u8, u16, u32, pack}
use dhcpkit.Address.{Address}
use dhcpkit.Duid.{Duid, save_duid}
use dhcpkit.Extension.{Extension}

-- The loop that writes each address.packed.
abbrev pub packed_addresses : List Address → Bytes
packed_addresses [] = []
packed_addresses (a ∷ xs) = a ++ packed_addresses xs

unfoldable pub save_sip_servers : List Address → Result Bytes
save_sip_servers sip_servers = do
  head ← pack (u16 22 ∷ u16 (length sip_servers * 16) ∷ [])
  ok (head ++ packed_addresses sip_servers)

unfoldable pub save_dns_servers : List Address → Result Bytes
save_dns_servers dns_servers = do
  head ← pack (u16 23 ∷ u16 (length dns_servers * 16) ∷ [])
  ok (head ++ packed_addresses dns_servers)

unfoldable pub save_sntp_servers : List Address → Result Bytes
save_sntp_servers sntp_servers = do
  head ← pack (u16 31 ∷ u16 (length sntp_servers * 16) ∷ [])
  ok (head ++ packed_addresses sntp_servers)

unfoldable pub save_remote_id : ℕ → Bytes → Result Bytes
save_remote_id enterprise_number remote_id = do
  head ← pack (u16 37 ∷ u16 (length remote_id + 4) ∷ u32 enterprise_number ∷ [])
  ok (head ++ remote_id)

unfoldable pub save_subscriber_id : Bytes → Result Bytes
save_subscriber_id subscriber_id = do
  head ← pack (u16 38 ∷ u16 (length subscriber_id) ∷ [])
  ok (head ++ subscriber_id)

unfoldable pub save_echo_request : List ℕ → Result Bytes
save_echo_request requested_options = do
  head ← pack (u16 43 ∷ u16 (length requested_options * 2) ∷ [])
  codes ← pack (map u16 requested_options)
  ok (head ++ codes)

unfoldable pub save_clt_time : ℕ → Result Bytes
save_clt_time clt_time = pack (u16 46 ∷ u16 4 ∷ u32 clt_time ∷ [])

unfoldable pub save_client_link : List Address → Result Bytes
save_client_link link_addresses = do
  head ← pack (u16 48 ∷ u16 (length link_addresses * 16) ∷ [])
  ok (head ++ packed_addresses link_addresses)

unfoldable pub save_relay_id : Duid → Result Bytes
save_relay_id duid = do
  duid_buffer ← save_duid duid
  head ← pack (u16 53 ∷ u16 (length duid_buffer) ∷ [])
  ok (head ++ duid_buffer)

unfoldable pub save_pd_exclude : ℕ → Bytes → Result Bytes
save_pd_exclude prefix_length subnet_id = do
  head ← pack (u16 67 ∷ u16 (1 + length subnet_id) ∷ u8 prefix_length ∷ [])
  ok (head ++ subnet_id)

unfoldable pub save_link_layer_id : ℕ → Bytes → Result Bytes
save_link_layer_id link_layer_type link_layer_address = do
  head ← pack (u16 79 ∷ u16 (length link_layer_address + 2) ∷ u16 link_layer_type ∷ [])
  ok (head ++ link_layer_address)

unfoldable pub save_sol_max_rt : ℕ → Result Bytes
save_sol_max_rt sol_max_rt = pack (u16 82 ∷ u16 4 ∷ u32 sol_max_rt ∷ [])

unfoldable pub save_inf_max_rt : ℕ → Result Bytes
save_inf_max_rt inf_max_rt = pack (u16 83 ∷ u16 4 ∷ u32 inf_max_rt ∷ [])

unfoldable pub save_extension : Extension → Result Bytes
save_extension (Extension.sip_servers xs) = save_sip_servers xs
save_extension (Extension.dns_servers xs) = save_dns_servers xs
save_extension (Extension.sntp_servers xs) = save_sntp_servers xs
save_extension (Extension.remote_id n i) = save_remote_id n i
save_extension (Extension.subscriber_id i) = save_subscriber_id i
save_extension (Extension.echo_request os) = save_echo_request os
save_extension (Extension.clt_time t) = save_clt_time t
save_extension (Extension.client_link xs) = save_client_link xs
save_extension (Extension.relay_id d) = save_relay_id d
save_extension (Extension.pd_exclude l i) = save_pd_exclude l i
save_extension (Extension.link_layer_id t a) = save_link_layer_id t a
save_extension (Extension.sol_max_rt t) = save_sol_max_rt t
save_extension (Extension.inf_max_rt t) = save_inf_max_rt t
