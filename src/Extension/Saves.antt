-- ===== src/Extension/Saves.antt =====
-- dhcpkit/ipv6/extensions: `validate` and `save` of the options without nested options: what passes
-- `validate` can be saved.
use dhcpkit.Prelude.{ℕ, ◌*◌, ◌<◌, ◌≡◌, refl, lt→ltb, List, [], ◌∷◌, ◌++◌, length, map, arith}
use dhcpkit.Wire.{ok, ◌>>=◌, u16, pack}
use dhcpkit.Wire.Laws.{encode, pack-encode, require-ok}
use dhcpkit.Wire.Codes.{length-codes, codes-AllFit}
use dhcpkit.Address.{Address}
use dhcpkit.Duid.RoundTrip
use dhcpkit.Duid.Saves.{save_duid-validated}
use dhcpkit.Header.{head_of}
use dhcpkit.Extension
use dhcpkit.Extension.{Extension}
use dhcpkit.Extension.Addresses.{AreAddresses, length-packed_addresses}
use dhcpkit.Extension.Body.{body, IsProper}
use dhcpkit.Extension.Validate.{
  validate_extension, validate_sip_servers, validate_dns_servers, validate_sntp_servers,
  validate_remote_id, validate_subscriber_id, validate_echo_request, validate_clt_time,
  validate_client_link, validate_relay_id, validate_pd_exclude, validate_link_layer_id,
  validate_sol_max_rt, validate_inf_max_rt,
}
use dhcpkit.Extension.Save.{
  packed_addresses, save_extension, save_sip_servers, save_dns_servers, save_sntp_servers,
  save_remote_id, save_subscriber_id, save_echo_request, save_clt_time, save_client_link,
  save_relay_id, save_pd_exclude, save_link_layer_id, save_sol_max_rt, save_inf_max_rt,
}

addresses_saved :
    (t : ℕ) (xs : List Address)
    → t < 65536
    → AreAddresses xs
    → length (packed_addresses xs) < 65536
    → (pack (u16 t ∷ u16 (length xs * 16) ∷ []) >>= λ head. ok (head ++ packed_addresses xs))
      ≡ ok (head_of t (length (packed_addresses xs)) ++ packed_addresses xs)
addresses_saved t xs small p fit =
    rw
      (
        length-packed_addresses xs p,
        pack-encode (u16 t ∷ u16 (length (packed_addresses xs)) ∷ []) (small, (fit, tt)),
      )
      refl

-- An option of an extension whose values are well-formed, that validate accepts and whose data is
-- shorter than 65536 bytes is saved: as the head, with the type code and that length, and the data.
pub save_extension-validated :
    (x : Extension)
    → IsProper x
    → validate_extension x ≡ ok tt
    → length (body x) < 65536
    → save_extension x ≡ ok (head_of (Extension.type_of x) (length (body x)) ++ body x)
unfolding save_extension save_sip_servers save_dns_servers save_sntp_servers save_remote_id
    save_subscriber_id save_echo_request save_clt_time save_client_link save_relay_id
    save_pd_exclude save_link_layer_id save_sol_max_rt save_inf_max_rt validate_extension
    validate_sip_servers validate_dns_servers validate_sntp_servers validate_remote_id
    validate_subscriber_id validate_echo_request validate_clt_time validate_client_link
    validate_relay_id validate_pd_exclude validate_link_layer_id validate_sol_max_rt
    validate_inf_max_rt pack
save_extension-validated (Extension.sip_servers xs) p v fit =
    addresses_saved 22 xs (omega arith) p fit
save_extension-validated (Extension.dns_servers xs) p v fit =
    addresses_saved 23 xs (omega arith) p fit
save_extension-validated (Extension.sntp_servers xs) p v fit =
    addresses_saved 31 xs (omega arith) p fit
save_extension-validated (Extension.client_link xs) p v fit =
    addresses_saved 48 xs (omega arith) p fit
save_extension-validated (Extension.remote_id n i) p v fit = ground arith
save_extension-validated (Extension.subscriber_id i) p v fit = ground arith
save_extension-validated (Extension.echo_request os) p v fit =
    rw
      (
        length-codes os,
        pack-encode (u16 43 ∷ u16 (length (encode (map u16 os))) ∷ []) (omega arith, (fit, tt)),
        pack-encode (map u16 os) (codes-AllFit os (require-ok _ v)),
      )
      refl
save_extension-validated (Extension.clt_time t) p v fit = ground arith
save_extension-validated (Extension.relay_id d) p v fit =
    rw (save_duid-validated d p v) (rw (lt→ltb (length (RoundTrip.image d)) 65536 fit) refl)
save_extension-validated (Extension.pd_exclude l i) p v fit = ground arith
save_extension-validated (Extension.link_layer_id t a) p v fit = ground arith
save_extension-validated (Extension.sol_max_rt t) p v fit = ground arith
save_extension-validated (Extension.inf_max_rt t) p v fit = ground arith
