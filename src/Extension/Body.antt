-- ===== src/Extension/Body.antt =====
-- dhcpkit/ipv6/extensions: the data that `save` writes behind the head of an option without nested
-- options.
use dhcpkit.Prelude.{ℕ, ◌+◌, ◌*◌, ◌≤◌, ◌≡◌, subst, List, [], ◌∷◌, ◌++◌, length, map, arith}
use dhcpkit.Wire.{Bytes, ok, ◌>>=◌, u8, u16, u32, pack}
use dhcpkit.Wire.Laws.{encode, pack_inv, pack_append_inv, >>=-eq-ok}
use dhcpkit.Wire.Codes.{length-codes}
use dhcpkit.Address.{Address}
use dhcpkit.Duid.{save_duid}
use dhcpkit.Duid.RoundTrip
use dhcpkit.Header.Frames.{IsFramed, written-IsFramed}
use dhcpkit.Extension
use dhcpkit.Extension.{Extension}
use dhcpkit.Extension.Addresses.{AreAddresses, length-packed_addresses}
use dhcpkit.Extension.Save.{
  packed_addresses, save_extension, save_sip_servers, save_dns_servers, save_sntp_servers,
  save_remote_id, save_subscriber_id, save_echo_request, save_clt_time, save_client_link,
  save_relay_id, save_pd_exclude, save_link_layer_id, save_sol_max_rt, save_inf_max_rt,
}

abbrev pub body : Extension → Bytes
body (Extension.sip_servers xs) = packed_addresses xs
body (Extension.dns_servers xs) = packed_addresses xs
body (Extension.sntp_servers xs) = packed_addresses xs
body (Extension.remote_id n i) = encode (u32 n ∷ []) ++ i
body (Extension.subscriber_id i) = i
body (Extension.echo_request os) = encode (map u16 os)
body (Extension.clt_time t) = encode (u32 t ∷ [])
body (Extension.client_link xs) = packed_addresses xs
body (Extension.relay_id d) = RoundTrip.image d
body (Extension.pd_exclude l i) = l ∷ i
body (Extension.link_layer_id t a) = encode (u16 t ∷ []) ++ a
body (Extension.sol_max_rt t) = encode (u32 t ∷ [])
body (Extension.inf_max_rt t) = encode (u32 t ∷ [])

-- What the values must be beside what their Python types say. The subnet-id of PDExcludeOption has
-- the length that its `load_from` and its `validate` ask for.
abbrev pub IsProper : Extension → Type 0
IsProper (Extension.sip_servers xs) = AreAddresses xs
IsProper (Extension.dns_servers xs) = AreAddresses xs
IsProper (Extension.sntp_servers xs) = AreAddresses xs
IsProper (Extension.client_link xs) = AreAddresses xs
IsProper (Extension.relay_id d) = RoundTrip.IsProper d
IsProper (Extension.pd_exclude l i) = (1 ≤ length i) × (length i ≤ 16)
IsProper _ = Unit

addresses-IsFramed :
    (t : ℕ) (xs : List Address) {b : Bytes}
    → AreAddresses xs
    → (pack (u16 t ∷ u16 (length xs * 16) ∷ []) >>= λ head. ok (head ++ packed_addresses xs)) ≡ ok b
    → IsFramed t (packed_addresses xs) b
addresses-IsFramed t xs p h =
    let (fit, written) =
      pack_append_inv (u16 t ∷ u16 (length xs * 16) ∷ []) (packed_addresses xs) h in
    written-IsFramed t (length xs * 16) (packed_addresses xs) (length-packed_addresses xs p) fit.1.0
      written

-- What `save` writes is a head, and the data behind it.
pub save_extension-IsFramed :
    (x : Extension) {b : Bytes}
    → IsProper x
    → save_extension x ≡ ok b
    → IsFramed (Extension.type_of x) (body x) b
unfolding save_extension save_sip_servers save_dns_servers save_sntp_servers save_remote_id
    save_subscriber_id save_echo_request save_clt_time save_client_link save_relay_id
    save_pd_exclude save_link_layer_id save_sol_max_rt save_inf_max_rt
save_extension-IsFramed (Extension.sip_servers xs) p h = addresses-IsFramed 22 xs p h
save_extension-IsFramed (Extension.dns_servers xs) p h = addresses-IsFramed 23 xs p h
save_extension-IsFramed (Extension.sntp_servers xs) p h = addresses-IsFramed 31 xs p h
save_extension-IsFramed (Extension.client_link xs) p h = addresses-IsFramed 48 xs p h
save_extension-IsFramed (Extension.remote_id n i) p h =
    let (fit, written) = pack_append_inv (u16 37 ∷ u16 (length i + 4) ∷ u32 n ∷ []) i h in
    written-IsFramed 37 (length i + 4) (encode (u32 n ∷ []) ++ i) (omega arith) fit.1.0 written
save_extension-IsFramed (Extension.subscriber_id i) p h =
    let (fit, written) = pack_append_inv (u16 38 ∷ u16 (length i) ∷ []) i h in (fit.1.0, written)
save_extension-IsFramed (Extension.echo_request os) {b} p h =
    let (head, e, h₁) = >>=-eq-ok (pack (u16 43 ∷ u16 (length os * 2) ∷ [])) _ h in
    let (codes, e₂, h₂) = >>=-eq-ok (pack (map u16 os)) _ h₁ in
    let (fit, written) = pack_inv (u16 43 ∷ u16 (length os * 2) ∷ []) e in
    written-IsFramed 43 (length os * 2) (encode (map u16 os)) (length-codes os) fit.1.0
      (cc (written, (pack_inv (map u16 os) e₂).1))
save_extension-IsFramed (Extension.clt_time t) p h =
    let (fit, written) = pack_inv (u16 46 ∷ u16 4 ∷ u32 t ∷ []) h in (omega arith, written)
save_extension-IsFramed (Extension.relay_id d) {b} p h =
    let (saved, e, h₁) = >>=-eq-ok (save_duid d) _ h in
    let (fit, written) = pack_append_inv (u16 53 ∷ u16 (length saved) ∷ []) saved h₁ in
    subst (λ x. IsFramed 53 x b) (RoundTrip.save_duid-image d e) (fit.1.0, written)
save_extension-IsFramed (Extension.pd_exclude l i) p h =
    let (fit, written) = pack_append_inv (u16 67 ∷ u16 (1 + length i) ∷ u8 l ∷ []) i h in
    written-IsFramed 67 (1 + length i) (l ∷ i) (omega arith) fit.1.0 written
save_extension-IsFramed (Extension.link_layer_id t a) p h =
    let (fit, written) = pack_append_inv (u16 79 ∷ u16 (length a + 2) ∷ u16 t ∷ []) a h in
    written-IsFramed 79 (length a + 2) (encode (u16 t ∷ []) ++ a) (omega arith) fit.1.0 written
save_extension-IsFramed (Extension.sol_max_rt t) p h =
    let (fit, written) = pack_inv (u16 82 ∷ u16 4 ∷ u32 t ∷ []) h in (omega arith, written)
save_extension-IsFramed (Extension.inf_max_rt t) p h =
    let (fit, written) = pack_inv (u16 83 ∷ u16 4 ∷ u32 t ∷ []) h in (omega arith, written)
