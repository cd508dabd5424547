-- ===== src/Extension/RoundTrip.antt =====
-- dhcpkit/ipv6/extensions: options without nested options: what `save` writes, `load_from` reads back.
use dhcpkit.Prelude.{
  ℕ, suc, ◌+◌, ◌-◌, ◌/◌, ◌%◌, ◌<◌, ◌≡◌, refl, ap, Bool, none, List, [], ◌∷◌, ◌++◌, length, map,
  ==_refl, arith, take-append,
}
use dhcpkit.Wire.{Bytes, ok, u16, u32}
use dhcpkit.Wire.Laws.{encode, from_parts16, from_parts32}
use dhcpkit.Wire.Codes.{length-codes, unpack_u16s-encode}
use dhcpkit.Address.{Address}
use dhcpkit.Duid.RoundTrip
use dhcpkit.Header.{head_of, max_u16, parse_option_header-head}
use dhcpkit.Header.Frames.{room}
use dhcpkit.Extension
use dhcpkit.Extension.{Extension}
use dhcpkit.Extension.Load.{
  load_addresses, load_extension, load_servers, load_remote_id, load_subscriber_id,
  load_echo_request, load_clt_time, load_client_link, load_relay_id, load_pd_exclude,
  load_link_layer_id, load_sol_max_rt, load_inf_max_rt,
}
use dhcpkit.Extension.Save.{packed_addresses}
use dhcpkit.Extension.Addresses.{
  AreAddresses, length-packed_addresses, Reads, below-Reads, fits_one-Reads, load_addresses-packed,
}
use dhcpkit.Extension.Body.{body, IsProper}

-- The loop behind the head of an option.
read_addresses :
    {continues : ℕ → ℕ → Bool}
    → Reads continues
    → (t : ℕ) (xs : List Address) (rest : Bytes) → AreAddresses xs
    → load_addresses continues
        (suc (length (packed_addresses xs) + 4))
        (head_of t (length (packed_addresses xs)) ++ (packed_addresses xs ++ rest))
        (length (packed_addresses xs) + 4)
        4
      ≡ ok (xs, length (packed_addresses xs) + 4)
read_addresses reads t xs rest p =
    load_addresses-packed reads (suc (length (packed_addresses xs) + 4)) xs
      (head_of t (length (packed_addresses xs)) ++ (packed_addresses xs ++ rest)) rest 4
      (length (packed_addresses xs) + 4) p (omega arith) refl (omega arith)

whole_addresses : (xs : List Address) → AreAddresses xs → length (packed_addresses xs) % 16 ≡ 0
whole_addresses xs p = omega (arith, length-packed_addresses xs p)

load_servers-packed :
    (t : ℕ) (option : List Address → Extension) (xs : List Address) (rest : Bytes)
    → AreAddresses xs
    → length (packed_addresses xs) < 65536
    → load_servers t option
        (head_of t (length (packed_addresses xs)) ++ (packed_addresses xs ++ rest))
        none
      ≡ ok (4 + length (packed_addresses xs), option xs)
unfolding load_servers
load_servers-packed t option xs rest p fit =
    let data_bytes = packed_addresses xs in
    rw
      (
        parse_option_header-head t (length data_bytes) 0 max_u16 (data_bytes ++ rest) (omega arith)
            (omega arith) (room data_bytes rest),
        whole_addresses xs p,
        read_addresses below-Reads t xs rest p,
      )
      (ap (λ k. ok (k, option xs)) (omega arith))

-- An option of an extension that has well-formed values and whose data are shorter than 65536 bytes
-- is read back from its head and its data, whatever follows, by its class.
pub load_extension-body :
    (x : Extension) (rest : Bytes)
    → IsProper x
    → length (body x) < 65536
    → load_extension
        (Extension.class_of x)
        (head_of (Extension.type_of x) (length (body x)) ++ (body x ++ rest))
        none
      ≡ ok (4 + length (body x), x)
unfolding load_extension load_remote_id load_subscriber_id load_echo_request load_clt_time
    load_client_link load_relay_id load_pd_exclude load_link_layer_id load_sol_max_rt
    load_inf_max_rt
load_extension-body (Extension.sip_servers xs) rest p fit =
    load_servers-packed 22 Extension.sip_servers xs rest p fit
load_extension-body (Extension.dns_servers xs) rest p fit =
    load_servers-packed 23 Extension.dns_servers xs rest p fit
load_extension-body (Extension.sntp_servers xs) rest p fit =
    load_servers-packed 31 Extension.sntp_servers xs rest p fit
load_extension-body (Extension.client_link xs) rest p fit =
    let data_bytes = packed_addresses xs in
    rw
      (
        parse_option_header-head 48 (length data_bytes) 0 max_u16 (data_bytes ++ rest) (omega arith)
            (omega arith) (room data_bytes rest),
        read_addresses fits_one-Reads 48 xs rest p,
        ==_refl,
      )
      (ap (λ k. ok (k, Extension.client_link xs)) (omega arith))
load_extension-body (Extension.remote_id n i) rest p fit =
    let whole = encode (u32 n ∷ []) ++ i in
    let left : length whole - 4 ≡ length i = omega arith in
    rw
      (
        parse_option_header-head 37 (length whole) 0 max_u16 (whole ++ rest) (omega arith)
            (omega arith) (room whole rest),
        from_parts32,
        left,
        take-append i rest,
      )
      (ap (λ k. ok (k, Extension.remote_id n i)) (omega arith))
load_extension-body (Extension.subscriber_id i) rest p fit =
    rw
      (
        parse_option_header-head 38 (length i) 0 max_u16 (i ++ rest) (omega arith) (omega arith)
            (room i rest),
        take-append i rest,
      )
      refl
load_extension-body (Extension.echo_request os) rest p fit =
    let codes = encode (map u16 os) in
    let total = length-codes os in
    let even : length codes % 2 ≡ 0 = omega (arith, total) in
    let half : length codes / 2 ≡ length os = omega (arith, total) in
    rw (
      parse_option_header-head 43 (length codes) 0 max_u16 (codes ++ rest) (omega arith)
          (omega arith) (room codes rest),
      even,
      half,
      unpack_u16s-encode os rest,
    )
load_extension-body (Extension.clt_time t) rest p fit =
    rw
      (
        parse_option_header-head 46 4 4 4 (encode (u32 t ∷ []) ++ rest) (omega arith) (omega arith)
            (omega arith),
        from_parts32,
      )
      refl
load_extension-body (Extension.relay_id d) rest p fit = rw (
  parse_option_header-head 53 (length (RoundTrip.image d)) 2 max_u16 (RoundTrip.image d ++ rest)
      (RoundTrip.two_le_length-image d) (omega arith) (room (RoundTrip.image d) rest),
  RoundTrip.parse_duid-image d rest p,
)
load_extension-body (Extension.pd_exclude l i) rest p fit =
    let whole : Bytes = l ∷ i in
    let left : length whole - 1 ≡ length i = omega arith in
    rw
      (
        parse_option_header-head 67 (length whole) 2 17 (whole ++ rest) (omega (arith, p))
            (omega (arith, p)) (room whole rest),
        left,
        take-append i rest,
      )
      (ap (λ k. ok (k, Extension.pd_exclude l i)) (omega arith))
load_extension-body (Extension.link_layer_id t a) rest p fit =
    let whole = encode (u16 t ∷ []) ++ a in
    let left : length whole - 2 ≡ length a = omega arith in
    rw
      (
        parse_option_header-head 79 (length whole) 2 max_u16 (whole ++ rest) (omega arith)
            (omega arith) (room whole rest),
        from_parts16,
        left,
        take-append a rest,
      )
      (ap (λ k. ok (k, Extension.link_layer_id t a)) (omega arith))
load_extension-body (Extension.sol_max_rt t) rest p fit =
    rw
      (
        parse_option_header-head 82 4 0 max_u16 (encode (u32 t ∷ []) ++ rest) (omega arith)
            (omega arith) (omega arith),
        from_parts32,
      )
      refl
load_extension-body (Extension.inf_max_rt t) rest p fit =
    rw
      (
        parse_option_header-head 83 4 0 max_u16 (encode (u32 t ∷ []) ++ rest) (omega arith)
            (omega arith) (omega arith),
        from_parts32,
      )
      refl
