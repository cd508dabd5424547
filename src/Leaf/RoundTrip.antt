-- ===== src/Leaf/RoundTrip.antt =====
-- Options without nested options: what `save` writes, `load_from` reads back.
use dhcpkit.Header.Frames.{room}
use dhcpkit.Wire.Codes.{length-codes, unpack_u16s-encode}
use dhcpkit.Prelude.{
  ℕ, suc, ◌+◌, ◌/◌, ◌%◌, ◌<◌, ◌≡◌, refl, ap, sym, ◌∙◌, none, [], ◌∷◌, ◌++◌, length, take, drop, map,
  ◌-◌, ==_refl, arith, length-append, append_assoc, take-append, drop-append,
}
use dhcpkit.Wire.{Bytes, ok, u16, u32}
use dhcpkit.Wire.Laws.{encode, from_parts16, from_parts32}
use dhcpkit.Address.{ipv6_address-ok}
use dhcpkit.Utf8.{decode-ok}
use dhcpkit.Duid.RoundTrip
use dhcpkit.Header.{head_of, max_u16, parse_option_header-head}
use dhcpkit.Extension.RoundTrip.{load_extension-body}
use dhcpkit.Leaf
use dhcpkit.Leaf.Load.{
  load_leaf, load_unknown, load_client_id, load_server_id, load_option_request, load_preference,
  load_elapsed_time, load_authentication, load_server_unicast, load_status_code, load_rapid_commit,
  load_user_class, load_vendor_class, load_vendor_specific_information, load_interface_id,
  load_reconfigure_message, load_reconfigure_accept, load_extension_option,
}
use dhcpkit.Leaf.Body.{body, IsProper, strings, options}
use dhcpkit.Leaf.Strings.{load_strings-strings, load_vendor_options-options}

pub load_leaf-body :
    (l : Leaf.Leaf) (rest : Bytes)
    → IsProper l
    → length (body l) < 65536
    → load_leaf
        (Leaf.class_of l)
        (head_of (Leaf.type_of l) (length (body l)) ++ (body l ++ rest))
        none
      ≡ ok (4 + length (body l), l)
unfolding load_leaf load_unknown load_client_id load_server_id load_option_request load_preference
    load_elapsed_time load_authentication load_server_unicast load_status_code load_rapid_commit
    load_user_class load_vendor_class load_vendor_specific_information load_interface_id
    load_reconfigure_message load_reconfigure_accept load_extension_option
load_leaf-body (Leaf.unknown t d) rest p fit =
    ground
      (arith, from_parts16 t, from_parts16 (length d), take-append d rest, length-append d rest)
load_leaf-body (Leaf.client_id d) rest p fit = rw (
  parse_option_header-head 1 (length (RoundTrip.image d)) 2 max_u16 (RoundTrip.image d ++ rest)
      (RoundTrip.two_le_length-image d) (omega arith) (room (RoundTrip.image d) rest),
  RoundTrip.parse_duid-image d rest p,
)
load_leaf-body (Leaf.server_id d) rest p fit = rw (
  parse_option_header-head 2 (length (RoundTrip.image d)) 2 max_u16 (RoundTrip.image d ++ rest)
      (RoundTrip.two_le_length-image d) (omega arith) (room (RoundTrip.image d) rest),
  RoundTrip.parse_duid-image d rest p,
)
load_leaf-body (Leaf.option_request os) rest p fit =
    let codes = encode (map u16 os) in
    let total = length-codes os in
    let even : length codes % 2 ≡ 0 = omega (arith, total) in
    let half : length codes / 2 ≡ length os = omega (arith, total) in
    rw (
      parse_option_header-head 6 (length codes) 0 max_u16 (codes ++ rest) (omega arith)
          (omega arith) (room codes rest),
      even,
      half,
      unpack_u16s-encode os rest,
    )
load_leaf-body (Leaf.preference n) rest p fit =
    rw (parse_option_header-head 7 1 1 1 (n ∷ rest) (omega arith) (omega arith) (omega arith)) refl
load_leaf-body (Leaf.elapsed_time t) rest p fit =
    rw
      (
        parse_option_header-head 8 2 2 2 (encode (u16 t ∷ []) ++ rest) (omega arith) (omega arith)
            (omega arith),
        from_parts16,
      )
      refl
load_leaf-body (Leaf.authentication n a r d i) rest p fit =
    let whole : Bytes = n ∷ a ∷ r ∷ (d ++ i) in
    let total = length-append d i in
    let detection : take 8 ((d ++ i) ++ rest) ≡ d =
      ap (λ (k : ℕ). take k ((d ++ i) ++ rest)) (sym p)
      ∙ rw append_assoc (take-append d (i ++ rest)) in
    let behind : drop 8 ((d ++ i) ++ rest) ≡ i ++ rest =
      ap (λ (k : ℕ). drop k ((d ++ i) ++ rest)) (sym p)
      ∙ rw append_assoc (drop-append d (i ++ rest)) in
    let left : length whole - 11 ≡ length i = omega (arith, total, p) in
    rw
      (
        parse_option_header-head 11 (length whole) 11 max_u16 (whole ++ rest)
            (omega (arith, total, p)) (omega arith) (room whole rest),
        detection,
        behind,
        left,
        take-append i rest,
      )
      (ap (λ k. ok (k, Leaf.authentication n a r d i)) (omega (arith, total, p)))
load_leaf-body (Leaf.server_unicast a) rest p fit =
    let whole : take 16 (a ++ rest) ≡ a =
      ap (λ (k : ℕ). take k (a ++ rest)) (sym p) ∙ take-append a rest in
    rw
      (
        parse_option_header-head 12 (length a) 16 16 (a ++ rest) (omega arith) (omega arith)
            (room a rest),
        whole,
        ipv6_address-ok a p,
      )
      (ap (λ k. ok (k, Leaf.server_unicast a)) (omega arith))
load_leaf-body (Leaf.status_code c m) rest p fit =
    let whole = encode (u16 c ∷ []) ++ m in
    let left : length whole - 2 ≡ length m = omega arith in
    rw
      (
        parse_option_header-head 13 (length whole) 2 max_u16 (whole ++ rest) (omega arith)
            (omega arith) (room whole rest),
        from_parts16,
        left,
        take-append m rest,
        decode-ok m p,
      )
      (ap (λ k. ok (k, Leaf.status_code c m)) (omega arith))
load_leaf-body Leaf.rapid_commit rest p fit =
    rw (parse_option_header-head 14 0 0 0 rest (omega arith) (omega arith) (omega arith)) refl
load_leaf-body (Leaf.user_class cs) rest p fit =
    let stop = length (strings cs) + 4 in
    rw
      (
        parse_option_header-head 15 (length (strings cs)) 0 max_u16 (strings cs ++ rest)
            (omega arith) (omega arith) (room (strings cs) rest),
        load_strings-strings (suc stop) cs
            (head_of 15 (length (strings cs)) ++ (strings cs ++ rest)) rest 4 stop (omega arith)
            refl (omega arith),
        ==_refl,
      )
      (ap (λ k. ok (k, Leaf.user_class cs)) (omega arith))
load_leaf-body (Leaf.vendor_class n cs) rest p fit =
    let whole = encode (u32 n ∷ []) ++ strings cs in
    let stop = length whole + 4 in
    rw
      (
        parse_option_header-head 16 (length whole) 4 max_u16 (whole ++ rest) (omega arith)
            (omega arith) (room whole rest),
        from_parts32,
        load_strings-strings (suc stop) cs (head_of 16 (length whole) ++ (whole ++ rest)) rest 8
            stop (omega arith) refl (omega arith),
        ==_refl,
      )
      (ap (λ k. ok (k, Leaf.vendor_class n cs)) (omega arith))
load_leaf-body (Leaf.vendor_specific_information n os) rest p fit =
    let whole = encode (u32 n ∷ []) ++ options os in
    let stop = length whole + 4 in
    rw
      (
        parse_option_header-head 17 (length whole) 4 max_u16 (whole ++ rest) (omega arith)
            (omega arith) (room whole rest),
        from_parts32,
        load_vendor_options-options (suc stop) os (head_of 17 (length whole) ++ (whole ++ rest))
            rest 8 stop (omega arith) refl (omega arith),
        ==_refl,
      )
      (ap (λ k. ok (k, Leaf.vendor_specific_information n os)) (omega arith))
load_leaf-body (Leaf.interface_id i) rest p fit =
    rw
      (
        parse_option_header-head 18 (length i) 0 max_u16 (i ++ rest) (omega arith) (omega arith)
            (room i rest),
        take-append i rest,
      )
      refl
load_leaf-body (Leaf.reconfigure_message t) rest p fit =
    rw (parse_option_header-head 19 1 1 1 (t ∷ rest) (omega arith) (omega arith) (omega arith)) refl
load_leaf-body Leaf.reconfigure_accept rest p fit =
    rw (parse_option_header-head 20 0 0 0 rest (omega arith) (omega arith) (omega arith)) refl
load_leaf-body (Leaf.extension x) rest p fit = rw (load_extension-body x rest p fit) refl
