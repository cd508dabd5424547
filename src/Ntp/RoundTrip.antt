-- ===== src/Ntp/RoundTrip.antt =====
-- dhcpkit/ipv6/extensions/ntp.py: what `save` writes, `load_from` reads back.
use dhcpkit.Prelude.{
  ℕ, zero, suc, ◌+◌, ◌<◌, ◌≤◌, ◌≡◌, refl, sym, ap, ◌∙◌, none, List, [], ◌∷◌, ◌++◌, length, take,
  drop, All, arith, length-append, append_assoc, drop_past, take-append, lt→ltb, le→ltb, le→leb,
  ==_refl, equal_to, false,
}
use dhcpkit.Wire.{Bytes, ok, u16}
use dhcpkit.Wire.Laws.{>>=-eq-ok, pack_append_inv, from_parts16}
use dhcpkit.Address.{Address, IsAddress, ipv6_address-ok}
use dhcpkit.Header.{head_of, max_u16, parse_option_header-head}
use dhcpkit.Header.Frames.{room}
use dhcpkit.Domain.{Idna, ChecksLabels, encode_domain}
use dhcpkit.Domain.RoundTrip.{encode_domain-Reads}
use dhcpkit.Domain.Lists.{ReadsBack}
use dhcpkit.Ntp
use dhcpkit.Ntp.{
  NtpSubOption, determine_suboption_class, parse_suboption_header, load_unknown_suboption,
  load_server_address, load_multicast_address, save_unknown_suboption, save_server_address,
  save_multicast_address, save_server_fqdn, load_server_fqdn, load_suboption, parse_suboption,
  parse_suboptions, load_ntp_servers, save_suboption, save_suboptions, save_ntp_servers,
}

-- What the values must be beside what their Python types say: an unknown suboption has a type without a
-- class, an address sixteen bytes, and a name is given back by idna.decode.
abbrev pub IsProper : Idna → NtpSubOption → Type 0
IsProper idna (Ntp.unknown t d) = determine_suboption_class t ≡ Ntp.unknown_class
IsProper idna (Ntp.server_address a) = IsAddress a
IsProper idna (Ntp.multicast_address a) = IsAddress a
IsProper idna (Ntp.server_fqdn n) = ReadsBack idna (n ∷ [])

parse_suboption_header-head :
    (t n : ℕ) (data_bytes : Bytes)
    → parse_suboption_header t (head_of t n ++ data_bytes) none ≡ ok (4, n)
unfolding parse_suboption_header
parse_suboption_header-head t n data_bytes = ground (arith, from_parts16 t, from_parts16 n)

take_address : (a : Address) (rest : Bytes) → IsAddress a → take 16 (a ++ rest) ≡ a
take_address a rest p = ap (λ (k : ℕ). take k (a ++ rest)) (sym p) ∙ take-append a rest

module _ (idna : Idna) (checks : ChecksLabels idna) where
  parse_suboption-save :
      (o : NtpSubOption) (rest : Bytes) {b : Bytes}
      → IsProper idna o
      → save_suboption idna o ≡ ok b
      → (1 ≤ length b) × (parse_suboption idna (b ++ rest) none ≡ ok (length b, o))
  unfolding save_suboption save_unknown_suboption save_server_address save_multicast_address
      save_server_fqdn parse_suboption load_suboption load_unknown_suboption load_server_address
      load_multicast_address load_server_fqdn determine_suboption_class
  parse_suboption-save (Ntp.unknown t d) rest {b} p h =
      let (fit, written) = pack_append_inv (u16 t ∷ u16 (length d) ∷ []) d h in
      (
        omega (arith, ap length written),
        rw
            (
              written,
              from_parts16 t,
              p,
              from_parts16 t,
              from_parts16 (length d),
              le→leb (4 + length d) (suc (suc (suc (suc (length (d ++ rest))))))
                  (omega (arith, length-append d rest)),
              take-append d rest,
            )
            (ap (λ k. ok (k, Ntp.unknown t d)) (omega arith)),
      )
  parse_suboption-save (Ntp.server_address a) rest {b} p h =
      let (fit, written) = pack_append_inv (u16 1 ∷ u16 16 ∷ []) a h in
      (
        omega (arith, ap length written),
        rw
            (
              written,
              parse_suboption_header-head 1 16 (a ++ rest),
              take_address a rest p,
              ipv6_address-ok a p,
            )
            (ap (λ k. ok (k, Ntp.server_address a)) (omega (arith, p))),
      )
  parse_suboption-save (Ntp.multicast_address a) rest {b} p h =
      let (fit, written) = pack_append_inv (u16 2 ∷ u16 16 ∷ []) a h in
      (
        omega (arith, ap length written),
        rw
            (
              written,
              parse_suboption_header-head 2 16 (a ++ rest),
              take_address a rest p,
              ipv6_address-ok a p,
            )
            (ap (λ k. ok (k, Ntp.multicast_address a)) (omega (arith, p))),
      )
  parse_suboption-save (Ntp.server_fqdn n) rest {b} (back, u) h =
      let (buffer, saved, h₁) = >>=-eq-ok (encode_domain idna n false) _ h in
      let (fit, written) = pack_append_inv (u16 3 ∷ u16 (length buffer) ∷ []) buffer h₁ in
      let (ascii, named, some_bytes, read) =
        encode_domain-Reads idna checks n false false rest (length buffer) saved in
      let (decoded, short) = back ascii named in
      (
        omega (arith, ap length written),
        rw
            (
              written,
              parse_suboption_header-head 3 (length buffer) (buffer ++ rest),
              read (λ f. f) (omega arith) (λ f. cc),
              decoded,
              le→leb (length n) 254 short,
              equal_to (4 + length buffer) (length buffer + 4) (omega arith),
            )
            (ap (λ k. ok (k, Ntp.server_fqdn n)) (omega arith)),
      )

  parse_suboptions-save_suboptions :
      (fuel : ℕ) (os : List NtpSubOption) (view rest : Bytes) (start stop : ℕ) {b : Bytes}
      → All (IsProper idna) os
      → save_suboptions idna os ≡ ok b
      → drop start view ≡ b ++ rest
      → stop ≡ start + length b
      → length b < fuel
      → parse_suboptions idna fuel view stop start ≡ ok (os, stop)
  unfolding parse_suboptions save_suboptions
  parse_suboptions-save_suboptions zero os view rest start stop p h e s enough =
      absurd (omega arith)
  parse_suboptions-save_suboptions (suc fuel) [] view rest start stop {b} p h e s enough =
      let empty : length b ≡ 0 = cc in
      rw (le→ltb start stop (omega arith)) (ap (λ (k : ℕ). ok ([], k)) (omega arith))
  parse_suboptions-save_suboptions (suc fuel) (o ∷ os) view rest start stop {b} (p, ps) h e s
        enough =
      let (head, saved, h₁) = >>=-eq-ok (save_suboption idna o) _ h in
      let (more, others, h₂) = >>=-eq-ok (save_suboptions idna os) _ h₁ in
      let whole : b ≡ head ++ more = cc in
      let total : length b ≡ length head + length more =
        ap length whole ∙ length-append head more in
      let here : drop start view ≡ head ++ (more ++ rest) =
        e ∙ ap (λ t. t ++ rest) whole ∙ append_assoc head more rest in
      let (some_bytes, read) = parse_suboption-save o (more ++ rest) p saved in
      let next =
        parse_suboptions-save_suboptions fuel os view rest (start + length head) stop ps others
          (drop_past view head (more ++ rest) start here) (omega (arith, total))
          (omega (arith, total, some_bytes)) in
      rw (lt→ltb start stop (omega (arith, total, some_bytes)), here, read, next) refl

-- What an NTP servers option with any suboptions saves, it loads, whatever bytes follow: where each
-- unknown suboption has a type without a class, an address has sixteen bytes, and a name has at
-- most 254 characters and is given back by idna.decode from its ASCII form with one dot at the end.
-- alabel of idna is to accept no label that is empty or longer than 63 characters.
pub load_ntp_servers-save :
    (idna : Idna) (checks : ChecksLabels idna) (os : List NtpSubOption) (rest : Bytes) {b : Bytes}
    → All (IsProper idna) os
    → save_ntp_servers idna os ≡ ok b
    → load_ntp_servers idna (b ++ rest) none ≡ ok (length b, os)
unfolding load_ntp_servers save_ntp_servers
load_ntp_servers-save idna checks os rest {b} p h =
    let (buffer, saved, h₁) = >>=-eq-ok (save_suboptions idna os) _ h in
    let (fit, written) = pack_append_inv (u16 56 ∷ u16 (length buffer) ∷ []) buffer h₁ in
    let read =
      parse_suboptions-save_suboptions idna checks (suc (length buffer + 4)) os
        (head_of 56 (length buffer) ++ (buffer ++ rest)) rest 4 (length buffer + 4) p saved refl
        (omega arith) (omega arith) in
    rw
      (
        written,
        append_assoc,
        parse_option_header-head 56 (length buffer) 0 max_u16 (buffer ++ rest) (omega arith)
            (omega (arith, fit)) (room buffer rest),
        read,
        ==_refl,
      )
      (ap (λ k. ok (k, os)) (omega arith))
