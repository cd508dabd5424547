-- ===== src/Ntp/Saves.antt =====
-- dhcpkit/ipv6/extensions/ntp.py: `validate` and `save`: what passes `validate` can be saved, where it is
-- not too long.
use dhcpkit.Prelude.{
  ◌<◌, ◌≡◌, refl, false, List, [], ◌∷◌, ◌++◌, length, All, arith, leb, ltb, ltb→lt,
}
use dhcpkit.Wire.{Bytes, ok, u16}
use dhcpkit.Wire.Laws.{>>=-eq-ok, pack-encode, require_inv, require-ok}
use dhcpkit.Header.{head_of}
use dhcpkit.Element.Contains.{infinite}
use dhcpkit.Domain.{Idna, encode_domain}
use dhcpkit.Ntp
use dhcpkit.Ntp.{
  NtpSubOption, save_suboption, save_suboptions, save_ntp_servers, save_unknown_suboption,
  save_server_address, save_multicast_address, save_server_fqdn, validate_suboption,
  validate_suboptions, validate_ntp_servers, validate_unknown_suboption, validate_server_address,
  validate_multicast_address, validate_server_fqdn,
}

-- The data of a suboption fit its length field: validate does not check it.
abbrev pub IsShort : Idna → NtpSubOption → Type 0
IsShort idna (Ntp.unknown t d) = length d < 65536
IsShort idna (Ntp.server_address a) = Unit
IsShort idna (Ntp.multicast_address a) = Unit
IsShort idna (Ntp.server_fqdn n) =
    (b : Bytes) → encode_domain idna n false ≡ ok b → length b < 65536

save_suboption-validated :
    (idna : Idna) (o : NtpSubOption)
    → IsShort idna o
    → validate_suboption idna o ≡ ok tt
    → (b : Bytes) × (save_suboption idna o ≡ ok b)
unfolding validate_suboption save_suboption validate_unknown_suboption save_unknown_suboption
    save_server_address save_multicast_address validate_server_fqdn save_server_fqdn
save_suboption-validated idna (Ntp.unknown t d) short v =
    let small = ltb→lt t 65536 (require-ok (ltb t 65536) v) in
    (
      head_of t (length d) ++ d,
      rw (pack-encode (u16 t ∷ u16 (length d) ∷ []) (small, (short, tt))) refl,
    )
save_suboption-validated idna (Ntp.server_address a) short v = (
  head_of 1 16 ++ a,
  rw (pack-encode (u16 1 ∷ u16 16 ∷ []) (omega arith, (omega arith, tt))) refl,
)
save_suboption-validated idna (Ntp.multicast_address a) short v = (
  head_of 2 16 ++ a,
  rw (pack-encode (u16 2 ∷ u16 16 ∷ []) (omega arith, (omega arith, tt))) refl,
)
save_suboption-validated idna (Ntp.server_fqdn n) short v =
    let (b, encoded, rest) = >>=-eq-ok (encode_domain idna n false) _ v in
    (
      head_of 3 (length b) ++ b,
      rw (encoded, pack-encode (u16 3 ∷ u16 (length b) ∷ []) (omega arith, (short b encoded, tt)))
          refl,
    )

save_suboptions-validated :
    (idna : Idna) (os : List NtpSubOption)
    → All (IsShort idna) os
    → validate_suboptions idna os ≡ ok tt
    → (b : Bytes) × (save_suboptions idna os ≡ ok b)
unfolding validate_suboptions save_suboptions
save_suboptions-validated idna [] short v = ([], refl)
save_suboptions-validated idna (o ∷ os) (short, shorts) v =
    let (u, here, rest) = >>=-eq-ok (validate_suboption idna o) _ v in
    let (b, saved) = save_suboption-validated idna o short here in
    let (more, others) = save_suboptions-validated idna os shorts rest in
    (b ++ more, rw (saved, others) refl)

-- An NTP servers option that validate accepts, whose suboptions fit their length fields, has bytes for
-- these, and where they are fewer than 65536 it is saved, as the head with their number and the bytes.
pub save_ntp_servers-validated :
    (idna : Idna) (os : List NtpSubOption)
    → All (IsShort idna) os
    → validate_ntp_servers idna os ≡ ok tt
    → (b : Bytes) × (save_suboptions idna os ≡ ok b)
      × (length b < 65536 → save_ntp_servers idna os ≡ ok (head_of 56 (length b) ++ b))
unfolding validate_ntp_servers save_ntp_servers
save_ntp_servers-validated idna os shorts v =
    let (few, v₁) = require_inv (leb (length os) infinite) _ v in
    let (many, v₂) = require_inv (leb 1 (length os)) _ v₁ in
    let (b, saved) = save_suboptions-validated idna os shorts v₂ in
    (
      b,
      saved,
      λ fit. rw (saved, pack-encode (u16 56 ∷ u16 (length b) ∷ []) (omega arith, (fit, tt))) refl,
    )
