-- ===== src/Ntp.antt =====
-- dhcpkit/ipv6/extensions/ntp.py: the option with NTP servers and its suboptions. The functions of the
-- package idna are a parameter.
pub mod RoundTrip
pub mod Saves
use dhcpkit.Prelude.{
  ℕ, zero, suc, ◌+◌, ◌-◌, ◌^◌, Bool, true, Option, none, some, List, [], ◌∷◌, ◌++◌, length, drop,
  ltb, leb, ◌==◌, not, ◌||◌, if◌then◌else◌, false,
}
use dhcpkit.Wire.{
  Bytes, Result, ok, err, out_of_fuel, ◌>>=◌, ◌>>◌, require, slice, unpack_u16, u16, pack,
}
use dhcpkit.Address.{
  Address, ipv6_address, is_link_local, is_loopback, is_multicast, is_unspecified,
}
use dhcpkit.Header.{available, max_u16, parse_option_header}
use dhcpkit.Element.Contains.{infinite}
use dhcpkit.Element.{Registry, get}
use dhcpkit.Domain.{Characters, Idna, parse_domain_bytes, encode_domain}

pub data NtpSubOption : Type 0 where
  unknown : ℕ → Bytes → NtpSubOption
  server_address multicast_address : Address → NtpSubOption
  server_fqdn : Characters → NtpSubOption

pub data NtpSubOptionClass : Type 0 where
  unknown_class server_address_class multicast_address_class server_fqdn_class : NtpSubOptionClass

-- The entry points of setup.py.
abbrev pub suboption_entries : Registry NtpSubOptionClass
suboption_entries =
    (1, server_address_class) ∷ (2, multicast_address_class) ∷ (3, server_fqdn_class) ∷ []

unfoldable pub determine_suboption_class : ℕ → NtpSubOptionClass
determine_suboption_class suboption_type = get suboption_entries suboption_type unknown_class

abbrev pub within : Option ℕ → ℕ → Bool
within none used = true
within (some len) used = leb used len

unfoldable pub parse_suboption_header : ℕ → Bytes → Option ℕ → Result (ℕ × ℕ)
parse_suboption_header expected view len = do
  suboption_type ← unpack_u16 view 0
  suboption_len ← unpack_u16 view 2
  require (suboption_type == expected)
  require (within len (suboption_len + 4))
  ok (4, suboption_len)

unfoldable pub load_unknown_suboption : Bytes → Option ℕ → Result (ℕ × NtpSubOption)
load_unknown_suboption view len = do
  suboption_type ← unpack_u16 view 0
  option_len ← unpack_u16 view 2
  require (leb (4 + option_len) (available len view))
  ok (4 + option_len, unknown suboption_type (slice view 4 option_len))

unfoldable pub load_server_address : Bytes → Option ℕ → Result (ℕ × NtpSubOption)
load_server_address view len = do
  (my_offset, suboption_len) ← parse_suboption_header 1 view len
  require (suboption_len == 16)
  address ← ipv6_address (slice view my_offset 16)
  ok (my_offset + 16, server_address address)

unfoldable pub load_multicast_address : Bytes → Option ℕ → Result (ℕ × NtpSubOption)
load_multicast_address view len = do
  (my_offset, suboption_len) ← parse_suboption_header 2 view len
  require (suboption_len == 16)
  address ← ipv6_address (slice view my_offset 16)
  ok (my_offset + 16, multicast_address address)

unfoldable pub save_unknown_suboption : ℕ → Bytes → Result Bytes
save_unknown_suboption suboption_type suboption_data = do
  head ← pack (u16 suboption_type ∷ u16 (length suboption_data) ∷ [])
  ok (head ++ suboption_data)

unfoldable pub save_server_address : Address → Result Bytes
save_server_address address = do head ← pack (u16 1 ∷ u16 16 ∷ []); ok (head ++ address)

unfoldable pub save_multicast_address : Address → Result Bytes
save_multicast_address address = do head ← pack (u16 2 ∷ u16 16 ∷ []); ok (head ++ address)

-- The length of the data is not checked.
unfoldable pub validate_unknown_suboption : ℕ → Bytes → Result (Unit {0})
validate_unknown_suboption suboption_type suboption_data = require (ltb suboption_type (2 ^ 16))

unfoldable pub validate_server_address : Address → Result (Unit {0})
validate_server_address address = require (
    not (
      is_link_local address
      || (is_loopback address || (is_multicast address || is_unspecified address))))

unfoldable pub validate_multicast_address : Address → Result (Unit {0})
validate_multicast_address address = require (is_multicast address)

module _ (idna : Idna) where
  unfoldable pub load_server_fqdn : Bytes → Option ℕ → Result (ℕ × NtpSubOption)
  load_server_fqdn view len = do
    (my_offset, suboption_len) ← parse_suboption_header 3 view len
    (domain_name_len, fqdn) ←
        parse_domain_bytes idna (drop my_offset view) (some suboption_len) false
    require (my_offset + domain_name_len == suboption_len + my_offset)
    ok (my_offset + domain_name_len, server_fqdn fqdn)

  unfoldable pub load_suboption : NtpSubOptionClass → Bytes → Option ℕ → Result (ℕ × NtpSubOption)
  load_suboption unknown_class = load_unknown_suboption
  load_suboption server_address_class = load_server_address
  load_suboption multicast_address_class = load_multicast_address
  load_suboption server_fqdn_class = load_server_fqdn

  -- NTPSubOption.parse
  unfoldable pub parse_suboption : Bytes → Option ℕ → Result (ℕ × NtpSubOption)
  parse_suboption view len = do
    suboption_type ← unpack_u16 view 0
    load_suboption (determine_suboption_class suboption_type) view len

  -- The loop of NTPServersOption.load_from. Each suboption takes four bytes at least, so
  -- `max_offset + 1` rounds are enough.
  unfoldable pub parse_suboptions : ℕ → Bytes → ℕ → ℕ → Result (List NtpSubOption × ℕ)
  parse_suboptions zero view max_offset my_offset = err out_of_fuel
  parse_suboptions (suc fuel) view max_offset my_offset =
      let more = do
        (used_buffer, option) ← parse_suboption (drop my_offset view) none
        (options, stop) ← parse_suboptions fuel view max_offset (my_offset + used_buffer)
        ok (option ∷ options, stop)
      in if ltb my_offset max_offset then more else ok ([], my_offset)

  unfoldable pub load_ntp_servers : Bytes → Option ℕ → Result (ℕ × List NtpSubOption)
  load_ntp_servers view len = do
    (my_offset, option_len) ← parse_option_header 56 view len 0 max_u16
    let max_offset = option_len + my_offset
    (options, stop) ← parse_suboptions (suc max_offset) view max_offset my_offset
    require (stop == max_offset)
    ok (stop, options)

  unfoldable pub save_server_fqdn : Characters → Result Bytes
  save_server_fqdn fqdn = do
    fqdn_buffer ← encode_domain idna fqdn false
    head ← pack (u16 3 ∷ u16 (length fqdn_buffer) ∷ [])
    ok (head ++ fqdn_buffer)

  unfoldable pub save_suboption : NtpSubOption → Result Bytes
  save_suboption (unknown suboption_type suboption_data) =
      save_unknown_suboption suboption_type suboption_data
  save_suboption (server_address address) = save_server_address address
  save_suboption (multicast_address address) = save_multicast_address address
  save_suboption (server_fqdn fqdn) = save_server_fqdn fqdn

  unfoldable pub save_suboptions : List NtpSubOption → Result Bytes
  save_suboptions [] = ok []
  save_suboptions (option ∷ options) = do
    head ← save_suboption option
    more ← save_suboptions options
    ok (head ++ more)

  unfoldable pub save_ntp_servers : List NtpSubOption → Result Bytes
  save_ntp_servers options = do
    options_buffer ← save_suboptions options
    head ← pack (u16 56 ∷ u16 (length options_buffer) ∷ [])
    ok (head ++ options_buffer)

  unfoldable pub validate_server_fqdn : Characters → Result (Unit {0})
  validate_server_fqdn fqdn = encode_domain idna fqdn false >>= λ _. ok tt

  unfoldable pub validate_suboption : NtpSubOption → Result (Unit {0})
  validate_suboption (unknown suboption_type suboption_data) =
      validate_unknown_suboption suboption_type suboption_data
  validate_suboption (server_address address) = validate_server_address address
  validate_suboption (multicast_address address) = validate_multicast_address address
  validate_suboption (server_fqdn fqdn) = validate_server_fqdn fqdn

  unfoldable pub validate_suboptions : List NtpSubOption → Result (Unit {0})
  validate_suboptions [] = ok tt
  validate_suboptions (option ∷ options) = validate_suboption option >> validate_suboptions options

  -- Every suboption is a NTPSubOption, of which there is at least one.
  unfoldable pub validate_ntp_servers : List NtpSubOption → Result (Unit {0})
  validate_ntp_servers options =
      require (leb (length options) infinite)
      >> (require (leb 1 (length options)) >> validate_suboptions options)
