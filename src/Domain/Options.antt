-- ===== src/Domain/Options.antt =====
-- dhcpkit/ipv6/extensions/dns.py, sip_servers.py, dslite.py and client_fqdn.py: the options that hold
-- domain names.
pub mod RoundTrip
pub mod Saves
use dhcpkit.Prelude.{
  ℕ, zero, suc, ◌+◌, ◌-◌, Bool, true, false, Option, none, some, List, [], ◌∷◌, ◌++◌, length, drop,
  leb, ◌==◌, if◌then◌else◌,
}
use dhcpkit.Wire.{Bytes, Result, ok, err, value_error, ◌>>=◌, ◌>>◌, require, byte_at, u8, u16, pack}
use dhcpkit.Header.{max_u16, parse_option_header}
use dhcpkit.Domain.{
  Characters, Idna, parse_domain_bytes, parse_domain_list_bytes, encode_domain, encode_domain_list,
}

-- ClientFQDNOption: the flags and the domain name, which may be None.
abbrev pub ClientFqdn : Type 0
ClientFqdn = ℕ × Option Characters

module _ (idna : Idna) where
  -- DomainSearchListOption and SIPServersDomainNameListOption, with their type code.
  unfoldable pub load_domain_names : ℕ → Bytes → Option ℕ → Result (ℕ × List Characters)
  load_domain_names option_type view len = do
    (my_offset, option_len) ← parse_option_header option_type view len 0 max_u16
    (parsed_len, domain_names) ←
        parse_domain_list_bytes idna (drop my_offset view) (some option_len)
    ok (my_offset + parsed_len, domain_names)

  unfoldable pub save_domain_names : ℕ → List Characters → Result Bytes
  save_domain_names option_type domain_names = do
    domain_buffer ← encode_domain_list idna domain_names
    head ← pack (u16 option_type ∷ u16 (length domain_buffer) ∷ [])
    ok (head ++ domain_buffer)

  unfoldable pub validate_domain_names : List Characters → Result (Unit {0})
  validate_domain_names [] = ok tt
  validate_domain_names (domain_name ∷ domain_names) = do
    _ ← encode_domain idna domain_name false
    validate_domain_names domain_names

  abbrev pub load_search_list : Bytes → Option ℕ → Result (ℕ × List Characters)
  load_search_list = load_domain_names 24

  abbrev pub save_search_list : List Characters → Result Bytes
  save_search_list = save_domain_names 24

  abbrev pub load_sip_domain_names : Bytes → Option ℕ → Result (ℕ × List Characters)
  load_sip_domain_names = load_domain_names 21

  abbrev pub save_sip_domain_names : List Characters → Result Bytes
  save_sip_domain_names = save_domain_names 21

  -- AFTRNameOption
  unfoldable pub load_aftr_name : Bytes → Option ℕ → Result (ℕ × Characters)
  load_aftr_name view len = do
    (my_offset, option_len) ← parse_option_header 64 view len 4 max_u16
    (name_len, fqdn) ← parse_domain_bytes idna (drop my_offset view) (some option_len) false
    require (my_offset + name_len == option_len + my_offset)
    ok (my_offset + name_len, fqdn)

  unfoldable pub save_aftr_name : Characters → Result Bytes
  save_aftr_name fqdn = do
    fqdn_buffer ← encode_domain idna fqdn false
    head ← pack (u16 64 ∷ u16 (length fqdn_buffer) ∷ [])
    ok (head ++ fqdn_buffer)

  unfoldable pub validate_aftr_name : Characters → Result (Unit {0})
  validate_aftr_name name = do fqdn ← encode_domain idna name false; require (leb 4 (length fqdn))

  -- parse_domain_bytes with the length option_len - 1. For an option_len of 0 that is -1, with which
  -- parse_domain_bytes reads no label and uses no byte.
  abbrev pub load_fqdn_name : Bytes → ℕ → Result (ℕ × Characters)
  load_fqdn_name view zero = do
    domain_name ← idna.decode []
    require (leb (length domain_name) 253)
    ok (0, domain_name)
  load_fqdn_name view (suc n) = parse_domain_bytes idna view (some n) true

  unfoldable pub load_client_fqdn : Bytes → Option ℕ → Result (ℕ × ClientFqdn)
  load_client_fqdn view len = do
    (my_offset, option_len) ← parse_option_header 39 view len 0 max_u16
    flags ← byte_at view my_offset
    (domain_name_len, domain_name) ← load_fqdn_name (drop (my_offset + 1) view) option_len
    require (my_offset + 1 + domain_name_len == option_len + my_offset)
    ok (my_offset + 1 + domain_name_len, (flags, some domain_name))

  -- encode_domain raises a ValueError for what is no str.
  unfoldable pub save_client_fqdn : ClientFqdn → Result Bytes
  save_client_fqdn (flags, none) = err value_error
  save_client_fqdn (flags, some domain_name) = do
    domain_buffer ← encode_domain idna domain_name false
    head ← pack (u16 39 ∷ u16 (1 + length domain_buffer) ∷ u8 flags ∷ [])
    ok (head ++ domain_buffer)

  -- An empty name is allowed, and so is None.
  unfoldable pub validate_client_fqdn : ClientFqdn → Result (Unit {0})
  validate_client_fqdn (flags, none) = ok tt
  validate_client_fqdn (flags, some []) = ok tt
  validate_client_fqdn (flags, some (c ∷ cs)) = do _ ← encode_domain idna (c ∷ cs) true; ok tt
