-- ===== src/Domain/Options/Saves.antt =====
-- dhcpkit/ipv6/extensions/dns.py, sip_servers.py and dslite.py: `validate` and `save` of the options with
-- domain names: what passes `validate` can be saved.
use dhcpkit.Prelude.{ℕ, ◌<◌, ◌≡◌, refl, false, List, [], ◌∷◌, ◌++◌, length, arith}
use dhcpkit.Wire.{Bytes, ok, u16}
use dhcpkit.Wire.Laws.{>>=-eq-ok, pack-encode}
use dhcpkit.Header.{head_of}
use dhcpkit.Domain.{Characters, Idna, encode_domain, encode_domain_list}
use dhcpkit.Domain.Options.{
  save_domain_names, validate_domain_names, save_aftr_name, validate_aftr_name,
}

encode_domain_list-validated :
    (idna : Idna) (names : List Characters)
    → validate_domain_names idna names ≡ ok tt
    → (b : Bytes) × (encode_domain_list idna names ≡ ok b)
unfolding validate_domain_names encode_domain_list
encode_domain_list-validated idna [] v = ([], refl)
encode_domain_list-validated idna (name ∷ names) v =
    let (buffer, encoded, rest) = >>=-eq-ok (encode_domain idna name false) _ v in
    let (more, others) = encode_domain_list-validated idna names rest in
    (buffer ++ more, rw (encoded, others) refl)

-- A list of names that validate accepts has bytes, and where these are fewer than 65536 it is saved, as
-- the head with the type code and their number, and the bytes.
pub save_domain_names-validated :
    (idna : Idna) (t : ℕ) (names : List Characters)
    → t < 65536
    → validate_domain_names idna names ≡ ok tt
    → (b : Bytes) × (encode_domain_list idna names ≡ ok b)
      × (length b < 65536 → save_domain_names idna t names ≡ ok (head_of t (length b) ++ b))
unfolding save_domain_names
save_domain_names-validated idna t names small v =
    let (b, encoded) = encode_domain_list-validated idna names v in
    (
      b,
      encoded,
      λ fit. rw (encoded, pack-encode (u16 t ∷ u16 (length b) ∷ []) (small, (fit, tt))) refl,
    )

-- Likewise the name of a tunnel endpoint.
pub save_aftr_name-validated :
    (idna : Idna) (fqdn : Characters)
    → validate_aftr_name idna fqdn ≡ ok tt
    → (b : Bytes) × (encode_domain idna fqdn false ≡ ok b)
      × (length b < 65536 → save_aftr_name idna fqdn ≡ ok (head_of 64 (length b) ++ b))
unfolding save_aftr_name validate_aftr_name
save_aftr_name-validated idna fqdn v =
    let (b, encoded, long) = >>=-eq-ok (encode_domain idna fqdn false) _ v in
    (
      b,
      encoded,
      λ fit. rw (encoded, pack-encode (u16 64 ∷ u16 (length b) ∷ []) (omega arith, (fit, tt))) refl,
    )
