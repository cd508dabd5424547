-- ===== src/Tests/Names.antt =====
-- Domain names: runs, and the theorems at examples. The codec of the examples leaves ASCII as it is.
use dhcpkit.Prelude.{
  ◌+◌, ◌≤◌, ◌≡◌, refl, true, false, none, some, [], ◌∷◌, ◌++◌, length, leb, leb→le, ◌&&◌, and_inv,
  not, ◌==◌, arith, List, ℕ,
}
use dhcpkit.Wire.{Bytes, ok, err, value_error, require, pack, ◌>>=◌, ◌>>◌}
use dhcpkit.Wire.Laws.{require-ok}
use dhcpkit.Wire.Ends.{Ends, Any, Ends-bind, Ends-require, returns}
use dhcpkit.Header.{available}
use dhcpkit.Domain.{
  Characters, Idna, ChecksLabels, to_ascii, decode_name, parse_domain_bytes,
  parse_domain_list_bytes, parse_labels, parse_names, join, encode_domain, encode_domain_list,
  encode_labels, split, strip_dots, ends_with_dot,
}
use dhcpkit.Domain.RoundTrip.{parse_domain_bytes-encode_domain, canonical, limit}
use dhcpkit.Domain.Lists.{ReadsBack}
use dhcpkit.Domain.Ends.{Ends-parse_domain_list_bytes}
use dhcpkit.Domain.Options.{
  load_domain_names, save_domain_names, load_client_fqdn, save_client_fqdn,
}
use dhcpkit.Domain.Options.RoundTrip.{
  load_domain_names-save, load_domain_names-save_nil, load_client_fqdn-save, finished,
}
use dhcpkit.Address.{any_address}
use dhcpkit.Ntp
use dhcpkit.Ntp.{
  NtpSubOption, determine_suboption_class, load_ntp_servers, save_ntp_servers, save_suboptions,
  save_suboption, save_unknown_suboption, save_server_address, save_multicast_address,
  save_server_fqdn,
}
use dhcpkit.Ntp.RoundTrip.{load_ntp_servers-save}

unfoldable plain : Idna
plain = record {
  decode = λ bs. (do require (not (length bs == 0)); ok bs);
  encode = λ name. ok name;
  alabel = λ label. require (leb 1 (length label) && leb (length label) 63);
}

plain-ChecksLabels : ChecksLabels plain
unfolding plain
plain-ChecksLabels label h =
    let (least, most) = and_inv (leb 1 (length label)) (leb (length label) 63) (require-ok _ h) in
    (leb→le 1 (length label) least, leb→le (length label) 63 most)

plain-decodes : (bs : Bytes) → Ends Any (plain.decode bs)
unfolding plain
plain-decodes bs = Ends-bind (Ends-require (not (length bs == 0))) λ _ _. returns tt

-- ab.c. and, relative, ab
abbrev full_name : Characters
full_name = 97 ∷ 98 ∷ 46 ∷ 99 ∷ 46 ∷ []

abbrev relative_name : Characters
relative_name = 97 ∷ 98 ∷ []

abbrev full_bytes : Bytes
full_bytes = 2 ∷ 97 ∷ 98 ∷ 1 ∷ 99 ∷ 0 ∷ []

abbrev relative_bytes : Bytes
relative_bytes = 2 ∷ 97 ∷ 98 ∷ []

encode_full : encode_domain plain full_name false ≡ ok full_bytes
unfolding encode_domain encode_labels to_ascii split strip_dots ends_with_dot plain
encode_full = refl

encode_relative : encode_domain plain relative_name true ≡ ok relative_bytes
unfolding encode_domain encode_labels to_ascii split strip_dots ends_with_dot plain
encode_relative = refl

parse_relative :
    parse_domain_bytes plain (relative_bytes ++ (7 ∷ [])) (some 3) true ≡ ok (3, relative_name)
unfolding parse_domain_bytes parse_labels join plain
parse_relative = refl

-- A label that goes beyond the length is refused.
parse_beyond : parse_domain_bytes plain full_bytes (some 2) false ≡ err value_error
unfolding parse_domain_bytes parse_labels join plain
parse_beyond = refl

save_names : save_domain_names plain 24 (full_name ∷ []) ≡ ok (0 ∷ 24 ∷ 0 ∷ 6 ∷ full_bytes)
unfolding save_domain_names encode_domain_list encode_domain encode_labels to_ascii split strip_dots
    ends_with_dot plain pack
save_names = refl

save_no_names : save_domain_names plain 24 [] ≡ ok (0 ∷ 24 ∷ 0 ∷ 0 ∷ [])
unfolding save_domain_names encode_domain_list pack
save_no_names = refl

save_relative :
    save_client_fqdn plain (1, some relative_name) ≡ ok (0 ∷ 39 ∷ 0 ∷ 5 ∷ 1 ∷ 2 ∷ 97 ∷ 98 ∷ 0 ∷ [])
unfolding save_client_fqdn encode_domain encode_labels to_ascii split strip_dots ends_with_dot plain
    pack
save_relative = refl

full_name-ReadsBack : ReadsBack plain (full_name ∷ [])
unfolding to_ascii strip_dots ends_with_dot plain
full_name-ReadsBack =
    ((λ ascii named. let e : ascii ≡ full_name = cc in rw e (refl, omega arith)), tt)

parse_domain_bytes-encode_domain_example :
    (ascii : Characters) × (to_ascii plain relative_name ≡ ok ascii)
    × (parse_domain_bytes plain (relative_bytes ++ (7 ∷ [])) (some 3) true
        ≡ decode_name plain (limit true ascii) (canonical true ascii) (length relative_bytes))
parse_domain_bytes-encode_domain_example =
    parse_domain_bytes-encode_domain plain plain-ChecksLabels relative_name true true (7 ∷ []) 3
      encode_relative (λ e. e) (omega arith) (λ e. refl)

load_domain_names-save_example :
    load_domain_names plain 24 ((0 ∷ 24 ∷ 0 ∷ 6 ∷ full_bytes) ++ (5 ∷ [])) none
    ≡ ok (10, full_name ∷ [])
load_domain_names-save_example =
    load_domain_names-save plain plain-ChecksLabels 24 full_name [] (5 ∷ []) full_name-ReadsBack
      save_names

load_domain_names-save_nil_example :
    (load_domain_names plain 24 ((0 ∷ 24 ∷ 0 ∷ 0 ∷ []) ++ full_bytes) none
      ≡ (parse_domain_list_bytes plain full_bytes none >>= λ r. ok (4 + r.0, r.1)))
    × (load_domain_names plain 24 ((0 ∷ 24 ∷ 0 ∷ 0 ∷ []) ++ []) none ≡ ok (4, []))
    × ((next : ℕ) (more : Bytes) (n : ℕ)
        → ¬ (load_domain_names plain 24 ((0 ∷ 24 ∷ 0 ∷ 0 ∷ []) ++ (next ∷ more)) none ≡ ok (n, [])))
load_domain_names-save_nil_example = load_domain_names-save_nil plain 24 full_bytes save_no_names

-- The names that the empty list takes from the bytes behind it.
empty_list_reads_on : parse_domain_list_bytes plain full_bytes none ≡ ok (6, full_name ∷ [])
unfolding parse_domain_list_bytes parse_names parse_domain_bytes parse_labels join plain
empty_list_reads_on = refl

load_client_fqdn-save_example :
    (ascii : Characters) × (to_ascii plain relative_name ≡ ok ascii)
    × (load_client_fqdn plain ((0 ∷ 39 ∷ 0 ∷ 5 ∷ 1 ∷ 2 ∷ 97 ∷ 98 ∷ 0 ∷ []) ++ []) none ≡ (
        plain.decode (strip_dots ascii ++ (46 ∷ [])) >>= λ name.
        require (leb (length name) 254) >> finished 9 1 name))
load_client_fqdn-save_example =
    load_client_fqdn-save plain plain-ChecksLabels 1 relative_name [] save_relative

Ends-parse_domain_list_bytes_example :
    Ends
      (λ r. r.0 ≤ available (some 6) full_bytes)
      (parse_domain_list_bytes plain full_bytes (some 6))
Ends-parse_domain_list_bytes_example =
    Ends-parse_domain_list_bytes plain plain-decodes full_bytes (some 6)

-- An address, a name and an unknown suboption.
abbrev suboptions : List NtpSubOption
suboptions =
    Ntp.server_address any_address ∷ Ntp.server_fqdn full_name ∷ Ntp.unknown 9 (7 ∷ []) ∷ []

abbrev suboption_bytes : Bytes
suboption_bytes =
    (0 ∷ 1 ∷ 0 ∷ 16 ∷ any_address) ++ ((0 ∷ 3 ∷ 0 ∷ 6 ∷ full_bytes) ++ (0 ∷ 9 ∷ 0 ∷ 1 ∷ 7 ∷ []))

save_suboptions_bytes :
    save_ntp_servers plain suboptions ≡ ok ((0 ∷ 56 ∷ 0 ∷ 35 ∷ []) ++ suboption_bytes)
unfolding save_ntp_servers save_suboptions save_suboption save_unknown_suboption save_server_address
    save_multicast_address save_server_fqdn encode_domain encode_labels to_ascii split strip_dots
    ends_with_dot plain pack
save_suboptions_bytes = refl

nine_unknown : determine_suboption_class 9 ≡ Ntp.unknown_class
unfolding determine_suboption_class
nine_unknown = refl

load_ntp_servers-save_example :
    load_ntp_servers plain (((0 ∷ 56 ∷ 0 ∷ 35 ∷ []) ++ suboption_bytes) ++ (1 ∷ [])) none
    ≡ ok (39, suboptions)
load_ntp_servers-save_example =
    load_ntp_servers-save plain plain-ChecksLabels suboptions (1 ∷ [])
      (refl, (full_name-ReadsBack, (nine_unknown, tt))) save_suboptions_bytes
