-- ===== src/Domain/Options/RoundTrip.antt =====
-- dhcpkit/ipv6/extensions/dns.py, sip_servers.py, dslite.py and client_fqdn.py: what `save` of the options
-- with domain names writes, `load_from` reads back, or what it reads instead.
use dhcpkit.Prelude.{
  ℕ, ◌+◌, ◌≤◌, ◌≡◌, refl, ap, ◌∙◌, true, false, none, some, List, [], ◌∷◌, ◌++◌, length, arith, leb,
  leb→le, le→leb, ◌==◌, append_assoc, Bool-cases, inl, inr, equal_to, suc, sym, ltb, drop, ◌-◌,
  lt→ltb,
}
use dhcpkit.Wire.{Bytes, Result, ok, err, require, ◌>>◌, ◌>>=◌, u8, u16}
use dhcpkit.Wire.Laws.{require-ok, >>=-eq-ok, pack_append_inv}
use dhcpkit.Header.{head_of, max_u16, parse_option_header-head}
use dhcpkit.Header.Frames.{room}
use dhcpkit.Domain.{
  Characters, Idna, ChecksLabels, dot, to_ascii, strip_dots, encode_domain, encode_domain_list,
  parse_domain_list_bytes, parse_names, parse_domain_bytes,
}
use dhcpkit.Domain.RoundTrip.{encode_domain-Reads}
use dhcpkit.Domain.Lists.{ReadsBack, parse_domain_list_bytes-encode_domain_list}
use dhcpkit.Domain.Options.{
  load_domain_names, save_domain_names, load_aftr_name, save_aftr_name, validate_aftr_name,
  ClientFqdn, load_client_fqdn, save_client_fqdn,
}

-- For a list of domain names that is not empty, each of at most 254 characters and given back by
-- idna.decode from its ASCII form with one dot at the end: what the options with lists of names
-- save, they load, whatever bytes follow. alabel of idna is to accept no label that is empty or
-- longer than 63 characters.
pub load_domain_names-save :
    (idna : Idna) (checks : ChecksLabels idna) (t : ℕ) (name : Characters) (names : List Characters)
    (rest : Bytes) {b : Bytes}
    → ReadsBack idna (name ∷ names)
    → save_domain_names idna t (name ∷ names) ≡ ok b
    → load_domain_names idna t (b ++ rest) none ≡ ok (length b, name ∷ names)
unfolding load_domain_names save_domain_names
load_domain_names-save idna checks t name names rest {b} reads h =
    let (buffer, saved, h₁) = >>=-eq-ok (encode_domain_list idna (name ∷ names)) _ h in
    let (fit, written) = pack_append_inv (u16 t ∷ u16 (length buffer) ∷ []) buffer h₁ in
    let read = parse_domain_list_bytes-encode_domain_list idna checks name names rest reads saved in
    rw
      (
        written,
        append_assoc,
        parse_option_header-head t (length buffer) 0 max_u16 (buffer ++ rest) (omega arith)
            (omega (arith, fit)) (room buffer rest),
        read,
      )
      (ap (λ k. ok (k, name ∷ names)) (omega arith))

-- The names that are read from a buffer with a byte at least are one at least.
parse_names-some :
    (idna : Idna) (fuel : ℕ) (view : Bytes) (max_offset my_offset : ℕ) {n : ℕ}
    → ltb my_offset max_offset ≡ true
    → ¬ (parse_names idna (suc fuel) view max_offset my_offset ≡ ok (n, []))
unfolding parse_names
parse_names-some idna fuel view max_offset my_offset test h =
    let (first, h₁, h₂) =
      >>=-eq-ok
        (parse_domain_bytes idna (drop my_offset view) (some (max_offset - my_offset)) false) _
        (rw test at h) in
    let (others, h₃, h₄) =
      >>=-eq-ok (parse_names idna fuel view max_offset (my_offset + first.0)) _ h₂ in
    cc

-- An empty list that is saved and read back from the bytes behind it.
load_names_behind :
    (idna : Idna) (t : ℕ) (rest : Bytes) {b : Bytes}
    → save_domain_names idna t [] ≡ ok b
    → load_domain_names idna t (b ++ rest) none
      ≡ (parse_domain_list_bytes idna rest none >>= λ r. ok (length b + r.0, r.1))
unfolding load_domain_names save_domain_names encode_domain_list parse_domain_list_bytes
load_names_behind idna t rest {b} h =
    let (fit, written) = pack_append_inv (u16 t ∷ u16 0 ∷ []) [] h in
    rw
      (
        written,
        append_assoc,
        parse_option_header-head t 0 0 max_u16 rest (omega arith) (omega arith) (omega arith),
      )
      refl

-- An option with an empty list of domain names that is saved: what load_from returns, or raises, is
-- what parse_domain_list_bytes without a length makes of all the bytes behind the option. It is the
-- empty list where no bytes follow, and never the empty list where bytes follow.
pub load_domain_names-save_nil :
    (idna : Idna) (t : ℕ) (rest : Bytes) {b : Bytes}
    → save_domain_names idna t [] ≡ ok b
    → (load_domain_names idna t (b ++ rest) none
        ≡ (parse_domain_list_bytes idna rest none >>= λ r. ok (length b + r.0, r.1)))
      × (load_domain_names idna t (b ++ []) none ≡ ok (length b, []))
      × ((next : ℕ) (more : Bytes) (n : ℕ)
          → ¬ (load_domain_names idna t (b ++ (next ∷ more)) none ≡ ok (n, [])))
unfolding parse_domain_list_bytes parse_names
load_domain_names-save_nil idna t rest {b} h = (
  load_names_behind idna t rest h,
  rw (load_names_behind idna t [] h) (ap (λ k. ok (k, [])) (omega arith)),
  λ next more n loaded.
      let (read, h₁, h₂) =
        >>=-eq-ok (parse_domain_list_bytes idna (next ∷ more) none) _
          (sym (load_names_behind idna t (next ∷ more) h) ∙ loaded) in
      parse_names-some idna (length (next ∷ more)) (next ∷ more) (length (next ∷ more)) 0
        (lt→ltb 0 (length (next ∷ more)) (omega arith)) (h₁ ∙ ap (λ names. ok (read.0, names)) cc),
)

-- An AFTR name that validate accepts and that idna.decode gives back from its ASCII form is loaded as
-- it was saved, whatever bytes follow.
pub load_aftr_name-save :
    (idna : Idna) (checks : ChecksLabels idna) (fqdn : Characters) (rest : Bytes) {b : Bytes}
    → ReadsBack idna (fqdn ∷ [])
    → validate_aftr_name idna fqdn ≡ ok tt
    → save_aftr_name idna fqdn ≡ ok b
    → load_aftr_name idna (b ++ rest) none ≡ ok (length b, fqdn)
unfolding load_aftr_name save_aftr_name validate_aftr_name
load_aftr_name-save idna checks fqdn rest {b} (back, u) v h =
    let (buffer, saved, h₁) = >>=-eq-ok (encode_domain idna fqdn false) _ h in
    let (fit, written) = pack_append_inv (u16 64 ∷ u16 (length buffer) ∷ []) buffer h₁ in
    let long : 4 ≤ length buffer =
      leb→le 4 (length buffer) (require-ok (leb 4 (length buffer)) (rw saved at v)) in
    let (ascii, named, some_bytes, read) =
      encode_domain-Reads idna checks fqdn false false rest (length buffer) saved in
    let (decoded, short) = back ascii named in
    rw
      (
        written,
        append_assoc,
        parse_option_header-head 64 (length buffer) 4 max_u16 (buffer ++ rest) long
            (omega (arith, fit)) (room buffer rest),
        read (λ f. f) (omega arith) (λ f. cc),
        decoded,
        le→leb (length fqdn) 254 short,
        equal_to (4 + length buffer) (length buffer + 4) (omega arith),
      )
      (ap (λ k. ok (k, fqdn)) (omega arith))

abbrev pub finished : ℕ → ℕ → Characters → Result (ℕ × ClientFqdn)
finished n flags name = ok (n, (flags, some name))

abbrev measured : Result Characters → ℕ → Result (ℕ × Characters)
measured r k = do name ← r; require (leb (length name) 254); ok (k, name)

-- What is done with a name that is read.
with_name :
    (r : Result Characters) (n k stop : ℕ) (flags : ℕ)
    → (5 + k == stop) ≡ true
    → 5 + k ≡ n
    → (measured r k >>= λ x. require (5 + x.0 == stop) >> finished (5 + x.0) flags x.1)
      ≡ (r >>= λ name. require (leb (length name) 254) >> finished n flags name)
with_name (err e) n k stop flags whole h = refl
with_name (ok name) n k stop flags whole h = elim (Bool-cases (leb (length name) 254)) [
  | inl short ↦ rw (short, whole, h) refl
  | inr long ↦ rw long refl
]

-- A client FQDN option with a name that is saved, relative or not, was given an ASCII form by
-- idna.encode and is loaded, whatever bytes follow, with its flags and what idna.decode gives for
-- that form with one dot at the end, if that has at most 254 characters, and is otherwise an error.
-- alabel of idna is to accept no label that is empty or longer than 63 characters.
pub load_client_fqdn-save :
    (idna : Idna) (checks : ChecksLabels idna) (flags : ℕ) (domain_name : Characters) (rest : Bytes)
    {b : Bytes}
    → save_client_fqdn idna (flags, some domain_name) ≡ ok b
    → (ascii : Characters) × (to_ascii idna domain_name ≡ ok ascii)
      × (load_client_fqdn idna (b ++ rest) none ≡ (
          idna.decode (strip_dots ascii ++ (dot ∷ [])) >>= λ name.
          require (leb (length name) 254) >> finished (length b) flags name))
unfolding load_client_fqdn save_client_fqdn
load_client_fqdn-save idna checks flags domain_name rest {b} h =
    let (buffer, saved, h₁) = >>=-eq-ok (encode_domain idna domain_name false) _ h in
    let fields = u16 39 ∷ u16 (1 + length buffer) ∷ u8 flags ∷ [] in
    let (fit, written) = pack_append_inv fields buffer h₁ in
    let (ascii, named, some_bytes, read) =
      encode_domain-Reads idna checks domain_name false true rest (length buffer) saved in
    let data_bytes : Bytes = flags ∷ buffer in
    let whole : b ++ rest ≡ head_of 39 (length data_bytes) ++ (data_bytes ++ rest) =
      ap (λ x. x ++ rest) written
      ∙ ap (λ (k : ℕ). head_of 39 k ++ (flags ∷ (buffer ++ rest))) (omega arith) in
    let total : length b ≡ 5 + length buffer = ap length written ∙ omega arith in
    (
      ascii,
      named,
      rw
          (
            whole,
            parse_option_header-head 39 (length data_bytes) 0 max_u16 (data_bytes ++ rest)
                (omega arith) (omega (arith, fit)) (room data_bytes rest),
            read (λ f. cc) (omega arith) (λ f. refl),
          )
          (with_name (idna.decode (strip_dots ascii ++ (dot ∷ []))) (length b) (length buffer)
            (length data_bytes + 4) flags
            (equal_to (5 + length buffer) (length data_bytes + 4) (omega arith))
            (omega (arith, total))),
    )
