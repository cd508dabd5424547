-- ===== src/Domain/Lists.antt =====
-- dhcpkit/utils.py: what encode_domain_list writes, parse_domain_list_bytes reads back.
use dhcpkit.Prelude.{
  ℕ, zero, suc, ◌+◌, ◌-◌, ◌<◌, ◌≤◌, ◌≡◌, refl, ap, ◌∙◌, false, some, List, [], ◌∷◌, ◌++◌, length,
  drop, All, arith, length-append, append_assoc, drop_past, lt→ltb, le→ltb, le→leb,
}
use dhcpkit.Wire.{Bytes, ok}
use dhcpkit.Wire.Laws.{>>=-eq-ok}
use dhcpkit.Header.{available-some}
use dhcpkit.Domain.{
  Characters, Idna, ChecksLabels, dot, parse_names, parse_domain_list_bytes, strip_dots, to_ascii,
  encode_domain, encode_domain_list,
}
use dhcpkit.Domain.RoundTrip.{encode_domain-Reads}

module _ (idna : Idna) where
  -- idna.decode gives back each name from its ASCII form with one dot at the end.
  abbrev pub ReadsBack : List Characters → Type 0
  ReadsBack = All (λ name.
      (ascii : Characters)
      → to_ascii idna name ≡ ok ascii
      → (idna.decode (strip_dots ascii ++ (dot ∷ [])) ≡ ok name) × (length name ≤ 254))

  parse_names-encode_domain_list :
      ChecksLabels idna
      → (fuel : ℕ) (names : List Characters) (view rest : Bytes) (start stop : ℕ) {b : Bytes}
      → ReadsBack names
      → encode_domain_list idna names ≡ ok b
      → drop start view ≡ b ++ rest
      → stop ≡ start + length b
      → length b < fuel
      → parse_names idna fuel view stop start ≡ ok (stop, names)
  unfolding parse_names encode_domain_list
  parse_names-encode_domain_list checks zero names view rest start stop reads h e s enough =
      absurd (omega arith)
  parse_names-encode_domain_list checks (suc fuel) [] view rest start stop {b} reads h e s enough =
      let empty : length b ≡ 0 = cc in
      rw (le→ltb start stop (omega arith)) (ap (λ (k : ℕ). ok (k, [])) (omega arith))
  parse_names-encode_domain_list checks (suc fuel) (name ∷ names) view rest start stop {b}
        (back, reads) h e s enough =
      let (buffer, saved, h₁) = >>=-eq-ok (encode_domain idna name false) _ h in
      let (more, others, h₂) = >>=-eq-ok (encode_domain_list idna names) _ h₁ in
      let whole : b ≡ buffer ++ more = cc in
      let total : length b ≡ length buffer + length more =
        ap length whole ∙ length-append buffer more in
      let here : drop start view ≡ buffer ++ (more ++ rest) =
        e ∙ ap (λ t. t ++ rest) whole ∙ append_assoc buffer more rest in
      let (ascii, named, some_bytes, read) =
        encode_domain-Reads idna checks name false false (more ++ rest) (stop - start) saved in
      let (decoded, short) = back ascii named in
      let next =
        parse_names-encode_domain_list checks fuel names view rest (start + length buffer) stop
          reads others (drop_past view buffer (more ++ rest) start here) (omega (arith, total))
          (omega (arith, total, some_bytes)) in
      rw
        (
          lt→ltb start stop (omega (arith, total, some_bytes)),
          here,
          read (λ f. f) (omega (arith, total)) (λ f. cc),
          decoded,
          le→leb (length name) 254 short,
          next,
        )
        refl

one_le_length-encode_domain_list :
    (idna : Idna) (checks : ChecksLabels idna) (name : Characters) (names : List Characters)
    {b : Bytes}
    → encode_domain_list idna (name ∷ names) ≡ ok b
    → 1 ≤ length b
unfolding encode_domain_list
one_le_length-encode_domain_list idna checks name names {b} h =
    let (buffer, saved, h₁) = >>=-eq-ok (encode_domain idna name false) _ h in
    let (more, others, h₂) = >>=-eq-ok (encode_domain_list idna names) _ h₁ in
    let whole : b ≡ buffer ++ more = cc in
    let (ascii, named, some_bytes, read) =
      encode_domain-Reads idna checks name false false [] 0 saved in
    omega (arith, ap length whole ∙ length-append buffer more, some_bytes)

-- What encode_domain_list writes for a list with a name in it, parse_domain_list_bytes reads back.
pub parse_domain_list_bytes-encode_domain_list :
    (idna : Idna) (checks : ChecksLabels idna) (name : Characters) (names : List Characters)
    (rest : Bytes) {b : Bytes}
    → ReadsBack idna (name ∷ names)
    → encode_domain_list idna (name ∷ names) ≡ ok b
    → parse_domain_list_bytes idna (b ++ rest) (some (length b)) ≡ ok (length b, name ∷ names)
unfolding parse_domain_list_bytes
parse_domain_list_bytes-encode_domain_list idna checks name names rest {b} reads h =
    rw
      (available-some (length b) (b ++ rest)
        (one_le_length-encode_domain_list idna checks name names h))
      (parse_names-encode_domain_list idna checks (suc (length b)) (name ∷ names) (b ++ rest) rest 0
        (length b) reads h refl (omega arith) (omega arith))
