-- ===== src/Domain/RoundTrip.antt =====
-- dhcpkit/utils.py: what encode_domain and encode_domain_list write, parse_domain_bytes and
-- parse_domain_list_bytes read back.
use dhcpkit.Prelude.{
  ℕ, suc, ◌≤◌, ◌≡◌, refl, ap, ◌∙◌, Bool, true, false, some, List, [], ◌∷◌, ◌++◌, length, All, arith,
  length-append, append_assoc, if◌then◌else◌, Bool-cases, inl, inr, subst,
}
use dhcpkit.Wire.{Bytes, ok}
use dhcpkit.Wire.Laws.{>>=-eq-ok}
use dhcpkit.Header.{available-some}
use dhcpkit.Domain.{
  Characters, Idna, ChecksLabels, dot, join, split, encode_labels, final_zero, decode_name,
  parse_domain_bytes, strip_dots, to_ascii, is_full, without_dots, encode_domain,
}
use dhcpkit.Domain.Labels.{
  IsLabel, encoded, encode_labels-encoded, split_first, join-split, parse_labels-encoded,
}

-- The name in ASCII with one dot at the end, if it is not relative.
abbrev pub canonical : Bool → Characters → Bytes
canonical allow_relative ascii =
    if is_full allow_relative ascii then strip_dots ascii ++ (dot ∷ []) else ascii

abbrev pub limit : Bool → Characters → ℕ
limit allow_relative ascii = if is_full allow_relative ascii then 254 else 253

one_le_length-encoded : (cs : Characters) → 1 ≤ length (encoded (split cs))
one_le_length-encoded cs = let (l, ls, e) = split_first cs in rw e (omega arith)

is_relative :
    (allow_relative : Bool) (ascii : Characters)
    → is_full allow_relative ascii ≡ false
    → allow_relative ≡ true
is_relative true ascii h = refl
is_relative false ascii h = cc

-- What parse_domain_bytes makes of written labels.
parse-encoded :
    (idna : Idna) (ls : List Bytes) (ended allow_relative : Bool) (rest : Bytes) (n : ℕ)
    → All IsLabel ls
    → 1 ≤ length (encoded ls)
    → (ended ≡ false → allow_relative ≡ true)
    → length (encoded ls ++ final_zero ended) ≤ n
    → (allow_relative ≡ true → length (encoded ls ++ final_zero ended) ≡ n)
    → parse_domain_bytes idna ((encoded ls ++ final_zero ended) ++ rest) (some n) allow_relative
      ≡ decode_name idna
          (if ended then 254 else 253)
          (if ended then join ls ++ (dot ∷ []) else join ls)
          (length (encoded ls ++ final_zero ended))
unfolding parse_domain_bytes
parse-encoded idna ls ended ar rest n labels some_bytes relative within exact =
    let total = length-append {0} (encoded ls) (final_zero ended) in
    let view = (encoded ls ++ final_zero ended) ++ rest in
    let read =
      parse_labels-encoded (suc n) ls ended view rest 0 (length (encoded ls ++ final_zero ended)) n
        labels (omega (arith, total)) (append_assoc (encoded ls) (final_zero ended) rest)
        (omega (arith, total)) within (λ part. exact (relative part)) in
    rw (available-some n view (omega (arith, total)), read)
      (elim (Bool-cases ended) [
        | inl full ↦ rw full refl
        | inr part ↦ rw (part, relative part) refl
      ])

join-canonical :
    (ar : Bool) (ascii : Characters)
    → (if is_full ar ascii
        then join (split (without_dots ar ascii)) ++ (dot ∷ [])
        else join (split (without_dots ar ascii)))
      ≡ canonical ar ascii
join-canonical ar ascii = elim (Bool-cases (is_full ar ascii)) [
  | inl full ↦ rw (full, join-split) refl
  | inr part ↦ rw (part, join-split) refl
]

module _ (idna : Idna) where
  -- parse_domain_bytes, with n as the length, makes of b what idna.decode makes of the name in ASCII.
  -- The name is relative only where that was allowed when it was written.
  abbrev pub Reads : Bool → Bool → Characters → Bytes → ℕ → Bytes → Type 0
  Reads written_relative read_relative ascii rest n b =
      (written_relative ≡ true → read_relative ≡ true)
      → length b ≤ n
      → (read_relative ≡ true → length b ≡ n)
      → parse_domain_bytes idna (b ++ rest) (some n) read_relative
        ≡ decode_name idna (limit written_relative ascii) (canonical written_relative ascii)
            (length b)

  read_back :
      (wr rr : Bool) (ascii : Characters) (rest : Bytes) (n : ℕ)
      → All IsLabel (split (without_dots wr ascii))
      → Reads wr rr ascii rest n
          (encoded (split (without_dots wr ascii)) ++ final_zero (is_full wr ascii))
  read_back wr rr ascii rest n labels allowed within exact =
      let name = without_dots wr ascii in
      parse-encoded idna (split name) (is_full wr ascii) rr rest n labels
        (one_le_length-encoded name) (λ part. allowed (is_relative wr ascii part)) within exact
      ∙ ap
          (λ t.
            decode_name idna (limit wr ascii) t
              (length (encoded (split name) ++ final_zero (is_full wr ascii))))
          (join-canonical wr ascii)

  pub encode_domain-Reads :
      ChecksLabels idna
      → (name : Characters) (wr rr : Bool) (rest : Bytes) (n : ℕ) {b : Bytes}
      → encode_domain idna name wr ≡ ok b
      → (ascii : Characters) × (to_ascii idna name ≡ ok ascii)
        × (1 ≤ length b)
        × Reads wr rr ascii rest n b
  unfolding encode_domain
  encode_domain-Reads checks name wr rr rest n {b} h =
      let (ascii, named, h₁) = >>=-eq-ok (to_ascii idna name) _ h in
      let parts = split (without_dots wr ascii) in
      let (buffer, saved, h₂) = >>=-eq-ok (encode_labels idna parts) _ h₁ in
      let (written, labels) = encode_labels-encoded idna checks parts saved in
      let whole : encoded parts ++ final_zero (is_full wr ascii) ≡ b = cc in
      let some_bytes = one_le_length-encoded (without_dots wr ascii) in
      (
        ascii,
        named,
        subst (λ x. 1 ≤ length x) whole
            (omega (
              arith,
              length-append {0} (encoded parts) (final_zero (is_full wr ascii)),
              some_bytes,
            )),
        subst (Reads wr rr ascii rest n) whole (read_back wr rr ascii rest n labels),
      )

-- Where encode_domain writes bytes for a domain name, idna.encode gave an ASCII form of it.
-- parse_domain_bytes, which may allow relative names and does if encode_domain did, given those
-- bytes, whatever follows, with their number as the length, or more where it allows no relative
-- names: it uses just them and returns what idna.decode gives for that form, with its dots at the
-- end replaced by one unless the name was written as a relative one, with the check that it is at
-- most 254 or, relative, 253 characters. alabel of idna is to accept no label that is empty or
-- longer than 63 characters.
pub parse_domain_bytes-encode_domain :
    (idna : Idna) (checks : ChecksLabels idna) (name : Characters)
    (written_relative read_relative : Bool) (rest : Bytes) (n : ℕ) {b : Bytes}
    → encode_domain idna name written_relative ≡ ok b
    → (written_relative ≡ true → read_relative ≡ true)
    → length b ≤ n
    → (read_relative ≡ true → length b ≡ n)
    → (ascii : Characters) × (to_ascii idna name ≡ ok ascii)
      × (parse_domain_bytes idna (b ++ rest) (some n) read_relative
          ≡ decode_name idna
              (limit written_relative ascii)
              (canonical written_relative ascii)
              (length b))
parse_domain_bytes-encode_domain idna checks name wr rr rest n h allowed within exact =
    let (ascii, named, some_bytes, read) = encode_domain-Reads idna checks name wr rr rest n h in
    (ascii, named, read allowed within exact)
