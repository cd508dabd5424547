-- ===== src/Domain.antt =====
-- dhcpkit/utils.py: the codec for domain names. A str is the list of its characters' code points; the
-- functions of the package idna are a parameter.
pub mod Labels
pub mod RoundTrip
pub mod Lists
pub mod Ends
pub mod Options
use dhcpkit.Prelude.{
  ℕ, zero, suc, ◌+◌, ◌-◌, ◌≤◌, ◌≡◌, Bool, true, false, Option, some, List, [], ◌∷◌, ◌++◌, length,
  drop, ltb, leb, ◌==◌, if◌then◌else◌,
}
use dhcpkit.Wire.{
  Bytes, Result, ok, err, value_error, out_of_fuel, ◌>>=◌, ◌>>◌, require, slice, byte_at,
}
use dhcpkit.Header.{available}

abbrev pub Characters : Type 0
Characters = List ℕ

-- idna.decode, idna.encode, whose result is ASCII and is decoded at once, and idna.alabel, whose result
-- is not used. IDNAError is a ValueError, and becomes one where it is caught.
pub record Idna : Type 0 where
  pub decode : Bytes → Result Characters
  pub encode : Characters → Result Characters
  pub alabel : Characters → Result (Unit {0})

-- '.'
abbrev pub dot : ℕ
dot = 46

-- b'.'.join
unfoldable pub join : List Bytes → Bytes
join [] = []
join (l ∷ []) = l
join (l ∷ m ∷ ms) = l ++ (dot ∷ join (m ∷ ms))

-- The loop of parse_domain_bytes, from `my_offset` to `max_offset`: the labels, whether a label of length
-- zero ended it, and the offset where it stops. Each round adds one at least to the offset, so
-- `max_offset + 1` rounds are enough.
unfoldable pub parse_labels : ℕ → Bytes → ℕ → ℕ → Result (List Bytes × Bool × ℕ)
parse_labels zero view max_offset my_offset = err out_of_fuel
parse_labels (suc fuel) view max_offset my_offset =
    let more = do
      label_length ← byte_at view my_offset
      let rest = parse_labels fuel view max_offset (my_offset + 1 + label_length)
      let with_label = do
        require (leb label_length 63)
        require (leb (my_offset + 1 + label_length) max_offset)
        (labels, ended, stop) ← rest
        ok (slice view (my_offset + 1) label_length ∷ labels, ended, stop)
      if label_length == 0 then ok ([], true, my_offset + 1) else with_label
    in if ltb my_offset max_offset then more else ok ([], false, my_offset)

-- What parse_domain_bytes returns for the bytes of a name of at most `limit` characters.
abbrev pub decode_name : Idna → ℕ → Bytes → ℕ → Result (ℕ × Characters)
decode_name idna limit domain_name_bytes my_offset = do
  domain_name ← idna.decode domain_name_bytes
  require (leb (length domain_name) limit)
  ok (my_offset, domain_name)

unfoldable pub parse_domain_bytes : Idna → Bytes → Option ℕ → Bool → Result (ℕ × Characters)
parse_domain_bytes idna view len allow_relative = do
  let max_offset = available len view
  (current_labels, ended, my_offset) ← parse_labels (suc max_offset) view max_offset 0
  let domain_name_bytes = join current_labels
  let relative =
      if allow_relative then decode_name idna 253 domain_name_bytes my_offset else err value_error
  if ended then decode_name idna 254 (domain_name_bytes ++ (dot ∷ [])) my_offset else relative

-- The loop of parse_domain_list_bytes. A name takes a byte at least, so `max_offset + 1` rounds are
-- enough.
unfoldable pub parse_names : Idna → ℕ → Bytes → ℕ → ℕ → Result (ℕ × List Characters)
parse_names idna zero view max_offset my_offset = err out_of_fuel
parse_names idna (suc fuel) view max_offset my_offset =
    let more = do
      (domain_name_len, domain_name) ←
          parse_domain_bytes idna (drop my_offset view) (some (max_offset - my_offset)) false
      (stop, domain_names) ← parse_names idna fuel view max_offset (my_offset + domain_name_len)
      ok (stop, domain_name ∷ domain_names)
    in if ltb my_offset max_offset then more else ok (my_offset, [])

unfoldable pub parse_domain_list_bytes : Idna → Bytes → Option ℕ → Result (ℕ × List Characters)
parse_domain_list_bytes idna view len =
    let max_offset = available len view in parse_names idna (suc max_offset) view max_offset 0

-- domain_name.endswith('.')
unfoldable pub ends_with_dot : Characters → Bool
ends_with_dot [] = false
ends_with_dot (c ∷ []) = c == dot
ends_with_dot (c ∷ d ∷ ds) = ends_with_dot (d ∷ ds)

abbrev put_before : ℕ → Characters → Characters
put_before c [] = if c == dot then [] else c ∷ []
put_before c (d ∷ ds) = c ∷ d ∷ ds

-- domain_name.rstrip('.')
unfoldable pub strip_dots : Characters → Characters
strip_dots [] = []
strip_dots (c ∷ cs) = put_before c (strip_dots cs)

abbrev put_first : ℕ → List Characters → List Characters
put_first c [] = (c ∷ []) ∷ []
put_first c (l ∷ ls) = (c ∷ l) ∷ ls

-- domain_name.split('.')
unfoldable pub split : Characters → List Characters
split [] = [] ∷ []
split (c ∷ cs) = let rest = split cs in if c == dot then [] ∷ rest else put_first c rest

-- The name without multiple dots at the end, in ASCII.
unfoldable pub to_ascii : Idna → Characters → Result Characters
to_ascii idna domain_name =
    idna.encode
      (if ends_with_dot domain_name then strip_dots domain_name ++ (dot ∷ []) else domain_name)

-- end_with_zero
abbrev pub is_full : Bool → Characters → Bool
is_full allow_relative domain_name = if allow_relative then ends_with_dot domain_name else true

abbrev pub without_dots : Bool → Characters → Characters
without_dots allow_relative domain_name =
    if is_full allow_relative domain_name then strip_dots domain_name else domain_name

-- buffer.append raises a ValueError for a number that is no byte.
unfoldable pub encode_labels : Idna → List Characters → Result Bytes
encode_labels idna [] = ok []
encode_labels idna (label ∷ labels) = do
  idna.alabel label
  require (ltb (length label) 256)
  more ← encode_labels idna labels
  ok ((length label ∷ label) ++ more)

abbrev pub final_zero : Bool → Bytes
final_zero end_with_zero = if end_with_zero then 0 ∷ [] else []

unfoldable pub encode_domain : Idna → Characters → Bool → Result Bytes
encode_domain idna domain_name allow_relative = do
  name ← to_ascii idna domain_name
  buffer ← encode_labels idna (split (without_dots allow_relative name))
  ok (buffer ++ final_zero (is_full allow_relative name))

unfoldable pub encode_domain_list : Idna → List Characters → Result Bytes
encode_domain_list idna [] = ok []
encode_domain_list idna (domain_name ∷ domain_names) = do
  buffer ← encode_domain idna domain_name false
  more ← encode_domain_list idna domain_names
  ok (buffer ++ more)

-- What the documentation of idna says of alabel: a label that is empty, or longer than 63 characters, is
-- an error.
abbrev pub ChecksLabels : Idna → Type 0
ChecksLabels idna =
    (label : Characters) → idna.alabel label ≡ ok tt → (1 ≤ length label) × (length label ≤ 63)
