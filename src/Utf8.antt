-- ===== src/Utf8.antt =====
-- `bytes.decode('utf-8')` of the standard library, as far as the program uses it: a text is kept as
-- its UTF-8 encoding, and decoding is the test that bytes are such an encoding.
use dhcpkit.Prelude.{
  ℕ, zero, suc, Bool, true, false, Option, none, some, [], ◌∷◌, ltb, leb, ◌&&◌, ◌==◌, if◌then◌else◌,
  ◌≡◌,
}
use dhcpkit.Wire.{Bytes, Result, ok, ◌>>◌, require}

-- The continuation bytes still wanted, and the range of the next one.
record Pending : Type 0 where
  count : ℕ
  low : ℕ
  high : ℕ

abbrev between : ℕ → ℕ → ℕ → Bool
between low high b = leb low b && leb b high

abbrev want : ℕ → ℕ → ℕ → Option Pending
want count low high = some (record { count = count; low = low; high = high })

-- What a byte may start, by RFC 3629: no overlong form, no surrogate, nothing over U+10FFFF.
lead : ℕ → Option Pending
lead b =
    if ltb b 128
    then want 0 0 0
    else if between 194 223 b
    then want 1 128 191
    else if b == 224
    then want 2 160 191
    else if b == 237
    then want 2 128 159
    else if between 225 239 b
    then want 2 128 191
    else if b == 240
    then want 3 144 191
    else if between 241 243 b
    then want 3 128 191
    else if b == 244
    then want 3 128 143
    else none

continue : ℕ → ℕ → ℕ → ℕ → Option Pending
continue zero low high b = lead b
continue (suc n) low high b = if between low high b then want n 128 191 else none

finished : ℕ → Bool
finished zero = true
finished (suc n) = false

utf8_from : Pending → Bytes → Bool
utf8_from p [] = finished p.count
utf8_from p (b ∷ bs) = elim (continue p.count p.low p.high b) [
  | none ↦ false
  | some q ↦ utf8_from q bs
]

unfoldable pub is_utf8 : Bytes → Bool
unfolding utf8_from finished continue lead
is_utf8 bs = utf8_from (record { count = 0; low = 0; high = 0 }) bs

abbrev pub Text : Type 0
Text = Bytes

abbrev pub IsText : Text → Type 0
IsText t = is_utf8 t ≡ true

-- data.decode('utf-8'), which raises UnicodeDecodeError.
unfoldable pub decode : Bytes → Result Text
decode bs = do require (is_utf8 bs); ok bs

pub decode-ok : (t : Text) → IsText t → decode t ≡ ok t
unfolding decode
decode-ok t h = rw h
