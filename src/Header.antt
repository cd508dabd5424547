-- ===== src/Header.antt =====
-- dhcpkit/ipv6/options.py: `Option.parse_option_header`, the common head of all options.
pub mod Ends
pub mod Frames
use dhcpkit.Prelude.{
  ℕ, zero, suc, ◌+◌, ◌/◌, ◌%◌, ◌≤◌, ◌<◌, ◌≡◌, ◌≢◌, refl, Option, none, some, List, [], ◌∷◌, ◌++◌,
  length, leb, ◌==◌, ◌&&◌, not, arith,
}
use dhcpkit.Wire.{Bytes, Result, ok, ◌>>=◌, ◌>>◌, require, unpack_u16, u16}
use dhcpkit.Wire.Laws.{from_parts16, encode}

-- length or (len(buffer) - offset)
abbrev pub available : Option ℕ → Bytes → ℕ
available none view = length view
available (some zero) view = length view
available (some (suc n)) view = suc n

pub available-some : (n : ℕ) (view : Bytes) → 0 < n → available (some n) view ≡ n
available-some zero view h = absurd (omega arith)
available-some (suc n) view h = refl

-- `option_type` is that of the class. The result is the offset behind the head, and option-len.
unfoldable pub parse_option_header : ℕ → Bytes → Option ℕ → ℕ → ℕ → Result (ℕ × ℕ)
parse_option_header option_type view len min_length max_length = do
  found ← unpack_u16 view 0
  option_len ← unpack_u16 view 2
  require (found == option_type)
  require (not (min_length == max_length && not (min_length == option_len)))
  require (leb min_length option_len)
  require (leb option_len max_length)
  require (leb (4 + option_len) (available len view))
  ok (4, option_len)

abbrev pub max_u16 : ℕ
max_u16 = 65535

abbrev pub head_of : ℕ → ℕ → Bytes
head_of option_type option_len = encode (u16 option_type ∷ u16 option_len ∷ [])

-- A head is read back where the length is within the bounds and the buffer holds the data.
pub parse_option_header-head :
    (t n min_length max_length : ℕ) (data_bytes : Bytes)
    → min_length ≤ n
    → n ≤ max_length
    → n ≤ length data_bytes
    → parse_option_header t (head_of t n ++ data_bytes) none min_length max_length ≡ ok (4, n)
unfolding parse_option_header
parse_option_header-head t n min_length max_length data_bytes low high room =
    ground (arith, from_parts16 t, from_parts16 n)
