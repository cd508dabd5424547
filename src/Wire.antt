-- ===== src/Wire.antt =====
-- Python's `struct.pack`, `struct.unpack_from`, indexing and slicing of `bytes`, as the protocol
-- elements use them. A byte is a number. A buffer together with an offset into it is the rest of
-- the buffer from that offset on, the view: `load_from` reads `buffer[offset + k]` and so on, never
-- below the offset, and calls a nested parser with a larger offset, which is a further `drop`.
-- `Wire.Laws` proves that this loses nothing.
pub mod Laws
pub mod Ends
pub mod Codes
use dhcpkit.Prelude.{
  ℕ, zero, suc, ◌+◌, ◌*◌, ◌/◌, ◌%◌, ◌<◌, Bool, true, false, Option, none, some, List, [], ◌∷◌, ◌++◌,
  length, take, drop, ltb, if◌then◌else◌,
}

abbrev pub Bytes : Type 0
Bytes = List ℕ

-- `value_error` stands for ValueError and its subclasses (UnicodeDecodeError, AddressValueError).
-- `out_of_fuel` has no counterpart in the program.
pub data Error : Type 0 where
  value_error struct_error index_error out_of_fuel : Error

pub data Result {ℓ} (A : Type ℓ) : Type ℓ where
  err : Error → Result A
  ok : A → Result A

-- `if not test: raise ValueError`
abbrev pub require : Bool → Result (Unit {0})
require false = err value_error
require true = ok tt

infixl 5 ◌>>=◌
abbrev pub ◌>>=◌ {ℓ ℓ'} : {X : Type ℓ} {Y : Type ℓ'} → Result X → (X → Result Y) → Result Y
err raised >>= next = err raised
ok result >>= next = next result

infixl 5 ◌>>◌
abbrev pub ◌>>◌ {ℓ} : {Y : Type ℓ} → Result (Unit {0}) → Result Y → Result Y
test >> next = test >>= λ _. next

-- buffer[i:i + n]
abbrev pub slice : Bytes → ℕ → ℕ → Bytes
slice view i n = take n (drop i view)

-- buffer[i]
abbrev pub first : Bytes → Result ℕ
first [] = err index_error
first (a ∷ _) = ok a

abbrev pub byte_at : Bytes → ℕ → Result ℕ
byte_at view i = first (drop i view)

-- unpack_from('!H', buffer, i)[0]
abbrev pub from_u16 : Bytes → Result ℕ
from_u16 (a ∷ b ∷ _) = ok (a * 256 + b)
from_u16 _ = err struct_error

abbrev pub unpack_u16 : Bytes → ℕ → Result ℕ
unpack_u16 view i = from_u16 (drop i view)

-- unpack_from('!I', buffer, i)[0]
abbrev pub from_u32 : Bytes → Result ℕ
from_u32 (a ∷ b ∷ c ∷ d ∷ _) = ok (((a * 256 + b) * 256 + c) * 256 + d)
from_u32 _ = err struct_error

abbrev pub unpack_u32 : Bytes → ℕ → Result ℕ
unpack_u32 view i = from_u32 (drop i view)

-- One field of a format of `pack`: B, H, I and ks with its argument.
pub data Field : Type 0 where
  u8 u16 u32 : ℕ → Field
  raw : ℕ → Bytes → Field

-- `pack` cuts the argument of ks to k bytes, or pads it with zeros.
unfoldable pub pad : ℕ → Bytes → Bytes
pad zero bs = []
pad (suc k) [] = 0 ∷ pad k []
pad (suc k) (b ∷ bs) = b ∷ pad k bs

abbrev pub encode_field : Field → Bytes
encode_field (u8 n) = n ∷ []
encode_field (u16 n) = (n / 256) ∷ (n % 256) ∷ []
encode_field (u32 n) = (n / 16777216) ∷ (n / 65536 % 256) ∷ (n / 256 % 256) ∷ (n % 256) ∷ []
encode_field (raw k bs) = pad k bs

abbrev pub fits : Field → Bool
fits (u8 n) = ltb n 256
fits (u16 n) = ltb n 65536
fits (u32 n) = ltb n 4294967296
fits (raw k bs) = true

-- pack('!...', ...): struct.error where a number does not fit its field.
unfoldable pub pack : List Field → Result Bytes
pack [] = ok []
pack (f ∷ fs) =
    let rest = pack fs in
    if fits f then (do bs ← rest; ok (encode_field f ++ bs)) else err struct_error
