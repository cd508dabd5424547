-- ===== src/Wire/Laws.antt =====
-- What `pack` writes, and that `unpack_from` reads it back.
use dhcpkit.Prelude.{
  zero, suc, Bool, false, ℕ, ◌+◌, ◌*◌, ◌/◌, ◌%◌, ◌<◌, ◌≡◌, refl, ap, ◌∙◌, take-append, true, List,
  [], ◌∷◌, ◌++◌, length, take, drop, arith, Bool-cases, inl, inr, drop-drop,
}
use dhcpkit.Wire.{
  Bytes, Result, ok, err, ◌>>=◌, ◌>>◌, require, Field, u8, u16, u32, raw, pad, encode_field, fits,
  pack, slice,
}

-- The offset of a nested call may be folded into the view.
pub slice-drop :
    (buffer : Bytes) (offset i n : ℕ) → slice (drop offset buffer) i n ≡ slice buffer (offset + i) n
slice-drop buffer offset i n = ap (take n) (drop-drop offset i buffer)

pub slice_here :
    (view s tail : Bytes) (start : ℕ)
    → drop start view ≡ s ++ tail
    → slice view start (length s) ≡ s
slice_here view s tail start e = ap (take (length s)) e ∙ take-append s tail

abbrev pub encode : List Field → Bytes
encode [] = []
encode (f ∷ fs) = encode_field f ++ encode fs

abbrev pub Fits : Field → Type 0
Fits (u8 n) = n < 256
Fits (u16 n) = n < 65536
Fits (u32 n) = n < 4294967296
Fits (raw k bs) = Unit

abbrev pub AllFit : List Field → Type 0
AllFit [] = Unit
AllFit (f ∷ fs) = Fits f × AllFit fs

fits→Fits : (f : Field) → fits f ≡ true → Fits f
fits→Fits (u8 n) h = ground arith
fits→Fits (u16 n) h = ground arith
fits→Fits (u32 n) h = ground arith
fits→Fits (raw k bs) h = tt

Fits→fits : (f : Field) → Fits f → fits f ≡ true
Fits→fits (u8 n) h = ground arith
Fits→fits (u16 n) h = ground arith
Fits→fits (u32 n) h = ground arith
Fits→fits (raw k bs) h = refl

-- Inversion of a successful bind.
pub >>=-eq-ok {ℓ ℓ'} :
    {X : Type ℓ} {Y : Type ℓ'} (run : Result X) (next : X → Result Y) {y : Y}
    → (run >>= next) ≡ ok y
    → (x : X) × (run ≡ ok x) × (next x ≡ ok y)
>>=-eq-ok (err raised) next e = cc
>>=-eq-ok (ok result) next e = (result, refl, e)

-- A check that passes, and what comes behind it.
pub require_inv :
    (test : Bool) (next : Result (Unit {0}))
    → (require test >> next) ≡ ok tt
    → (test ≡ true) × (next ≡ ok tt)
require_inv true next e = (refl, e)
require_inv false next e = cc

pub require-ok : (test : Bool) → require test ≡ ok tt → test ≡ true
require-ok true e = refl
require-ok false e = cc

-- `pack` fails or writes the fields, which then fit.
pub pack_inv : (fs : List Field) {b : Bytes} → pack fs ≡ ok b → AllFit fs × (b ≡ encode fs)
unfolding pack
pack_inv [] h = (tt, cc)
pack_inv (f ∷ fs) h = elim (Bool-cases (fits f)) [
  | inl e ↦
      let (bs, packed, whole) = >>=-eq-ok (pack fs) _ (rw e at h) in
      let (rest, written) = pack_inv fs packed in ((fits→Fits f e, rest), cc)
  | inr e ↦ cc (rw e at h)
]

pub pack-encode : (fs : List Field) → AllFit fs → pack fs ≡ ok (encode fs)
unfolding pack
pack-encode [] h = refl
pack-encode (f ∷ fs) h = rw (Fits→fits f h.0, pack-encode fs h.1)

-- A packed head and the bytes that the code appends to it.
pub pack_append_inv :
    (fs : List Field) (tail : Bytes) {b : Bytes}
    → (pack fs >>= λ head. ok (head ++ tail)) ≡ ok b
    → AllFit fs × (b ≡ encode fs ++ tail)
pack_append_inv fs tail h =
    let (head, packed, whole) = >>=-eq-ok (pack fs) _ h in
    let (fit, written) = pack_inv fs packed in (fit, cc)

pub from_parts16 : (n : ℕ) → n / 256 * 256 + n % 256 ≡ n
from_parts16 n = omega arith

pub from_parts32 :
    (n : ℕ) → ((n / 16777216 * 256 + n / 65536 % 256) * 256 + n / 256 % 256) * 256 + n % 256 ≡ n
from_parts32 n = omega arith

pub pad_id : (bs : Bytes) → pad (length bs) bs ≡ bs
unfolding pad
pad_id [] = refl
pad_id (b ∷ bs) = ap (λ t. b ∷ t) (pad_id bs)

pub length-pad : (k : ℕ) (bs : Bytes) → length (pad k bs) ≡ k
unfolding pad
length-pad zero bs = refl
length-pad (suc k) [] = ap suc (length-pad k [])
length-pad (suc k) (b ∷ bs) = ap suc (length-pad k bs)
