-- ===== src/Wire/Codes.antt =====
-- Lists of 16-bit codes, which OptionRequestOption and EchoRequestOption hold.
use dhcpkit.Prelude.{
  ℕ, zero, suc, ◌+◌, ◌*◌, ◌≡◌, refl, true, List, [], ◌∷◌, ◌++◌, length, map, all, ltb, arith,
  and_inv, ltb→lt,
}
use dhcpkit.Wire.{Bytes, Result, ok, err, struct_error, ◌>>=◌, u16}
use dhcpkit.Wire.Laws.{encode, AllFit, from_parts16}
use dhcpkit.Wire.Ends.{Ends, returns, raises, Any, Ends-bind}

-- unpack_from('!{n}H', buffer, offset)
unfoldable pub unpack_u16s : ℕ → Bytes → Result (List ℕ)
unpack_u16s zero bs = ok []
unpack_u16s (suc n) (a ∷ b ∷ bs) = do more ← unpack_u16s n bs; ok ((a * 256 + b) ∷ more)
unpack_u16s (suc n) _ = err struct_error

pub unpack_u16s-encode :
    (os : List ℕ) (rest : Bytes) → unpack_u16s (length os) (encode (map u16 os) ++ rest) ≡ ok os
unfolding unpack_u16s
unpack_u16s-encode [] rest = refl
unpack_u16s-encode (o ∷ os) rest = rw (unpack_u16s-encode os rest, from_parts16)

pub length-codes : (os : List ℕ) → length os * 2 ≡ length (encode (map u16 os))
length-codes [] = refl
length-codes (o ∷ os) = omega (arith, length-codes os)

pub codes-AllFit : (os : List ℕ) → all (λ c. ltb c 65536) os ≡ true → AllFit (map u16 os)
codes-AllFit [] h = tt
codes-AllFit (o ∷ os) h =
    let (fit, more) = and_inv (ltb o 65536) _ h in (ltb→lt o 65536 fit, codes-AllFit os more)

pub Ends-unpack_u16s : (n : ℕ) (bs : Bytes) → Ends Any (unpack_u16s n bs)
unfolding unpack_u16s
Ends-unpack_u16s zero bs = returns tt
Ends-unpack_u16s (suc n) [] = raises (λ e. cc)
Ends-unpack_u16s (suc n) (a ∷ []) = raises (λ e. cc)
Ends-unpack_u16s (suc n) (a ∷ b ∷ bs) = Ends-bind (Ends-unpack_u16s n bs) λ _ _. returns tt
