-- ===== src/Wire/Ends.antt =====
-- Results that come from a run that ended: a value with a property, or an error of the program.
use dhcpkit.Prelude.{◌≤◌, ◌≡◌, ◌≢◌, refl, subst, Bool, true, false, [], ◌∷◌, length, arith}
use dhcpkit.Wire.{
  Bytes, Error, Result, ok, err, out_of_fuel, ◌>>=◌, require, first, from_u16, from_u32,
}

pub data Ends {ℓ κ} {A : Type ℓ} (P : A → Type κ) : Result A → Type (ℓ ⊔ κ) where
  returns : {a : A} → P a → Ends P (ok a)
  raises : {e : Error} → e ≢ out_of_fuel → Ends P (err e)

abbrev pub Any {ℓ} : {A : Type ℓ} → A → Type 0
Any a = Unit

module _ {ℓ κ} {A : Type ℓ} {P : A → Type κ} where
  pub Ends-ne-out_of_fuel : {r : Result A} → Ends P r → r ≢ err out_of_fuel
  Ends-ne-out_of_fuel (returns p) h = cc
  Ends-ne-out_of_fuel (raises n) h = n (cc)

  pub Ends-ok : {r : Result A} {a : A} → Ends P r → r ≡ ok a → P a
  Ends-ok (returns p) h = subst P (cc) p
  Ends-ok (raises n) h = cc

  pub Ends-bind {ℓ' κ'} :
      {B : Type ℓ'} {Q : B → Type κ'} {r : Result A} {f : A → Result B}
      → Ends P r
      → ((a : A) → P a → Ends Q (f a))
      → Ends Q (r >>= f)
  Ends-bind (returns {a} p) k = k a p
  Ends-bind (raises n) k = raises n

pub Ends-require : (b : Bool) → Ends (λ _. b ≡ true) (require b)
Ends-require true = returns refl
Ends-require false = raises (λ e. cc)

-- What a read of `n` bytes at `i` says of the view.
pub Ends-first : (view : Bytes) → Ends (λ _. 1 ≤ length view) (first view)
Ends-first [] = raises (λ e. cc)
Ends-first (a ∷ bs) = returns (omega arith)

pub Ends-from_u16 : (view : Bytes) → Ends (λ _. 2 ≤ length view) (from_u16 view)
Ends-from_u16 [] = raises (λ e. cc)
Ends-from_u16 (a ∷ []) = raises (λ e. cc)
Ends-from_u16 (a ∷ b ∷ bs) = returns (omega arith)

pub Ends-from_u32 : (view : Bytes) → Ends (λ _. 4 ≤ length view) (from_u32 view)
Ends-from_u32 [] = raises (λ e. cc)
Ends-from_u32 (a ∷ []) = raises (λ e. cc)
Ends-from_u32 (a ∷ b ∷ []) = raises (λ e. cc)
Ends-from_u32 (a ∷ b ∷ c ∷ []) = raises (λ e. cc)
Ends-from_u32 (a ∷ b ∷ c ∷ d ∷ bs) = returns (omega arith)
