-- ===== src/Extension/Addresses.antt =====
-- dhcpkit/ipv6/extensions: the loop of the options that list addresses ends, and reads what `save`
-- writes.
use dhcpkit.Prelude.{
  ℕ, zero, suc, ◌+◌, ◌-◌, ◌*◌, ◌%◌, ◌<◌, ◌≤◌, ◌≡◌, refl, sym, ap, ◌∙◌, Bool, true, false, List, [],
  ◌∷◌, ◌++◌, length, take, drop, arith, length-append, append_assoc, take-append, drop-append,
  drop-drop, lt→ltb, le→ltb, Bool-cases, inl, inr, ltb→lt, leb→le,
}
use dhcpkit.Wire.{Bytes, ok, slice}
use dhcpkit.Wire.Ends.{Ends, returns, Ends-bind}
use dhcpkit.Address.{Address, IsAddress, ipv6_address-ok}
use dhcpkit.Header.Ends.{Ends-ipv6_address}
use dhcpkit.Extension.Load.{load_addresses, below, fits_one}
use dhcpkit.Extension.Save.{packed_addresses}

abbrev pub AreAddresses : List Address → Type 0
AreAddresses [] = Unit
AreAddresses (a ∷ xs) = IsAddress a × AreAddresses xs

pub length-packed_addresses :
    (xs : List Address) → AreAddresses xs → length xs * 16 ≡ length (packed_addresses xs)
length-packed_addresses [] p = refl
length-packed_addresses (a ∷ xs) (p, ps) =
    omega (arith, p, length-append {0} a (packed_addresses xs), length-packed_addresses xs ps)

-- A condition of the loop that holds where there is an address to go, and not at the end.
abbrev pub Reads : (ℕ → ℕ → Bool) → Type 0
Reads continues =
    ((stop start : ℕ) → start + 16 ≤ stop → continues stop start ≡ true)
    × ((stop : ℕ) → continues stop stop ≡ false)

pub below-Reads : Reads below
below-Reads =
    (λ stop start h. lt→ltb start stop (omega arith), λ stop. le→ltb stop stop (omega arith))

pub fits_one-Reads : Reads fits_one
fits_one-Reads = (λ stop start h. ground arith, λ stop. ground arith)

pub load_addresses-packed :
    {continues : ℕ → ℕ → Bool}
    → Reads continues
    → (fuel : ℕ) (xs : List Address) (view rest : Bytes) (start stop : ℕ) → AreAddresses xs
    → length (packed_addresses xs) < fuel
    → drop start view ≡ packed_addresses xs ++ rest
    → stop ≡ start + length (packed_addresses xs)
    → load_addresses continues fuel view stop start ≡ ok (xs, stop)
unfolding load_addresses
load_addresses-packed reads zero xs view rest start stop p enough e h = absurd (omega arith)
load_addresses-packed reads (suc fuel) [] view rest start stop p enough e h =
    let here : stop ≡ start = omega arith in rw (here, reads.1 start) refl
load_addresses-packed reads (suc fuel) (a ∷ xs) view rest start stop (p, ps) enough e h =
    let total = length-append {0} a (packed_addresses xs) in
    let whole : drop start view ≡ a ++ (packed_addresses xs ++ rest) =
      e ∙ append_assoc a (packed_addresses xs) rest in
    let here : take 16 (drop start view) ≡ a =
      ap (λ (k : ℕ). take k (drop start view)) (sym p)
      ∙ ap (take (length a)) whole
      ∙ take-append a (packed_addresses xs ++ rest) in
    let behind : drop (start + 16) view ≡ packed_addresses xs ++ rest =
      sym (drop-drop start 16 view)
      ∙ ap (λ (k : ℕ). drop k (drop start view)) (sym p)
      ∙ ap (drop (length a)) whole
      ∙ drop-append a (packed_addresses xs ++ rest) in
    let next =
      load_addresses-packed reads fuel xs view rest (start + 16) stop ps (omega (arith, total, p))
        behind (omega (arith, total, p)) in
    rw (reads.0 stop start (omega (arith, total, p)), here, ipv6_address-ok a p, next) refl

-- The loop stops within the option where each round that is started has sixteen bytes to go.
pub Ends-load_addresses :
    (continues : ℕ → ℕ → Bool) (P : ℕ → Type 0) (fuel : ℕ) (view : Bytes) (stop start : ℕ)
    → ((s : ℕ) → s ≤ stop → P s → continues stop s ≡ true → (s + 16 ≤ stop) × P (s + 16))
    → stop - start < fuel
    → start ≤ stop
    → P start
    → Ends (λ r. (start ≤ r.1) × (r.1 ≤ stop)) (load_addresses continues fuel view stop start)
unfolding load_addresses
Ends-load_addresses continues P zero view stop start round enough low p = absurd (omega arith)
Ends-load_addresses continues P (suc fuel) view stop start round enough low p =
    elim (Bool-cases (continues stop start)) [
      | inl more ↦
          let (room, next) = round start low p more in
          rw more (
            Ends-bind (Ends-ipv6_address (slice view start 16)) λ a _.
              Ends-bind
                (Ends-load_addresses continues P fuel view stop (start + 16) round (omega arith)
                  room next)
                λ r q. returns (omega arith))
      | inr done ↦ rw done (returns (omega arith))
    ]

pub below_round :
    (stop s : ℕ)
    → s ≤ stop
    → (stop - s) % 16 ≡ 0
    → below stop s ≡ true
    → (s + 16 ≤ stop) × ((stop - (s + 16)) % 16 ≡ 0)
below_round stop s low p more =
    let left = ltb→lt s stop more in (omega (arith, left), omega (arith, left))

pub fits_one_round :
    (stop s : ℕ) → s ≤ stop → Unit {0} → fits_one stop s ≡ true → (s + 16 ≤ stop) × Unit {0}
fits_one_round stop s low p more = (leb→le (s + 16) stop more, tt)
