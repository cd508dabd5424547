-- ===== src/Leaf/Strings.antt =====
-- dhcpkit/ipv6/options.py: the loops of UserClassOption, VendorClassOption and
-- VendorSpecificInformationOption over what their `save` writes.
use dhcpkit.Prelude.{
  ℕ, zero, suc, ◌+◌, ◌<◌, ◌≡◌, ap, List, [], ◌∷◌, ◌++◌, length, drop, arith, length-append,
  append_assoc, lt→ltb, le→ltb, drop_past,
}
use dhcpkit.Wire.{Bytes, ok, u16}
use dhcpkit.Wire.Laws.{slice_here, encode, from_parts16}
use dhcpkit.Leaf.Load.{load_strings, load_vendor_options}
use dhcpkit.Leaf.Body.{strings, options}

-- With fuel for each byte that is left the loop reads the strings that were written start its offset.
pub load_strings-strings :
    (fuel : ℕ) (ss : List Bytes) (view rest : Bytes) (start stop : ℕ)
    → length (strings ss) < fuel
    → drop start view ≡ strings ss ++ rest
    → stop ≡ start + length (strings ss)
    → load_strings fuel view stop start ≡ ok (ss, stop)
unfolding load_strings
load_strings-strings zero ss view rest start stop enough e h = absurd (omega arith)
load_strings-strings (suc fuel) [] view rest start stop enough e h =
    rw (le→ltb start stop (omega arith)) (ap (λ n. ok ([], n)) (omega arith))
load_strings-strings (suc fuel) (s ∷ ss) view rest start stop enough e h =
    let prefix = encode (u16 (length s) ∷ []) in
    let tail = strings ss ++ rest in
    let total = length-append s (strings ss) in
    let at_string = drop_past view prefix (s ++ tail) start (rw append_assoc at e) in
    let behind = drop_past view s tail (start + 2) at_string in
    let next =
      load_strings-strings fuel ss view rest (start + 2 + length s) stop (omega (arith, total))
        behind (omega (arith, total)) in
    rw (lt→ltb start stop (omega (arith, total)), e, from_parts16, next)
      (ap (λ x. ok (x ∷ ss, stop)) (slice_here view s tail (start + 2) at_string))

-- Likewise the loop over vendor options.
pub load_vendor_options-options :
    (fuel : ℕ) (ss : List (ℕ × Bytes)) (view rest : Bytes) (start stop : ℕ)
    → length (options ss) < fuel
    → drop start view ≡ options ss ++ rest
    → stop ≡ start + length (options ss)
    → load_vendor_options fuel view stop start ≡ ok (ss, stop)
unfolding load_vendor_options
load_vendor_options-options zero ss view rest start stop enough e h = absurd (omega arith)
load_vendor_options-options (suc fuel) [] view rest start stop enough e h =
    rw (le→ltb start stop (omega arith)) (ap (λ n. ok ([], n)) (omega arith))
load_vendor_options-options (suc fuel) ((code, s) ∷ ss) view rest start stop enough e h =
    let prefix = encode (u16 code ∷ u16 (length s) ∷ []) in
    let tail = options ss ++ rest in
    let total = length-append s (options ss) in
    let whole = rw append_assoc at e in
    let at_length =
      drop_past view (encode (u16 code ∷ [])) (encode (u16 (length s) ∷ []) ++ (s ++ tail)) start
        whole in
    let at_string = drop_past view prefix (s ++ tail) start whole in
    let behind = drop_past view s tail (start + 4) at_string in
    let next =
      load_vendor_options-options fuel ss view rest (start + 4 + length s) stop
        (omega (arith, total)) behind (omega (arith, total)) in
    rw (lt→ltb start stop (omega (arith, total)), e, at_length, from_parts16, from_parts16, next)
      (ap (λ x. ok ((code, x) ∷ ss, stop)) (slice_here view s tail (start + 4) at_string))
