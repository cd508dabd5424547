-- ===== src/Header/Ends.antt =====
-- The head of an option, an address and a text: their parsers end.
use dhcpkit.Prelude.{
  ℕ, ◌+◌, ◌≤◌, ◌≡◌, refl, Option, length, drop, arith, leb, ◌==◌, not, ◌&&◌, leb→le, ==_iff,
  length-drop,
}
use dhcpkit.Wire.{Bytes}
use dhcpkit.Wire.Ends.{Ends, returns, Any, Ends-bind, Ends-require, Ends-from_u16}
use dhcpkit.Address.{ipv6_address}
use dhcpkit.Utf8.{decode, is_utf8}
use dhcpkit.Header.{available, parse_option_header}

pub Ends-ipv6_address : (bs : Bytes) → Ends (λ _. length bs ≡ 16) (ipv6_address bs)
unfolding ipv6_address
Ends-ipv6_address bs =
    Ends-bind (Ends-require (length bs == 16)) λ _ p. returns ((==_iff (length bs) 16).0 p)

pub Ends-decode : (bs : Bytes) → Ends Any (decode bs)
unfolding decode
Ends-decode bs = Ends-bind (Ends-require (is_utf8 bs)) λ _ p. returns tt

-- An accepted head: its four bytes are there, and the data within what is available.
pub Ends-header :
    (t : ℕ) (view : Bytes) (len : Option ℕ) (low high : ℕ)
    → Ends
        (λ r. (r.0 ≡ 4) × (4 ≤ length view) × (4 + r.1 ≤ available len view) × (low ≤ r.1))
        (parse_option_header t view len low high)
unfolding parse_option_header
Ends-header t view len low high = Ends-bind (Ends-from_u16 view) λ found _.
    Ends-bind (Ends-from_u16 (drop 2 view)) λ n room. Ends-bind (Ends-require (found == t)) λ _ _.
      Ends-bind (Ends-require (not (low == high && not (low == n)))) λ _ _.
        Ends-bind (Ends-require (leb low n)) λ _ above. Ends-bind (Ends-require (leb n high)) λ _ _.
          Ends-bind (Ends-require (leb (4 + n) (available len view))) λ _ within.
            returns
              (refl, omega (arith, length-drop 2 view, room), leb→le _ _ within, leb→le _ _ above)
