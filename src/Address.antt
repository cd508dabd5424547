-- ===== src/Address.antt =====
-- `ipaddress.IPv6Address` of the standard library, as far as the program uses it: an address is its
-- sixteen packed bytes.
use dhcpkit.Prelude.{
  ℕ, ◌+◌, ◌-◌, ◌*◌, ◌/◌, ◌%◌, ◌^◌, ◌≡◌, Bool, [], ◌∷◌, ◌&&◌, length, leb, ◌==◌, get_or, arith,
}
use dhcpkit.Wire.{Bytes, Result, ok, ◌>>◌, require}

abbrev pub Address : Type 0
Address = Bytes

abbrev pub IsAddress : Address → Type 0
IsAddress a = length a ≡ 16

-- IPv6Address(packed), which raises AddressValueError unless there are sixteen bytes.
unfoldable pub ipv6_address : Bytes → Result Address
ipv6_address packed = do require (length packed == 16); ok packed

abbrev pub any_address : Address
any_address = 0 ∷ 0 ∷ 0 ∷ 0 ∷ 0 ∷ 0 ∷ 0 ∷ 0 ∷ 0 ∷ 0 ∷ 0 ∷ 0 ∷ 0 ∷ 0 ∷ 0 ∷ 0 ∷ []

-- The octet at an index, 0 beyond the end.
abbrev octet : Address → ℕ → ℕ
octet a i = get_or a i 0

-- ff00::/8
unfoldable pub is_multicast : Address → Bool
is_multicast a = octet a 0 == 255

-- fe80::/10
unfoldable pub is_link_local : Address → Bool
is_link_local a = octet a 0 == 254 && (octet a 1 / 64) == 2

unfoldable pub number_of : Address → ℕ → ℕ
number_of [] acc = acc
number_of (b ∷ bs) acc = number_of bs (acc * 256 + b)

-- ::1
unfoldable pub is_loopback : Address → Bool
unfolding number_of
is_loopback a = number_of a 0 == 1

-- ::
unfoldable pub is_unspecified : Address → Bool
unfolding number_of
is_unspecified a = number_of a 0 == 0

-- IPv6Network('address/length') raises a ValueError where the length is over 128 or a bit behind the
-- prefix is set.
unfoldable pub is_network : Address → ℕ → Bool
unfolding number_of
is_network a len = leb len 128 && (number_of a 0 % 2 ^ (128 - len)) == 0

pub ipv6_address-ok : (a : Address) → IsAddress a → ipv6_address a ≡ ok a
unfolding ipv6_address
ipv6_address-ok a h = ground (arith, h)

-- The first and the last address of a network, as numbers.
abbrev pub network_number : Address → ℕ
network_number a = number_of a 0

abbrev pub broadcast_number : Address → ℕ → ℕ
broadcast_number a len = number_of a 0 + 2 ^ (128 - len) - 1

-- A network is of such a kind when its first and its last address are.
unfoldable pub is_multicast_network : Address → ℕ → Bool
unfolding number_of
is_multicast_network a len =
    (network_number a / 2 ^ 120) == 255 && (broadcast_number a len / 2 ^ 120) == 255

unfoldable pub is_link_local_network : Address → ℕ → Bool
unfolding number_of
is_link_local_network a len =
    (network_number a / 2 ^ 118) == 1018 && (broadcast_number a len / 2 ^ 118) == 1018

unfoldable pub is_loopback_network : Address → ℕ → Bool
unfolding number_of
is_loopback_network a len = network_number a == 1 && broadcast_number a len == 1

-- IPv6Network.overlaps
unfoldable pub overlaps : Address × ℕ → Address × ℕ → Bool
unfolding number_of
overlaps (a, k) (b, l) =
    leb (network_number a) (broadcast_number b l) && leb (network_number b) (broadcast_number a k)
