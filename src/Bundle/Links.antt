-- ===== src/Bundle/Links.antt =====
-- Where a request comes from: the link address of a transaction bundle.
use dhcpkit.Prelude.{
  ◌≡◌, refl, ap, Bool-cases, inl, inr, true, false, some, List, [], ◌∷◌, ◌++◌, All,
}
use dhcpkit.Address.{Address, any_address}
use dhcpkit.Element.{Message}
use dhcpkit.Bundle.{Bundle, link_of, is_useful, first_useful, link_address}

abbrev pub IsUseless : Message → Type 0
IsUseless r = is_useful (link_of r) ≡ false

-- The first of the relay messages with a useful link address, if there is one.
pub data Finds (relays : List Message) : Address → Type 0 where
  found :
      (before : List Message) (r : Message) (after : List Message)
      → relays ≡ before ++ (r ∷ after)
      → All IsUseless before
      → is_useful (link_of r) ≡ true
      → Finds relays (link_of r)
  nothing : All IsUseless relays → Finds relays any_address

past :
    (s : Message) (relays : List Message) {a : Address}
    → IsUseless s
    → Finds relays a
    → Finds (s ∷ relays) a
past s relays u (found before r after e all useful) =
    found (s ∷ before) r after (ap (λ t. s ∷ t) e) (u, all) useful
past s relays u (nothing all) = nothing (u, all)

first_useful-Finds : (relays : List Message) → Finds relays (first_useful relays)
unfolding first_useful
first_useful-Finds [] = nothing tt
first_useful-Finds (r ∷ rs) = elim (Bool-cases (is_useful (link_of r))) [
  | inl e ↦ rw e (found [] r rs refl tt e)
  | inr e ↦ rw e (past r rs e (first_useful-Finds rs))
]

-- For a transaction that was not received over TCP, link_address is the link address of the first
-- relay message from the client whose link address is neither unspecified nor loopback nor link-
-- local, and the unspecified address where there is none.
pub link_address-Finds :
    (b : Bundle)
    → b.received_over_tcp ≡ false
    → (a : Address) × (link_address b ≡ some a) × Finds b.incoming_relay_messages a
unfolding link_address
link_address-Finds b h = (
  first_useful b.incoming_relay_messages,
  rw h refl,
  first_useful-Finds b.incoming_relay_messages,
)
