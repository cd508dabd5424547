-- ===== src/Tests/Data.antt =====
-- The messages of the tests: a Solicit from a client, and the same behind two relays.
use dhcpkit.Prelude.{List, [], ◌∷◌, ◌++◌}
use dhcpkit.Wire.{Bytes}
use dhcpkit.Address.{Address}
use dhcpkit.Duid
use dhcpkit.Leaf
use dhcpkit.Element.{
  leaf, ia_na, ia_address, relay_message, Options, nil, cons, Message, client_server, relay_server,
  relay_forward, solicit, advertise,
}
use dhcpkit.Duid.{save_duid, parse_duid}

-- fe80::1
abbrev pub client_address : Address
client_address = 254 ∷ 128 ∷ 0 ∷ 0 ∷ 0 ∷ 0 ∷ 0 ∷ 0 ∷ 0 ∷ 0 ∷ 0 ∷ 0 ∷ 0 ∷ 0 ∷ 0 ∷ 1 ∷ []

-- 2001:db8::1
abbrev pub relay_address : Address
relay_address = 32 ∷ 1 ∷ 13 ∷ 184 ∷ 0 ∷ 0 ∷ 0 ∷ 0 ∷ 0 ∷ 0 ∷ 0 ∷ 0 ∷ 0 ∷ 0 ∷ 0 ∷ 1 ∷ []

abbrev pub client_duid : Duid.Duid
client_duid = Duid.link_layer 1 (0 ∷ 36 ∷ 54 ∷ 239 ∷ 29 ∷ 137 ∷ [])

abbrev pub address_options : Options
address_options = cons (leaf (Leaf.status_code 0 (79 ∷ 75 ∷ []))) nil

abbrev pub solicit_options : Options
solicit_options = cons (leaf (Leaf.client_id client_duid)) (
    cons (leaf Leaf.rapid_commit) (
      cons
        (ia_na (0 ∷ 0 ∷ 0 ∷ 1 ∷ []) 3600 5400
          (cons (ia_address relay_address 300 600 address_options) nil))
        (cons (leaf (Leaf.option_request (23 ∷ 24 ∷ []))) nil)))

abbrev pub solicit_message : Message
solicit_message = client_server solicit (241 ∷ 53 ∷ 9 ∷ []) solicit_options

abbrev pub advertise_message : Message
advertise_message = client_server advertise (241 ∷ 53 ∷ 9 ∷ []) solicit_options

abbrev pub solicit_bytes : Bytes
solicit_bytes =
    1
    ∷ 241
    ∷ 53
    ∷ 9
    ∷ 0
    ∷ 1
    ∷ 0
    ∷ 10
    ∷ 0
    ∷ 3
    ∷ 0
    ∷ 1
    ∷ 0
    ∷ 36
    ∷ 54
    ∷ 239
    ∷ 29
    ∷ 137
    ∷ 0
    ∷ 14
    ∷ 0
    ∷ 0
    ∷ 0
    ∷ 3
    ∷ 0
    ∷ 48
    ∷ 0
    ∷ 0
    ∷ 0
    ∷ 1
    ∷ 0
    ∷ 0
    ∷ 14
    ∷ 16
    ∷ 0
    ∷ 0
    ∷ 21
    ∷ 24
    ∷ 0
    ∷ 5
    ∷ 0
    ∷ 32
    ∷ (relay_address
        ++ (0 ∷ 0 ∷ 1 ∷ 44 ∷ 0 ∷ 0 ∷ 2 ∷ 88 ∷ 0 ∷ 13 ∷ 0 ∷ 4 ∷ 0 ∷ 0 ∷ 79 ∷ 75 ∷ 0 ∷ 6 ∷ 0 ∷ 4 ∷ 0
            ∷ 23 ∷ 0 ∷ 24 ∷ []))

-- From the client's link, and from the relay behind it.
abbrev pub inner_relay : Message
inner_relay =
    relay_server relay_forward 0 relay_address client_address
      (cons (leaf (Leaf.interface_id (97 ∷ []))) (cons (relay_message solicit_message) nil))

abbrev pub outer_relay : Message
outer_relay =
    relay_server relay_forward 1 relay_address relay_address (cons (relay_message inner_relay) nil)

abbrev pub relays : List Message
relays = inner_relay ∷ outer_relay ∷ []
