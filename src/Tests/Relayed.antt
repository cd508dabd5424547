-- ===== src/Tests/Relayed.antt =====
-- The theorems on relay chains and transaction bundles at work, and runs of the definitions.
use dhcpkit.Prelude.{true, false, map, ◌≡◌, ◌↔◌, refl, [], ◌∷◌, some}
use dhcpkit.Wire.{ok}
use dhcpkit.Address.{Address, is_unspecified, is_loopback, is_link_local}
use dhcpkit.Bundle.{Bundle, started, new_bundle, outgoing_messages, link_address, first_useful}
use dhcpkit.Bundle.Outgoing.{sendable, outgoing_messages-nest}
use dhcpkit.Bundle.Links.{Finds, link_address-Finds}
use dhcpkit.Relay.Inner.{inner_message-split_relay_chain, inner_relay_message-split_relay_chain}
use dhcpkit.Relay.{
  inner_message, inner_relay_message, relayed_message, split_relay_chain, wrap_response,
}
use dhcpkit.Relay.Chain.{IsRequest, Relays, split_relay_chain_iff}
use dhcpkit.Relay.Wrap.{
  create_outgoing_relay_messages, replies, nest, create_outgoing_relay_messages-replies,
  wrap_response-nest,
}
use dhcpkit.Tests.Data.{
  relay_address, solicit_message, advertise_message, inner_relay, outer_relay, relays,
}

inner-Relays : Relays solicit_message relays outer_relay
unfolding relayed_message
inner-Relays = (tt, refl, (tt, refl, refl))

split_relay_chain_iff_example :
    (split_relay_chain outer_relay ≡ (some solicit_message, relays))
    ↔ (IsRequest solicit_message × Relays solicit_message relays outer_relay)
split_relay_chain_iff_example = split_relay_chain_iff outer_relay solicit_message relays

wrap_response-nest_example :
    wrap_response outer_relay advertise_message ≡ nest advertise_message relays
wrap_response-nest_example =
    wrap_response-nest solicit_message inner_relay advertise_message (outer_relay ∷ []) outer_relay
      refl inner-Relays

create_outgoing_relay_messages-replies_example :
    create_outgoing_relay_messages relays advertise_message ≡ replies advertise_message relays
create_outgoing_relay_messages-replies_example =
    create_outgoing_relay_messages-replies solicit_message advertise_message relays outer_relay refl
      inner-Relays tt

abbrev bundle : Bundle
bundle = started outer_relay true false false

bundle_made : new_bundle outer_relay true false false ≡ ok bundle
unfolding new_bundle
bundle_made = refl

bundle_request : bundle.client_request ≡ some solicit_message
unfolding split_relay_chain
bundle_request = refl

outgoing_messages-nest_example :
    outgoing_messages (record bundle { responses = advertise_message ∷ solicit_message ∷ [] })
    ≡ map
        (λ r. nest r bundle.incoming_relay_messages)
        (sendable (advertise_message ∷ solicit_message ∷ []))
outgoing_messages-nest_example =
    outgoing_messages-nest outer_relay solicit_message true false false bundle
      (advertise_message ∷ solicit_message ∷ []) bundle_made bundle_request (tt, (tt, tt))

link_address-Finds_example :
    (a : Address) × (link_address bundle ≡ some a) × Finds bundle.incoming_relay_messages a
link_address-Finds_example = link_address-Finds bundle refl

-- The client's message is at a relay on 2001:db8::1.
bundle_link : link_address bundle ≡ some relay_address
unfolding link_address first_useful split_relay_chain is_unspecified is_loopback is_link_local
bundle_link = refl

split_outer : split_relay_chain outer_relay ≡ (some solicit_message, relays)
unfolding split_relay_chain
split_outer = refl

inner_message-split_relay_chain_example : inner_message outer_relay ≡ some solicit_message
inner_message-split_relay_chain_example =
    inner_message-split_relay_chain outer_relay solicit_message relays split_outer

inner_relay_message-split_relay_chain_example : inner_relay_message outer_relay ≡ some inner_relay
inner_relay_message-split_relay_chain_example =
    inner_relay_message-split_relay_chain outer_relay solicit_message inner_relay (outer_relay ∷ [])
      split_outer
