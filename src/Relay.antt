-- ===== src/Relay.antt =====
-- dhcpkit/ipv6/messages.py and dhcpkit/ipv6/utils.py: access to nested options and messages, the
-- chain of relay messages, and the reply to a relayed message.
pub mod Chain
pub mod Inner
pub mod Wrap
use dhcpkit.Prelude.{ℕ, Bool, true, false, Option, none, some, List, [], ◌∷◌, if◌then◌else◌}
use dhcpkit.Wire.{Bytes}
use dhcpkit.Element.{
  DhcpOption, leaf, ia_na, ia_ta, ia_address, ia_pd, ia_prefix, relay_message, Options, nil, cons,
  Message, unknown_message, client_server, relay_server, ClientServerClass, relay_forward,
  relay_reply, solicit, advertise, request, confirm, renew, rebind, reply, release, decline,
  reconfigure, information_request,
}

-- get_option_of_type(RelayMessageOption), and its relayed_message: that of the first such option.
unfoldable pub first_relayed : Options → Option Message
first_relayed nil = none
first_relayed (cons (relay_message m) os) = some m
first_relayed (cons _ os) = first_relayed os

-- The property relayed_message of RelayServerMessage.
unfoldable pub relayed_message : Message → Option Message
unfolding first_relayed
relayed_message (relay_server c h l p os) = first_relayed os
relayed_message _ = none

unfoldable pub set_first_relayed : Message → Options → Options
set_first_relayed m nil = cons (relay_message m) nil
set_first_relayed m (cons (relay_message old) os) = cons (relay_message m) os
set_first_relayed m (cons o os) = cons o (set_first_relayed m os)

-- The setter of relayed_message: overwrite the message of the first such option, or append one.
unfoldable pub set_relayed_message : Message → Message → Message
unfolding set_first_relayed
set_relayed_message m (relay_server c h l p os) = relay_server c h l p (set_first_relayed m os)
set_relayed_message m other = other

-- The property inner_message of RelayServerMessage; `within` is the loop over the options.
unfoldable mutual
  pub inner_message : Message → Option Message
  inner_message (relay_server c h l p os) = inner_within os
  inner_message (client_server c i os) = some (client_server c i os)
  inner_message (unknown_message t d) = some (unknown_message t d)

  pub inner_within : Options → Option Message
  inner_within nil = none
  inner_within (cons (relay_message m) os) = inner_message m
  inner_within (cons _ os) = inner_within os

-- The property inner_relay_message of RelayServerMessage. `inner_relay_of` is for a relayed message
-- and the message that relays it.
unfoldable mutual
  pub inner_relay_message : Message → Option Message
  inner_relay_message (relay_server c h l p os) = inner_relay_within os (relay_server c h l p os)
  inner_relay_message (client_server c i os) = none
  inner_relay_message (unknown_message t d) = none

  pub inner_relay_of : Message → Message → Option Message
  inner_relay_of (relay_server c h l p os) self = inner_relay_within os (relay_server c h l p os)
  inner_relay_of (client_server c i os) self = some self
  inner_relay_of (unknown_message t d) self = some self

  pub inner_relay_within : Options → Message → Option Message
  inner_relay_within nil self = some self
  inner_relay_within (cons (relay_message m) os) self = inner_relay_of m self
  inner_relay_within (cons _ os) self = inner_relay_within os self

-- RelayForwardMessage.wrap_response; `wrap_relayed` is what it makes of the relayed message: the
-- option that is appended to the reply, if any.
unfoldable mutual
  pub wrap_within : Options → Message → Options
  wrap_within nil response = nil
  wrap_within (cons (relay_message m) os) response = wrap_relayed m response
  wrap_within (cons _ os) response = wrap_within os response

  pub wrap_relayed : Message → Message → Options
  wrap_relayed (relay_server relay_forward h l p os) response =
      cons (relay_message (relay_server relay_reply h l p (wrap_within os response))) nil
  wrap_relayed (relay_server relay_reply h l p os) response = nil
  wrap_relayed (client_server c i os) response = cons (relay_message response) nil
  wrap_relayed (unknown_message t d) response = nil

unfoldable pub wrap_response : Message → Message → Message
unfolding wrap_within
wrap_response (relay_server c h l p os) response =
    relay_server relay_reply h l p (wrap_within os response)
wrap_response other response = other

-- The class attribute from_client_to_server.
abbrev pub from_client_to_server : ClientServerClass → Bool
from_client_to_server solicit = true
from_client_to_server request = true
from_client_to_server confirm = true
from_client_to_server renew = true
from_client_to_server rebind = true
from_client_to_server release = true
from_client_to_server decline = true
from_client_to_server information_request = true
from_client_to_server advertise = false
from_client_to_server reply = false
from_client_to_server reconfigure = false

-- split_relay_chain: the request, and the relay messages, the one closest to the client first.
-- `relays` are those found so far; `split_within` looks for the relayed message.
unfoldable mutual
  pub split_from : Message → List Message → Option Message × List Message
  split_from (relay_server relay_forward h l p os) relays =
      split_within os (relay_server relay_forward h l p os ∷ relays)
  split_from (relay_server relay_reply h l p os) relays = (none, [])
  split_from (unknown_message t d) relays = (none, [])
  split_from (client_server c i os) relays =
      if from_client_to_server c then (some (client_server c i os), relays) else (none, [])

  pub split_within : Options → List Message → Option Message × List Message
  split_within nil relays = (none, [])
  split_within (cons (relay_message m) os) relays = split_from m relays
  split_within (cons _ os) relays = split_within os relays

unfoldable pub split_relay_chain : Message → Option Message × List Message
unfolding split_from
split_relay_chain message = split_from message []
