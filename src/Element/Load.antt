-- ===== src/Element/Load.antt =====
-- `load_from` of the options with nested options, of RelayMessageOption and of the messages. The
-- parsers that they call, `Option.parse` in a loop and `Message.parse`, are arguments.
use dhcpkit.Prelude.{ℕ, ◌+◌, ◌-◌, Option, some, ◌==◌, drop}
use dhcpkit.Wire.{Bytes, Result, ok, ◌>>=◌, ◌>>◌, require, slice, byte_at, unpack_u32}
use dhcpkit.Address.{ipv6_address, is_network}
use dhcpkit.Header.{available, max_u16, parse_option_header}
use dhcpkit.Leaf.{LeafClass}
use dhcpkit.Leaf.Load.{load_leaf}
use dhcpkit.Element.{
  DhcpOption, leaf, ia_na, ia_ta, ia_address, ia_pd, ia_prefix, relay_message, Options, Message,
  unknown_message, client_server, relay_server, ClientServerClass, RelayClass, OptionClass,
  leaf_class, ia_na_option, ia_ta_option, ia_address_option, ia_pd_option, ia_prefix_option,
  relay_message_option, MessageClass, unknown_class, client_server_class, relay_class,
  client_server_type,
}

-- From the buffer, max_offset and my_offset: the options up to max_offset, and the offset reached.
abbrev pub OptionLoop : Type 0
OptionLoop = Bytes → ℕ → ℕ → Result (Options × ℕ)

abbrev pub MessageParser : Type 0
MessageParser = Bytes → Option ℕ → Result (ℕ × Message)

abbrev pub LoadOption : Type 0
LoadOption = Bytes → Option ℕ → Result (ℕ × DhcpOption)

unfoldable pub load_ia_na : OptionLoop → LoadOption
load_ia_na loop view len = do
  (my_offset, option_len) ← parse_option_header 3 view len 12 max_u16
  let iaid = slice view my_offset 4
  t1 ← unpack_u32 view (my_offset + 4)
  t2 ← unpack_u32 view (my_offset + 8)
  let max_offset = option_len + my_offset
  (options, stop) ← loop view max_offset (my_offset + 12)
  require (stop == max_offset)
  ok (stop, ia_na iaid t1 t2 options)

unfoldable pub load_ia_ta : OptionLoop → LoadOption
load_ia_ta loop view len = do
  (my_offset, option_len) ← parse_option_header 4 view len 4 max_u16
  let iaid = slice view my_offset 4
  let max_offset = option_len + my_offset
  (options, stop) ← loop view max_offset (my_offset + 4)
  require (stop == max_offset)
  ok (stop, ia_ta iaid options)

unfoldable pub load_ia_address : OptionLoop → LoadOption
load_ia_address loop view len = do
  (my_offset, option_len) ← parse_option_header 5 view len 24 max_u16
  address ← ipv6_address (slice view my_offset 16)
  preferred_lifetime ← unpack_u32 view (my_offset + 16)
  valid_lifetime ← unpack_u32 view (my_offset + 20)
  let max_offset = option_len + my_offset
  (options, stop) ← loop view max_offset (my_offset + 24)
  require (stop == max_offset)
  ok (stop, ia_address address preferred_lifetime valid_lifetime options)

unfoldable pub load_ia_pd : OptionLoop → LoadOption
load_ia_pd loop view len = do
  (my_offset, option_len) ← parse_option_header 25 view len 12 max_u16
  let iaid = slice view my_offset 4
  t1 ← unpack_u32 view (my_offset + 4)
  t2 ← unpack_u32 view (my_offset + 8)
  let max_offset = option_len + my_offset
  (options, stop) ← loop view max_offset (my_offset + 12)
  require (stop == max_offset)
  ok (stop, ia_pd iaid t1 t2 options)

-- A prefix is the network address and the prefix length.
unfoldable pub load_ia_prefix : OptionLoop → LoadOption
load_ia_prefix loop view len = do
  (my_offset, option_len) ← parse_option_header 26 view len 25 max_u16
  preferred_lifetime ← unpack_u32 view my_offset
  valid_lifetime ← unpack_u32 view (my_offset + 4)
  prefix_length ← byte_at view (my_offset + 8)
  address ← ipv6_address (slice view (my_offset + 9) 16)
  require (is_network address prefix_length)
  let max_offset = option_len + my_offset
  (options, stop) ← loop view max_offset (my_offset + 25)
  require (stop == max_offset)
  ok (stop, ia_prefix address prefix_length preferred_lifetime valid_lifetime options)

unfoldable pub load_relay_message : MessageParser → LoadOption
load_relay_message parse view len = do
  (my_offset, option_len) ← parse_option_header 9 view len 1 max_u16
  (message_len, relayed_message) ← parse (drop my_offset view) (some option_len)
  require (message_len == option_len)
  ok (my_offset + option_len, relay_message relayed_message)

unfoldable pub load_leaf_option : LeafClass → LoadOption
load_leaf_option c view len = do (used, option) ← load_leaf c view len; ok (used, leaf option)

unfoldable pub load_option : OptionClass → OptionLoop → MessageParser → LoadOption
load_option (leaf_class c) loop parse = load_leaf_option c
load_option ia_na_option loop parse = load_ia_na loop
load_option ia_ta_option loop parse = load_ia_ta loop
load_option ia_address_option loop parse = load_ia_address loop
load_option ia_pd_option loop parse = load_ia_pd loop
load_option ia_prefix_option loop parse = load_ia_prefix loop
load_option relay_message_option loop parse = load_relay_message parse

unfoldable pub load_unknown_message : MessageParser
load_unknown_message view len = do
  message_type ← byte_at view 0
  let message_data_len = available len view - 1
  ok (1 + message_data_len, unknown_message message_type (slice view 1 message_data_len))

unfoldable pub load_client_server : ClientServerClass → OptionLoop → MessageParser
load_client_server c loop view len = do
  message_type ← byte_at view 0
  require (message_type == client_server_type c)
  let transaction_id = slice view 1 3
  (options, stop) ← loop view (available len view) 4
  ok (stop, client_server c transaction_id options)

-- `load_from` also sets message_type, to the type for which the class was chosen.
unfoldable pub load_relay_server : RelayClass → OptionLoop → MessageParser
load_relay_server c loop view len = do
  message_type ← byte_at view 0
  hop_count ← byte_at view 1
  link_address ← ipv6_address (slice view 2 16)
  peer_address ← ipv6_address (slice view 18 16)
  (options, stop) ← loop view (available len view) 34
  ok (stop, relay_server c hop_count link_address peer_address options)

unfoldable pub load_message : MessageClass → OptionLoop → MessageParser
load_message unknown_class loop = load_unknown_message
load_message (client_server_class c) loop = load_client_server c loop
load_message (relay_class c) loop = load_relay_server c loop
