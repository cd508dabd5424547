-- ===== src/Leaf/Load.antt =====
-- dhcpkit/ipv6/options.py: `load_from` of the option classes without nested options. Each returns
-- the number of bytes used and the option.
use dhcpkit.Wire.Codes.{unpack_u16s}
use dhcpkit.Prelude.{
  ℕ, zero, suc, ◌+◌, ◌-◌, ◌/◌, ◌%◌, Option, some, List, [], ◌∷◌, leb, ltb, ◌==◌, if◌then◌else◌,
  drop,
}
use dhcpkit.Wire.{
  Bytes, Result, ok, err, out_of_fuel, ◌>>=◌, ◌>>◌, require, slice, byte_at, unpack_u16, unpack_u32,
}
use dhcpkit.Address.{ipv6_address}
use dhcpkit.Utf8.{decode}
use dhcpkit.Duid.{parse_duid}
use dhcpkit.Header.{available, max_u16, parse_option_header}
use dhcpkit.Extension.{ExtensionClass}
use dhcpkit.Extension.Load.{load_extension}
use dhcpkit.Leaf

abbrev Load : Type 0
Load = Bytes → Option ℕ → Result (ℕ × Leaf.Leaf)

unfoldable pub load_unknown : Load
load_unknown view len = do
  option_type ← unpack_u16 view 0
  option_len ← unpack_u16 view 2
  require (leb (4 + option_len) (available len view))
  ok (4 + option_len, Leaf.unknown option_type (slice view 4 option_len))

unfoldable pub load_client_id : Load
load_client_id view len = do
  (my_offset, option_len) ← parse_option_header 1 view len 2 max_u16
  (duid_len, duid) ← parse_duid (drop my_offset view) (some option_len)
  ok (my_offset + duid_len, Leaf.client_id duid)

unfoldable pub load_server_id : Load
load_server_id view len = do
  (my_offset, option_len) ← parse_option_header 2 view len 2 max_u16
  (duid_len, duid) ← parse_duid (drop my_offset view) (some option_len)
  ok (my_offset + duid_len, Leaf.server_id duid)

unfoldable pub load_option_request : Load
load_option_request view len = do
  (my_offset, option_len) ← parse_option_header 6 view len 0 max_u16
  require (option_len % 2 == 0)
  requested_options ← unpack_u16s (option_len / 2) (drop my_offset view)
  ok (my_offset + option_len, Leaf.option_request requested_options)

unfoldable pub load_preference : Load
load_preference view len = do
  (my_offset, option_len) ← parse_option_header 7 view len 1 1
  preference ← byte_at view my_offset
  ok (my_offset + 1, Leaf.preference preference)

unfoldable pub load_elapsed_time : Load
load_elapsed_time view len = do
  (my_offset, option_len) ← parse_option_header 8 view len 2 2
  elapsed_time ← unpack_u16 view my_offset
  ok (my_offset + 2, Leaf.elapsed_time elapsed_time)

unfoldable pub load_authentication : Load
load_authentication view len = do
  (my_offset, option_len) ← parse_option_header 11 view len 11 max_u16
  protocol ← byte_at view my_offset
  algorithm ← byte_at view (my_offset + 1)
  rdm ← byte_at view (my_offset + 2)
  let replay_detection = slice view (my_offset + 3) 8
  let auth_data_length = option_len - 11
  let auth_info = slice view (my_offset + 11) auth_data_length
  ok (
    my_offset + 11 + auth_data_length,
    Leaf.authentication protocol algorithm rdm replay_detection auth_info,
  )

unfoldable pub load_server_unicast : Load
load_server_unicast view len = do
  (my_offset, option_len) ← parse_option_header 12 view len 16 16
  server_address ← ipv6_address (slice view my_offset 16)
  ok (my_offset + 16, Leaf.server_unicast server_address)

unfoldable pub load_status_code : Load
load_status_code view len = do
  (my_offset, option_len) ← parse_option_header 13 view len 2 max_u16
  status_code ← unpack_u16 view my_offset
  let message_length = option_len - 2
  status_message ← decode (slice view (my_offset + 2) message_length)
  ok (my_offset + 2 + message_length, Leaf.status_code status_code status_message)

unfoldable pub load_rapid_commit : Load
load_rapid_commit view len = do
  (my_offset, option_len) ← parse_option_header 14 view len 0 0
  ok (my_offset, Leaf.rapid_commit)

-- The loop over length-prefixed strings of UserClassOption and VendorClassOption, from `my_offset`
-- to `max_offset`: the strings and the offset where it stops. Each round adds two at least to the
-- offset, so `max_offset + 1` rounds are enough.
unfoldable pub load_strings : ℕ → Bytes → ℕ → ℕ → Result (List Bytes × ℕ)
load_strings zero view max_offset my_offset = err out_of_fuel
load_strings (suc fuel) view max_offset my_offset =
    let more = do
      string_length ← unpack_u16 view my_offset
      let string = slice view (my_offset + 2) string_length
      (strings, stop) ← load_strings fuel view max_offset (my_offset + 2 + string_length)
      ok (string ∷ strings, stop)
    in if ltb my_offset max_offset then more else ok ([], my_offset)

unfoldable pub load_user_class : Load
load_user_class view len = do
  (my_offset, option_len) ← parse_option_header 15 view len 0 max_u16
  let max_offset = option_len + my_offset
  (user_classes, stop) ← load_strings (suc max_offset) view max_offset my_offset
  require (stop == max_offset)
  ok (stop, Leaf.user_class user_classes)

unfoldable pub load_vendor_class : Load
load_vendor_class view len = do
  (my_offset, option_len) ← parse_option_header 16 view len 4 max_u16
  let max_offset = option_len + my_offset
  enterprise_number ← unpack_u32 view my_offset
  (vendor_classes, stop) ← load_strings (suc max_offset) view max_offset (my_offset + 4)
  require (stop == max_offset)
  ok (stop, Leaf.vendor_class enterprise_number vendor_classes)

-- The loop over the vendor options, likewise.
unfoldable pub load_vendor_options : ℕ → Bytes → ℕ → ℕ → Result (List (ℕ × Bytes) × ℕ)
load_vendor_options zero view max_offset my_offset = err out_of_fuel
load_vendor_options (suc fuel) view max_offset my_offset =
    let more = do
      option_code ← unpack_u16 view my_offset
      option_length ← unpack_u16 view (my_offset + 2)
      let vendor_option = slice view (my_offset + 4) option_length
      (options, stop) ← load_vendor_options fuel view max_offset (my_offset + 4 + option_length)
      ok ((option_code, vendor_option) ∷ options, stop)
    in if ltb my_offset max_offset then more else ok ([], my_offset)

unfoldable pub load_vendor_specific_information : Load
load_vendor_specific_information view len = do
  (my_offset, option_len) ← parse_option_header 17 view len 4 max_u16
  let max_offset = option_len + my_offset
  enterprise_number ← unpack_u32 view my_offset
  (vendor_options, stop) ← load_vendor_options (suc max_offset) view max_offset (my_offset + 4)
  require (stop == max_offset)
  ok (stop, Leaf.vendor_specific_information enterprise_number vendor_options)

unfoldable pub load_interface_id : Load
load_interface_id view len = do
  (my_offset, option_len) ← parse_option_header 18 view len 0 max_u16
  ok (my_offset + option_len, Leaf.interface_id (slice view my_offset option_len))

unfoldable pub load_reconfigure_message : Load
load_reconfigure_message view len = do
  (my_offset, option_len) ← parse_option_header 19 view len 1 1
  message_type ← byte_at view my_offset
  ok (my_offset + 1, Leaf.reconfigure_message message_type)

unfoldable pub load_reconfigure_accept : Load
load_reconfigure_accept view len = do
  (my_offset, option_len) ← parse_option_header 20 view len 0 0
  ok (my_offset, Leaf.reconfigure_accept)

unfoldable pub load_extension_option : ExtensionClass → Load
load_extension_option c view len = do
  (used, option) ← load_extension c view len
  ok (used, Leaf.extension option)

unfoldable pub load_leaf : Leaf.LeafClass → Load
load_leaf Leaf.unknown_option = load_unknown
load_leaf Leaf.client_id_option = load_client_id
load_leaf Leaf.server_id_option = load_server_id
load_leaf Leaf.option_request_option = load_option_request
load_leaf Leaf.preference_option = load_preference
load_leaf Leaf.elapsed_time_option = load_elapsed_time
load_leaf Leaf.authentication_option = load_authentication
load_leaf Leaf.server_unicast_option = load_server_unicast
load_leaf Leaf.status_code_option = load_status_code
load_leaf Leaf.rapid_commit_option = load_rapid_commit
load_leaf Leaf.user_class_option = load_user_class
load_leaf Leaf.vendor_class_option = load_vendor_class
load_leaf Leaf.vendor_specific_information_option = load_vendor_specific_information
load_leaf Leaf.interface_id_option = load_interface_id
load_leaf Leaf.reconfigure_message_option = load_reconfigure_message
load_leaf Leaf.reconfigure_accept_option = load_reconfigure_accept
load_leaf (Leaf.extension_option c) = load_extension_option c
