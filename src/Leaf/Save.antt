-- ===== src/Leaf/Save.antt =====
-- dhcpkit/ipv6/options.py: `save` of the option classes without nested options.
use dhcpkit.Prelude.{ℕ, ◌+◌, ◌*◌, List, [], ◌∷◌, ◌++◌, length, map}
use dhcpkit.Wire.{Bytes, Result, ok, ◌>>=◌, u8, u16, u32, pack}
use dhcpkit.Address.{Address}
use dhcpkit.Utf8.{Text}
use dhcpkit.Duid.{Duid, save_duid}
use dhcpkit.Extension.Save.{save_extension}
use dhcpkit.Leaf

unfoldable pub save_unknown : ℕ → Bytes → Result Bytes
save_unknown option_type option_data = do
  head ← pack (u16 option_type ∷ u16 (length option_data) ∷ [])
  ok (head ++ option_data)

unfoldable pub save_client_id : Duid → Result Bytes
save_client_id duid = do
  duid_buffer ← save_duid duid
  head ← pack (u16 1 ∷ u16 (length duid_buffer) ∷ [])
  ok (head ++ duid_buffer)

unfoldable pub save_server_id : Duid → Result Bytes
save_server_id duid = do
  duid_buffer ← save_duid duid
  head ← pack (u16 2 ∷ u16 (length duid_buffer) ∷ [])
  ok (head ++ duid_buffer)

unfoldable pub save_option_request : List ℕ → Result Bytes
save_option_request requested_options = do
  head ← pack (u16 6 ∷ u16 (length requested_options * 2) ∷ [])
  codes ← pack (map u16 requested_options)
  ok (head ++ codes)

unfoldable pub save_preference : ℕ → Result Bytes
save_preference preference = pack (u16 7 ∷ u16 1 ∷ u8 preference ∷ [])

unfoldable pub save_elapsed_time : ℕ → Result Bytes
save_elapsed_time elapsed_time = pack (u16 8 ∷ u16 2 ∷ u16 elapsed_time ∷ [])

unfoldable pub save_authentication : ℕ → ℕ → ℕ → Bytes → Bytes → Result Bytes
save_authentication protocol algorithm rdm replay_detection auth_info = do
  head ← pack (u16 11 ∷ u16 (length auth_info + 11) ∷ u8 protocol ∷ u8 algorithm ∷ u8 rdm ∷ [])
  ok (head ++ (replay_detection ++ auth_info))

unfoldable pub save_server_unicast : Address → Result Bytes
save_server_unicast server_address = do
  head ← pack (u16 12 ∷ u16 16 ∷ [])
  ok (head ++ server_address)

unfoldable pub save_status_code : ℕ → Text → Result Bytes
save_status_code status_code message_bytes = do
  head ← pack (u16 13 ∷ u16 (length message_bytes + 2) ∷ u16 status_code ∷ [])
  ok (head ++ message_bytes)

unfoldable pub save_rapid_commit : Result Bytes
save_rapid_commit = pack (u16 14 ∷ u16 0 ∷ [])

-- The length-prefixed strings of UserClassOption and VendorClassOption.
unfoldable pub save_strings : List Bytes → Result Bytes
save_strings [] = ok []
save_strings (s ∷ ss) = do
  head ← pack (u16 (length s) ∷ [])
  more ← save_strings ss
  ok ((head ++ s) ++ more)

unfoldable pub save_user_class : List Bytes → Result Bytes
save_user_class user_classes = do
  user_classes_bytes ← save_strings user_classes
  head ← pack (u16 15 ∷ u16 (length user_classes_bytes) ∷ [])
  ok (head ++ user_classes_bytes)

unfoldable pub save_vendor_class : ℕ → List Bytes → Result Bytes
save_vendor_class enterprise_number vendor_classes = do
  vendor_classes_bytes ← save_strings vendor_classes
  head ← pack (u16 16 ∷ u16 (length vendor_classes_bytes + 4) ∷ u32 enterprise_number ∷ [])
  ok (head ++ vendor_classes_bytes)

unfoldable pub save_vendor_options : List (ℕ × Bytes) → Result Bytes
save_vendor_options [] = ok []
save_vendor_options ((code, s) ∷ ss) = do
  head ← pack (u16 code ∷ u16 (length s) ∷ [])
  more ← save_vendor_options ss
  ok ((head ++ s) ++ more)

unfoldable pub save_vendor_specific_information : ℕ → List (ℕ × Bytes) → Result Bytes
save_vendor_specific_information enterprise_number vendor_options = do
  vendor_options_bytes ← save_vendor_options vendor_options
  head ← pack (u16 17 ∷ u16 (length vendor_options_bytes + 4) ∷ u32 enterprise_number ∷ [])
  ok (head ++ vendor_options_bytes)

unfoldable pub save_interface_id : Bytes → Result Bytes
save_interface_id interface_id = do
  head ← pack (u16 18 ∷ u16 (length interface_id) ∷ [])
  ok (head ++ interface_id)

unfoldable pub save_reconfigure_message : ℕ → Result Bytes
save_reconfigure_message message_type = pack (u16 19 ∷ u16 1 ∷ u8 message_type ∷ [])

unfoldable pub save_reconfigure_accept : Result Bytes
save_reconfigure_accept = pack (u16 20 ∷ u16 0 ∷ [])

unfoldable pub save_leaf : Leaf.Leaf → Result Bytes
save_leaf (Leaf.unknown t d) = save_unknown t d
save_leaf (Leaf.client_id d) = save_client_id d
save_leaf (Leaf.server_id d) = save_server_id d
save_leaf (Leaf.option_request os) = save_option_request os
save_leaf (Leaf.preference p) = save_preference p
save_leaf (Leaf.elapsed_time t) = save_elapsed_time t
save_leaf (Leaf.authentication p a r d i) = save_authentication p a r d i
save_leaf (Leaf.server_unicast a) = save_server_unicast a
save_leaf (Leaf.status_code c m) = save_status_code c m
save_leaf Leaf.rapid_commit = save_rapid_commit
save_leaf (Leaf.user_class cs) = save_user_class cs
save_leaf (Leaf.vendor_class n cs) = save_vendor_class n cs
save_leaf (Leaf.vendor_specific_information n os) = save_vendor_specific_information n os
save_leaf (Leaf.interface_id i) = save_interface_id i
save_leaf (Leaf.reconfigure_message t) = save_reconfigure_message t
save_leaf Leaf.reconfigure_accept = save_reconfigure_accept
save_leaf (Leaf.extension x) = save_extension x
