-- ===== src/Leaf/Validate.antt =====
-- dhcpkit/ipv6/options.py: `validate` of the option classes without nested options. The checks of
-- Python types are what the model's types say.
use dhcpkit.Prelude.{ℕ, ◌^◌, Bool, not, List, ◌&&◌, ◌||◌, length, all, ltb, ◌==◌}
use dhcpkit.Wire.{Bytes, Result, ok, ◌>>◌, require}
use dhcpkit.Address.{Address, is_loopback, is_multicast, is_unspecified}
use dhcpkit.Utf8.{Text}
use dhcpkit.Duid.{Duid, validate_duid}
use dhcpkit.Extension.Validate.{validate_extension}
use dhcpkit.Leaf

abbrev pub short : Bytes → Bool
short s = ltb (length s) (2 ^ 16)

unfoldable pub validate_unknown : ℕ → Bytes → Result (Unit {0})
validate_unknown option_type option_data = do
  require (ltb option_type (2 ^ 16))
  require (ltb (length option_data) (2 ^ 16))

unfoldable pub validate_client_id : Duid → Result (Unit {0})
validate_client_id duid = validate_duid duid

unfoldable pub validate_server_id : Duid → Result (Unit {0})
validate_server_id duid = validate_duid duid

unfoldable pub validate_option_request : List ℕ → Result (Unit {0})
validate_option_request requested_options = require (all (λ c. ltb c (2 ^ 16)) requested_options)

unfoldable pub validate_preference : ℕ → Result (Unit {0})
validate_preference preference = require (ltb preference (2 ^ 8))

unfoldable pub validate_elapsed_time : ℕ → Result (Unit {0})
validate_elapsed_time elapsed_time = require (ltb elapsed_time (2 ^ 16))

unfoldable pub validate_authentication : ℕ → ℕ → ℕ → Bytes → Bytes → Result (Unit {0})
validate_authentication protocol algorithm rdm replay_detection auth_info = do
  require (ltb protocol (2 ^ 8))
  require (ltb algorithm (2 ^ 8))
  require (ltb rdm (2 ^ 8))
  require (length replay_detection == 8)

unfoldable pub validate_server_unicast : Address → Result (Unit {0})
validate_server_unicast server_address = require (
    not (
      is_loopback server_address || (is_multicast server_address || is_unspecified server_address)))

unfoldable pub validate_status_code : ℕ → Text → Result (Unit {0})
validate_status_code status_code status_message = require (ltb status_code (2 ^ 16))

unfoldable pub validate_user_class : List Bytes → Result (Unit {0})
validate_user_class user_classes = require (all short user_classes)

unfoldable pub validate_vendor_class : ℕ → List Bytes → Result (Unit {0})
validate_vendor_class enterprise_number vendor_classes = do
  require (ltb enterprise_number (2 ^ 32))
  require (all short vendor_classes)

unfoldable pub validate_vendor_specific_information : ℕ → List (ℕ × Bytes) → Result (Unit {0})
validate_vendor_specific_information enterprise_number vendor_options = do
  require (ltb enterprise_number (2 ^ 32))
  require (all (λ o. ltb o.0 (2 ^ 16) && short o.1) vendor_options)

unfoldable pub validate_interface_id : Bytes → Result (Unit {0})
validate_interface_id interface_id = require (short interface_id)

unfoldable pub validate_reconfigure_message : ℕ → Result (Unit {0})
validate_reconfigure_message message_type = require (message_type == 5 || message_type == 11)

-- RapidCommitOption and ReconfigureAcceptOption inherit the empty method of ProtocolElement.
unfoldable pub validate_leaf : Leaf.Leaf → Result (Unit {0})
validate_leaf (Leaf.unknown t d) = validate_unknown t d
validate_leaf (Leaf.client_id d) = validate_client_id d
validate_leaf (Leaf.server_id d) = validate_server_id d
validate_leaf (Leaf.option_request os) = validate_option_request os
validate_leaf (Leaf.preference p) = validate_preference p
validate_leaf (Leaf.elapsed_time t) = validate_elapsed_time t
validate_leaf (Leaf.authentication p a r d i) = validate_authentication p a r d i
validate_leaf (Leaf.server_unicast a) = validate_server_unicast a
validate_leaf (Leaf.status_code c m) = validate_status_code c m
validate_leaf Leaf.rapid_commit = ok tt
validate_leaf (Leaf.user_class cs) = validate_user_class cs
validate_leaf (Leaf.vendor_class n cs) = validate_vendor_class n cs
validate_leaf (Leaf.vendor_specific_information n os) = validate_vendor_specific_information n os
validate_leaf (Leaf.interface_id i) = validate_interface_id i
validate_leaf (Leaf.reconfigure_message t) = validate_reconfigure_message t
validate_leaf Leaf.reconfigure_accept = ok tt
validate_leaf (Leaf.extension x) = validate_extension x
