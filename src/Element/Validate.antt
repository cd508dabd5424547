-- ===== src/Element/Validate.antt =====
-- `validate` of the options with nested options, of RelayMessageOption and of the messages. The
-- checks of Python types are what the model's types say.
use dhcpkit.Prelude.{
  ℕ, ◌^◌, Bool, true, false, List, [], ◌∷◌, ◌++◌, not, ◌&&◌, ◌||◌, any, length, ltb, ◌==◌,
}
use dhcpkit.Wire.{Bytes, Result, ok, ◌>>◌, require}
use dhcpkit.Address.{
  Address, is_multicast, is_link_local, is_loopback, is_multicast_network, is_link_local_network,
  is_loopback_network,
}
use dhcpkit.Leaf.Validate.{validate_leaf}
use dhcpkit.Element.{
  DhcpOption, leaf, ia_na, ia_ta, ia_address, ia_pd, ia_prefix, relay_message, Options, nil, cons,
  Message, unknown_message, client_server, relay_server, OptionClass, ia_na_option, ia_ta_option,
  ia_address_option, ia_pd_option, ia_prefix_option,
}
use dhcpkit.Element.Contains.{validate_contains, is_class}
use dhcpkit.Element.Tables.{in_option, in_any_message, in_client_server, in_relay}

-- In these functions, `nested` checks the options: validate_contains, and validate of each.
unfoldable pub validate_ia_na : Bytes → ℕ → ℕ → Result (Unit {0}) → Result (Unit {0})
validate_ia_na iaid t1 t2 nested =
    require (length iaid == 4)
    >> (require (ltb t1 (2 ^ 32)) >> (require (ltb t2 (2 ^ 32)) >> nested))

unfoldable pub validate_ia_ta : Bytes → Result (Unit {0}) → Result (Unit {0})
validate_ia_ta iaid nested = require (length iaid == 4) >> nested

unfoldable pub validate_ia_address : Address → ℕ → ℕ → Result (Unit {0}) → Result (Unit {0})
validate_ia_address address preferred_lifetime valid_lifetime nested =
    require (not (is_link_local address || (is_loopback address || is_multicast address)))
    >> (require (ltb preferred_lifetime (2 ^ 32))
        >> (require (ltb valid_lifetime (2 ^ 32)) >> nested))

unfoldable pub validate_ia_pd : Bytes → ℕ → ℕ → Result (Unit {0}) → Result (Unit {0})
validate_ia_pd iaid t1 t2 nested =
    require (length iaid == 4)
    >> (require (ltb t1 (2 ^ 32)) >> (require (ltb t2 (2 ^ 32)) >> nested))

unfoldable pub validate_ia_prefix : Address → ℕ → ℕ → ℕ → Result (Unit {0}) → Result (Unit {0})
validate_ia_prefix address prefixlen preferred_lifetime valid_lifetime nested =
    require (ltb preferred_lifetime (2 ^ 32))
    >> (require (ltb valid_lifetime (2 ^ 32))
        >> (require (
              not (
                is_link_local_network address prefixlen
                || (is_loopback_network address prefixlen
                    || is_multicast_network address prefixlen)))
            >> nested))

abbrev pub equal_bytes : Bytes → Bytes → Bool
equal_bytes [] [] = true
equal_bytes (x ∷ xs) (y ∷ ys) = x == y && equal_bytes xs ys
equal_bytes _ _ = false

-- The IAIDs met so far, each with the class of its option.
abbrev pub Met : Type 0
Met = List (OptionClass × Bytes)

abbrev pub is_met : OptionClass → Bytes → Met → Bool
is_met c iaid met = any (λ m. is_class m.0 c && equal_bytes m.1 iaid) met

-- An empty IAID is passed over, as an option without one: `if iaid:`.
abbrev pub is_new : OptionClass → Bytes → Met → Bool
is_new c [] met = true
is_new c (b ∷ bs) met = not (is_met c (b ∷ bs) met)

abbrev pub append_iaid : OptionClass → Bytes → Met → Met
append_iaid c [] met = met
append_iaid c (b ∷ bs) met = (c, b ∷ bs) ∷ met

-- The loop over the options that makes sure that all IAIDs are unique for their type.
unfoldable pub unique_iaids : Met → Options → Bool
unique_iaids met nil = true
unique_iaids met (cons (ia_na i t1 t2 os) rest) =
    is_new ia_na_option i met && unique_iaids (append_iaid ia_na_option i met) rest
unique_iaids met (cons (ia_ta i os) rest) =
    is_new ia_ta_option i met && unique_iaids (append_iaid ia_ta_option i met) rest
unique_iaids met (cons (ia_pd i t1 t2 os) rest) =
    is_new ia_pd_option i met && unique_iaids (append_iaid ia_pd_option i met) rest
unique_iaids met (cons _ rest) = unique_iaids met rest

unfoldable pub validate_unknown_message : ℕ → Result (Unit {0})
validate_unknown_message message_type = require (ltb message_type (2 ^ 8))

unfoldable pub validate_client_server : Bytes → Options → Result (Unit {0}) → Result (Unit {0})
validate_client_server transaction_id options nested =
    require (length transaction_id == 3) >> (nested >> require (unique_iaids [] options))

unfoldable pub validate_relay_server : ℕ → Address → Address → Result (Unit {0}) → Result (Unit {0})
validate_relay_server hop_count link_address peer_address nested =
    require (ltb hop_count (2 ^ 8))
    >> (require (not (is_multicast link_address))
        >> (require (not (is_multicast peer_address)) >> nested))

-- A RelayMessageOption may contain any message.
unfoldable mutual
  pub validate_option : DhcpOption → Result (Unit {0})
  validate_option (leaf l) = validate_leaf l
  validate_option (ia_na i t1 t2 os) =
      validate_ia_na i t1 t2 (validate_contains (in_option ia_na_option) os >> validate_options os)
  validate_option (ia_ta i os) =
      validate_ia_ta i (validate_contains (in_option ia_ta_option) os >> validate_options os)
  validate_option (ia_address a p v os) =
      validate_ia_address a p v
        (validate_contains (in_option ia_address_option) os >> validate_options os)
  validate_option (ia_pd i t1 t2 os) =
      validate_ia_pd i t1 t2 (validate_contains (in_option ia_pd_option) os >> validate_options os)
  validate_option (ia_prefix a l p v os) =
      validate_ia_prefix a l p v
        (validate_contains (in_option ia_prefix_option) os >> validate_options os)
  validate_option (relay_message m) = validate_message m

  pub validate_options : Options → Result (Unit {0})
  validate_options nil = ok tt
  validate_options (cons o os) = validate_option o >> validate_options os

  pub validate_message : Message → Result (Unit {0})
  validate_message (unknown_message t d) = validate_unknown_message t
  validate_message (client_server c i os) =
      validate_client_server i os
        (validate_contains (in_client_server c ++ in_any_message) os >> validate_options os)
  validate_message (relay_server c h l p os) =
      validate_relay_server h l p
        (validate_contains (in_relay c ++ in_any_message) os >> validate_options os)
