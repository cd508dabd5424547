-- ===== src/Element/Proper.antt =====
-- Well-formed elements: the conditions on their values that Python's types do not say.
use dhcpkit.Prelude.{◌≡◌, true, length}
use dhcpkit.Address.{IsAddress, is_network}
use dhcpkit.Leaf
use dhcpkit.Leaf.{Leaf}
use dhcpkit.Leaf.Body
use dhcpkit.Element.{
  DhcpOption, leaf, ia_na, ia_ta, ia_address, ia_pd, ia_prefix, relay_message, Options, nil, cons,
  Message, unknown_message, client_server, relay_server, leaf_class, unknown_class, option_registry,
  message_registry,
}

-- An UnknownOption has a type code for which no class is registered.
abbrev pub IsRegistered : Leaf → Type 0
IsRegistered (Leaf.unknown t d) = option_registry t ≡ leaf_class Leaf.unknown_option
IsRegistered _ = Unit

-- What the values must be beside what their Python types say.
abbrev mutual
  pub IsProperOption : DhcpOption → Type 0
  IsProperOption (leaf l) = Body.IsProper l × IsRegistered l
  IsProperOption (ia_na iaid t1 t2 os) = (length iaid ≡ 4) × IsProperOptions os
  IsProperOption (ia_ta iaid os) = (length iaid ≡ 4) × IsProperOptions os
  IsProperOption (ia_address a p v os) = IsAddress a × IsProperOptions os
  IsProperOption (ia_pd iaid t1 t2 os) = (length iaid ≡ 4) × IsProperOptions os
  IsProperOption (ia_prefix a l p v os) = IsAddress a × (is_network a l ≡ true) × IsProperOptions os
  IsProperOption (relay_message m) = IsProper m

  pub IsProperOptions : Options → Type 0
  IsProperOptions nil = Unit
  IsProperOptions (cons o os) = IsProperOption o × IsProperOptions os

  pub IsProper : Message → Type 0
  IsProper (unknown_message t d) = message_registry t ≡ unknown_class
  IsProper (client_server c i os) = (length i ≡ 3) × IsProperOptions os
  IsProper (relay_server c h l p os) = IsAddress l × IsAddress p × IsProperOptions os
