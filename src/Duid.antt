-- ===== src/Duid.antt =====
-- dhcpkit/ipv6/duids.py: the DHCP unique identifiers, their classes, registry, parser and printer.
pub mod Ends
pub mod Saves
pub mod RoundTrip
use dhcpkit.Prelude.{
  ℕ, zero, suc, ◌+◌, ◌-◌, ◌<◌, ◌^◌, Bool, true, false, Option, none, some, List, [], ◌∷◌, ◌++◌,
  length, ltb, leb, ◌==◌, ◌&&◌, if◌then◌else◌,
}
use dhcpkit.Wire.{
  Bytes, Result, ok, err, value_error, ◌>>=◌, ◌>>◌, require, slice, unpack_u16, unpack_u32, u16,
  u32, pack,
}

abbrev pub duid_llt : ℕ
duid_llt = 1

abbrev pub duid_en : ℕ
duid_en = 2

abbrev pub duid_ll : ℕ
duid_ll = 3

-- The fields of the instances of the four classes.
pub data Duid : Type 0 where
  unknown : ℕ → Bytes → Duid
  link_layer_time : ℕ → ℕ → Bytes → Duid
  enterprise : ℕ → Bytes → Duid
  link_layer : ℕ → Bytes → Duid

pub data DuidClass : Type 0 where
  unknown_duid link_layer_time_duid enterprise_duid link_layer_duid : DuidClass

-- duid_registry.get(duid_type, UnknownDUID), with the entry points of setup.py.
unfoldable pub duid_registry : ℕ → DuidClass
duid_registry t =
    if t == duid_llt
    then link_layer_time_duid
    else if t == duid_en
    then enterprise_duid
    else if t == duid_ll
    then link_layer_duid
    else unknown_duid

-- `length`, where it has been checked to be there.
abbrev pub given : Option ℕ → ℕ
given none = 0
given (some n) = n

-- `duid_type` is that of the class. The result is the number of bytes used.
unfoldable pub parse_duid_header : ℕ → Bytes → Option ℕ → Result ℕ
parse_duid_header duid_type view len = do
  require (ltb 0 (given len))
  found ← unpack_u16 view 0
  require (found == duid_type)
  ok 2

-- In each `load_from` the offset ends at my_offset + (length - my_offset), which is `length`, also
-- where the difference is negative; the slice is then empty.
unfoldable pub load_unknown : Bytes → Option ℕ → Result (ℕ × Duid)
unfolding parse_duid_header
load_unknown view len = do
  duid_type ← unpack_u16 view 0
  my_offset ← parse_duid_header duid_type view len
  let duid_len = given len - my_offset
  ok (given len, unknown duid_type (slice view my_offset duid_len))

unfoldable pub load_link_layer_time : Bytes → Option ℕ → Result (ℕ × Duid)
unfolding parse_duid_header
load_link_layer_time view len = do
  my_offset ← parse_duid_header duid_llt view len
  hardware_type ← unpack_u16 view my_offset
  time ← unpack_u32 view (my_offset + 2)
  let ll_len = given len - (my_offset + 6)
  ok (given len, link_layer_time hardware_type time (slice view (my_offset + 6) ll_len))

unfoldable pub load_enterprise : Bytes → Option ℕ → Result (ℕ × Duid)
unfolding parse_duid_header
load_enterprise view len = do
  my_offset ← parse_duid_header duid_en view len
  enterprise_number ← unpack_u32 view my_offset
  let identifier_len = given len - (my_offset + 4)
  ok (given len, enterprise enterprise_number (slice view (my_offset + 4) identifier_len))

unfoldable pub load_link_layer : Bytes → Option ℕ → Result (ℕ × Duid)
unfolding parse_duid_header
load_link_layer view len = do
  my_offset ← parse_duid_header duid_ll view len
  hardware_type ← unpack_u16 view my_offset
  let ll_len = given len - (my_offset + 2)
  ok (given len, link_layer hardware_type (slice view (my_offset + 2) ll_len))

unfoldable pub load_duid : DuidClass → Bytes → Option ℕ → Result (ℕ × Duid)
unfolding load_unknown load_link_layer_time load_enterprise load_link_layer
load_duid unknown_duid = load_unknown
load_duid link_layer_time_duid = load_link_layer_time
load_duid enterprise_duid = load_enterprise
load_duid link_layer_duid = load_link_layer

-- DUID.determine_class
unfoldable pub determine_duid_class : Bytes → Result DuidClass
unfolding duid_registry
determine_duid_class view = do duid_type ← unpack_u16 view 0; ok (duid_registry duid_type)

-- DUID.parse: the number of bytes used, and the DUID.
unfoldable pub parse_duid : Bytes → Option ℕ → Result (ℕ × Duid)
unfolding load_duid determine_duid_class
parse_duid view len = do element_class ← determine_duid_class view; load_duid element_class view len

unfoldable pub save_unknown : ℕ → Bytes → Result Bytes
save_unknown duid_type duid_data = do head ← pack (u16 duid_type ∷ []); ok (head ++ duid_data)

unfoldable pub save_link_layer_time : ℕ → ℕ → Bytes → Result Bytes
save_link_layer_time hardware_type time link_layer_address = do
  head ← pack (u16 duid_llt ∷ u16 hardware_type ∷ u32 time ∷ [])
  ok (head ++ link_layer_address)

unfoldable pub save_enterprise : ℕ → Bytes → Result Bytes
save_enterprise enterprise_number identifier = do
  head ← pack (u16 duid_en ∷ u32 enterprise_number ∷ [])
  ok (head ++ identifier)

unfoldable pub save_link_layer : ℕ → Bytes → Result Bytes
save_link_layer hardware_type link_layer_address = do
  head ← pack (u16 duid_ll ∷ u16 hardware_type ∷ [])
  ok (head ++ link_layer_address)

unfoldable pub save_duid : Duid → Result Bytes
unfolding save_unknown save_link_layer_time save_enterprise save_link_layer
save_duid (unknown t d) = save_unknown t d
save_duid (link_layer_time h t a) = save_link_layer_time h t a
save_duid (enterprise n i) = save_enterprise n i
save_duid (link_layer h a) = save_link_layer h a

-- The checks of types are what the model's types say.
unfoldable pub validate_link_layer_time : ℕ → ℕ → Bytes → Result (Unit {0})
validate_link_layer_time hardware_type time link_layer_address = do
  require (ltb hardware_type (2 ^ 16))
  require (ltb time (2 ^ 32))
  require (leb (length link_layer_address) 120)

unfoldable pub validate_enterprise : ℕ → Bytes → Result (Unit {0})
validate_enterprise enterprise_number identifier = do
  require (ltb enterprise_number (2 ^ 32))
  require (leb (length identifier) 122)

unfoldable pub validate_link_layer : ℕ → Bytes → Result (Unit {0})
validate_link_layer hardware_type link_layer_address = do
  require (ltb hardware_type (2 ^ 16))
  require (leb (length link_layer_address) 124)

-- UnknownDUID inherits the empty method of ProtocolElement.
unfoldable pub validate_duid : Duid → Result (Unit {0})
unfolding validate_link_layer_time validate_enterprise validate_link_layer
validate_duid (unknown t d) = ok tt
validate_duid (link_layer_time h t a) = validate_link_layer_time h t a
validate_duid (enterprise n i) = validate_enterprise n i
validate_duid (link_layer h a) = validate_link_layer h a
