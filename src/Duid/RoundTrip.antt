-- ===== src/Duid/RoundTrip.antt =====
-- DUIDs: what `save` writes, `parse` reads back.
use dhcpkit.Prelude.{◌≡◌, ◌≤◌, ◌<◌, some, [], ◌∷◌, ◌++◌, arith, length, take-append, ==_refl}
use dhcpkit.Wire.{Bytes, ok, u16, u32}
use dhcpkit.Wire.Laws.{encode, pack_append_inv, from_parts16, from_parts32}
use dhcpkit.Duid.{
  Duid, unknown, link_layer_time, enterprise, link_layer, duid_llt, duid_en, duid_ll, unknown_duid,
  duid_registry, parse_duid, save_duid,
}

-- An UnknownDUID has a type code that fits its field and for which no class is registered.
abbrev pub IsProper : Duid → Type 0
IsProper (unknown t d) = (t < 65536) × (duid_registry t ≡ unknown_duid)
IsProper _ = Unit

-- What `save` writes.
abbrev pub image : Duid → Bytes
image (unknown t d) = encode (u16 t ∷ []) ++ d
image (link_layer_time h t a) = encode (u16 duid_llt ∷ u16 h ∷ u32 t ∷ []) ++ a
image (enterprise n i) = encode (u16 duid_en ∷ u32 n ∷ []) ++ i
image (link_layer h a) = encode (u16 duid_ll ∷ u16 h ∷ []) ++ a

pub save_duid-image : (d : Duid) {b : Bytes} → save_duid d ≡ ok b → b ≡ image d
unfolding save_duid
save_duid-image (unknown t d) h = (pack_append_inv (u16 t ∷ []) d h).1
save_duid-image (link_layer_time h t a) e =
    (pack_append_inv (u16 duid_llt ∷ u16 h ∷ u32 t ∷ []) a e).1
save_duid-image (enterprise n i) e = (pack_append_inv (u16 duid_en ∷ u32 n ∷ []) i e).1
save_duid-image (link_layer h a) e = (pack_append_inv (u16 duid_ll ∷ u16 h ∷ []) a e).1

pub parse_duid-image :
    (d : Duid) (rest : Bytes)
    → IsProper d
    → parse_duid (image d ++ rest) (some (length (image d))) ≡ ok (length (image d), d)
unfolding parse_duid
parse_duid-image (unknown t d) rest h =
    ground (arith, from_parts16 t, ==_refl t, take-append d rest)
parse_duid-image (link_layer_time h t a) rest p =
    ground (arith, from_parts16 h, from_parts32 t, take-append a rest)
parse_duid-image (enterprise n i) rest p = ground (arith, from_parts32 n, take-append i rest)
parse_duid-image (link_layer h a) rest p = ground (arith, from_parts16 h, take-append a rest)

pub two_le_length-image : (d : Duid) → 2 ≤ length (image d)
two_le_length-image (unknown t d) = omega arith
two_le_length-image _ = omega arith

-- A DUID that save writes is what parse reads back when it is given the length, whatever bytes
-- follow; an UnknownDUID needs a type code that fits 16 bits and for which no class is registered.
pub parse_duid-save :
    (d : Duid) (rest : Bytes) {b : Bytes}
    → IsProper d
    → save_duid d ≡ ok b
    → parse_duid (b ++ rest) (some (length b)) ≡ ok (length b, d)
parse_duid-save d rest h saved = rw (save_duid-image d saved) (parse_duid-image d rest h)
