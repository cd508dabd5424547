-- ===== src/Duid/Ends.antt =====
-- dhcpkit/ipv6/duids.py: `DUID.parse` ends, and uses the length that it is given.
use dhcpkit.Prelude.{ℕ, ◌+◌, ◌≡◌, refl, Option, drop, ltb, ◌==◌}
use dhcpkit.Wire.{Bytes}
use dhcpkit.Wire.Ends.{Ends, returns, Any, Ends-bind, Ends-require, Ends-from_u16, Ends-from_u32}
use dhcpkit.Duid.{
  Duid, DuidClass, parse_duid, load_duid, determine_duid_class, parse_duid_header, given,
  load_unknown, load_link_layer_time, load_enterprise, load_link_layer, unknown_duid,
  link_layer_time_duid, enterprise_duid, link_layer_duid,
}

-- parse_duid uses the given length, whatever the class.
Ends-duid_header :
    (t : ℕ) (view : Bytes) (len : Option ℕ) → Ends (λ r. r ≡ 2) (parse_duid_header t view len)
unfolding parse_duid_header
Ends-duid_header t view len = Ends-bind (Ends-require (ltb 0 (given len))) λ _ _.
    Ends-bind (Ends-from_u16 view)
      λ found _. Ends-bind (Ends-require (found == t)) λ _ _. returns refl

abbrev pub UsesAll : Option ℕ → ℕ × Duid → Type 0
UsesAll len r = r.0 ≡ given len

Ends-load_duid :
    (c : DuidClass) (view : Bytes) (len : Option ℕ) → Ends (UsesAll len) (load_duid c view len)
unfolding load_duid load_unknown load_link_layer_time load_enterprise load_link_layer
Ends-load_duid unknown_duid view len =
    Ends-bind (Ends-from_u16 view)
      λ t _. Ends-bind (Ends-duid_header t view len) λ o _. returns refl
Ends-load_duid link_layer_time_duid view len = Ends-bind (Ends-duid_header 1 view len) λ o _.
    Ends-bind (Ends-from_u16 (drop o view))
      λ h _. Ends-bind (Ends-from_u32 (drop (o + 2) view)) λ t _. returns refl
Ends-load_duid enterprise_duid view len =
    Ends-bind (Ends-duid_header 2 view len)
      λ o _. Ends-bind (Ends-from_u32 (drop o view)) λ h _. returns refl
Ends-load_duid link_layer_duid view len =
    Ends-bind (Ends-duid_header 3 view len)
      λ o _. Ends-bind (Ends-from_u16 (drop o view)) λ h _. returns refl

Ends-determine_duid_class : (view : Bytes) → Ends Any (determine_duid_class view)
unfolding determine_duid_class
Ends-determine_duid_class view = Ends-bind (Ends-from_u16 view) λ t _. returns tt

pub Ends-parse_duid : (view : Bytes) (len : Option ℕ) → Ends (UsesAll len) (parse_duid view len)
unfolding parse_duid
Ends-parse_duid view len =
    Ends-bind (Ends-determine_duid_class view) λ c _. Ends-load_duid c view len
