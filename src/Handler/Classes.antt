-- ===== src/Handler/Classes.antt =====
-- Lists of options: what holds of those that are kept by their class.
use dhcpkit.Prelude.{
  ◌≡◌, inl, inr, refl, Bool, true, false, [], ◌∷◌, ◌==◌, ◌&&◌, Bool-cases, and_inv, not,
}
use dhcpkit.Extension
use dhcpkit.Extension.{ExtensionClass}
use dhcpkit.Leaf
use dhcpkit.Leaf.{LeafClass, type_of_class, class_of}
use dhcpkit.Element.{
  DhcpOption, leaf, ia_na, ia_ta, ia_address, ia_pd, ia_prefix, relay_message, Options, nil, cons,
  Message, ia_na_option, ia_pd_option, OptionClass,
}
use dhcpkit.Element.Access.{join, contains, options_of, map_options, keep_options, has_class}
use dhcpkit.Bundle.{Bundle, get_unhandled_options}

abbrev pub AllOptions : (DhcpOption → Type 0) → Options → Type 0
AllOptions P nil = Unit
AllOptions P (cons o os) = P o × AllOptions P os

abbrev pub IsAssigned : DhcpOption → Type 0
IsAssigned (ia_na i t1 t2 os) = Unit
IsAssigned (ia_pd i t1 t2 os) = Unit
IsAssigned o = ⊥

extension_number :
    (c : ExtensionClass)
    → ((3 == Extension.type_of_class c) ≡ false)
      × ((25 == Extension.type_of_class c) ≡ false)
      × ((5 == Extension.type_of_class c) ≡ false)
      × ((26 == Extension.type_of_class c) ≡ false)
extension_number Extension.sip_servers_option = (refl, refl, refl, refl)
extension_number _ = (refl, refl, refl, refl)

pub leaf_number :
    (c : LeafClass)
    → ((3 == type_of_class c) ≡ false)
      × ((25 == type_of_class c) ≡ false)
      × ((5 == type_of_class c) ≡ false)
      × ((26 == type_of_class c) ≡ false)
leaf_number Leaf.unknown_option = (refl, refl, refl, refl)
leaf_number (Leaf.extension_option c) = extension_number c
leaf_number _ = (refl, refl, refl, refl)

pub ia_na-IsAssigned : (o : DhcpOption) → has_class (ia_na_option ∷ []) o ≡ true → IsAssigned o
ia_na-IsAssigned (ia_na i t1 t2 os) h = tt
ia_na-IsAssigned (leaf l) h = cc ((leaf_number (class_of l)).0)
ia_na-IsAssigned (ia_pd i t1 t2 os) h = tt
ia_na-IsAssigned (ia_ta i os) h = cc
ia_na-IsAssigned (ia_address a p v os) h = cc
ia_na-IsAssigned (ia_prefix a l p v os) h = cc
ia_na-IsAssigned (relay_message m) h = cc

pub ia_pd-IsAssigned : (o : DhcpOption) → has_class (ia_pd_option ∷ []) o ≡ true → IsAssigned o
ia_pd-IsAssigned (ia_na i t1 t2 os) h = tt
ia_pd-IsAssigned (leaf l) h = cc ((leaf_number (class_of l)).1)
ia_pd-IsAssigned (ia_pd i t1 t2 os) h = tt
ia_pd-IsAssigned (ia_ta i os) h = cc
ia_pd-IsAssigned (ia_address a p v os) h = cc
ia_pd-IsAssigned (ia_prefix a l p v os) h = cc
ia_pd-IsAssigned (relay_message m) h = cc

pub All-keep :
    (P : DhcpOption → Type 0) (p : DhcpOption → Bool)
    → ((o : DhcpOption) → p o ≡ true → P o)
    → (os : Options) → AllOptions P (keep_options p os)
unfolding keep_options
All-keep P p h nil = tt
All-keep P p h (cons o os) = elim (Bool-cases (p o)) [
  | inl e ↦ rw e (h o e, All-keep P p h os)
  | inr e ↦ rw e (All-keep P p h os)
]

pub All-map-keep :
    (P : DhcpOption → Type 0) (p : DhcpOption → Bool) (f : DhcpOption → DhcpOption)
    → ((o : DhcpOption) → p o ≡ true → P (f o))
    → (os : Options) → AllOptions P (map_options f (keep_options p os))
unfolding keep_options map_options
All-map-keep P p f h nil = tt
All-map-keep P p f h (cons o os) = elim (Bool-cases (p o)) [
  | inl e ↦ rw e (h o e, All-map-keep P p f h os)
  | inr e ↦ rw e (All-map-keep P p f h os)
]

pub All-join :
    (P : DhcpOption → Type 0) (os ps : Options)
    → AllOptions P os
    → AllOptions P ps
    → AllOptions P (join os ps)
unfolding join
All-join P nil ps h k = k
All-join P (cons o os) ps (h, hs) k = (h, All-join P os ps hs k)

pub unhandled-All :
    (c : OptionClass) (P : DhcpOption → Type 0)
    → ((o : DhcpOption) → has_class (c ∷ []) o ≡ true → P o)
    → (asked : Message) (b : Bundle) → AllOptions P (get_unhandled_options (c ∷ []) asked b)
unfolding get_unhandled_options
unhandled-All c P h asked b =
    All-keep P (λ o. has_class (c ∷ []) o && not (contains o b.handled_options))
      (λ o k. h o (and_inv (has_class (c ∷ []) o) (not (contains o b.handled_options)) k).0)
      (options_of asked)
