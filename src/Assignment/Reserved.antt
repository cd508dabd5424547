-- ===== src/Assignment/Reserved.antt =====
-- dhcpkit/ipv6/server/extensions/static_assignments/__init__.py: the addresses and prefixes in the answers.
use dhcpkit.Prelude.{
  ◌≡◌, ◌⊎◌, inl, inr, refl, Bool, true, Option, none, some, [], ◌∷◌, ◌==◌, ◌&&◌, Bool-cases,
}
use dhcpkit.Address.{Address}
use dhcpkit.Leaf.{class_of}
use dhcpkit.Element.{
  DhcpOption, leaf, ia_na, ia_ta, ia_address, ia_pd, ia_prefix, relay_message, Options, nil, cons,
  ia_address_option, ia_prefix_option,
}
use dhcpkit.Element.Validate.{equal_bytes}
use dhcpkit.Element.Access.{has_class}
use dhcpkit.Handler.Unanswered.{same_ia}
use dhcpkit.Assignment.{
  Assignment, Prefix, StaticAssignmentHandler, renew_prefix, renew_address, find_among,
  first_option,
}
use dhcpkit.Handler.Classes.{AllOptions, IsAssigned, leaf_number}

abbrev pub IsReserved : Assignment → DhcpOption → Type 0
IsReserved a (ia_address x preferred valid os) =
    (a.address ≡ some x) ⊎ ((preferred ≡ 0) × (valid ≡ 0))
IsReserved a (ia_prefix x l preferred valid os) =
    (a.prefix ≡ some (x, l)) ⊎ ((preferred ≡ 0) × (valid ≡ 0))
IsReserved a o = ⊥

-- An answer to an IA_NA or IA_PD option with such addresses and prefixes in it.
abbrev pub Grants : Assignment → DhcpOption → Type 0
Grants a (ia_na i t1 t2 os) = AllOptions (IsReserved a) os
Grants a (ia_pd i t1 t2 os) = AllOptions (IsReserved a) os
Grants a o = ⊥

abbrev pub OfFound : (DhcpOption → Type 0) → Option DhcpOption → Type 0
OfFound P none = Unit
OfFound P (some o) = P o

pub find_among-OfFound :
    (P : DhcpOption → Type 0) (p : DhcpOption → Bool) (os : Options) (default : Option DhcpOption)
    → AllOptions P os
    → OfFound P default
    → OfFound P (find_among p os default)
unfolding find_among
find_among-OfFound P p nil default h k = k
find_among-OfFound P p (cons o os) default (h, hs) k = elim (Bool-cases (p o)) [
  | inl e ↦ rw e h
  | inr e ↦ rw e (find_among-OfFound P p os default hs k)
]

pub first_option-OfFound :
    (P : DhcpOption → Type 0) (os : Options) → AllOptions P os → OfFound P (first_option os)
first_option-OfFound P nil h = tt
first_option-OfFound P (cons o os) (h, hs) = h

pub renew_address-IsReserved :
    (h : StaticAssignmentHandler) (a : Assignment) (address : Option Address) (o : DhcpOption)
    → a.address ≡ address
    → has_class (ia_address_option ∷ []) o ≡ true
    → IsReserved a (renew_address h address o)
renew_address-IsReserved h a none (ia_address x p v os) e k = inr (refl, refl)
renew_address-IsReserved h a (some y) (ia_address x p v os) e k =
    elim (Bool-cases (equal_bytes x y)) [
      | inl same ↦ rw same (inl e)
      | inr other ↦ rw other (inr (refl, refl))
    ]
renew_address-IsReserved h a address (leaf l) e k = cc ((leaf_number (class_of l)).2)
renew_address-IsReserved h a address (ia_na i t1 t2 os) e k = cc
renew_address-IsReserved h a address (ia_ta i os) e k = cc
renew_address-IsReserved h a address (ia_pd i t1 t2 os) e k = cc
renew_address-IsReserved h a address (ia_prefix x l p v os) e k = cc
renew_address-IsReserved h a address (relay_message m) e k = cc

pub renew_prefix-IsReserved :
    (h : StaticAssignmentHandler) (a : Assignment) (prefix : Option Prefix) (o : DhcpOption)
    → a.prefix ≡ prefix
    → has_class (ia_prefix_option ∷ []) o ≡ true
    → IsReserved a (renew_prefix h prefix o)
renew_prefix-IsReserved h a none (ia_prefix x l p v os) e k = inr (refl, refl)
renew_prefix-IsReserved h a (some (y, m)) (ia_prefix x l p v os) e k =
    elim (Bool-cases (equal_bytes x y && l == m)) [
      | inl same ↦ rw same (inl e)
      | inr other ↦ rw other (inr (refl, refl))
    ]
renew_prefix-IsReserved h a prefix (leaf l) e k = cc ((leaf_number (class_of l)).3)
renew_prefix-IsReserved h a prefix (ia_na i t1 t2 os) e k = cc
renew_prefix-IsReserved h a prefix (ia_ta i os) e k = cc
renew_prefix-IsReserved h a prefix (ia_pd i t1 t2 os) e k = cc
renew_prefix-IsReserved h a prefix (ia_address x p v os) e k = cc
renew_prefix-IsReserved h a prefix (relay_message m) e k = cc

pub same_ia-Grants :
    (a : Assignment) (o : DhcpOption) (inner : Options)
    → IsAssigned o
    → AllOptions (IsReserved a) inner
    → Grants a (same_ia o inner)
same_ia-Grants a (ia_na i t1 t2 os) inner h k = k
same_ia-Grants a (ia_pd i t1 t2 os) inner h k = k
same_ia-Grants a (ia_ta i os) inner h k = absurd h
same_ia-Grants a (leaf l) inner h k = absurd h
same_ia-Grants a (ia_address x p v os) inner h k = absurd h
same_ia-Grants a (ia_prefix x l p v os) inner h k = absurd h
same_ia-Grants a (relay_message m) inner h k = absurd h
