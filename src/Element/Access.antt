-- ===== src/Element/Access.antt =====
-- dhcpkit/ipv6/messages.py, dhcpkit/ipv6/options.py and dhcpkit/protocol_element.py: access to the
-- options of a message or an option, and the equality of elements.
use dhcpkit.Prelude.{
  Bool, true, false, Option, none, some, List, [], ◌∷◌, ◌++◌, any, not, ◌||◌, ◌≡◌, refl,
  if◌then◌else◌, ℕ_discrete,
}
use dhcpkit.Duid.{Duid}
use dhcpkit.Extension.{Extension}
use dhcpkit.Leaf.{Leaf}
use dhcpkit.Element.{
  DhcpOption, leaf, ia_na, ia_ta, ia_address, ia_pd, ia_prefix, relay_message, Options, nil, cons,
  Message, unknown_message, client_server, relay_server, OptionClass,
}
use dhcpkit.Element.Contains.{Occurrence, class_of_option, is_class}
use dhcpkit.Element.Tables.{in_client_server, in_relay, in_any_message}

-- ProtocolElement.__eq__: the same class, and equal values of all properties.
pub Duid-discrete : Discrete Duid
Duid-discrete = hlevel (ℕ_discrete)

pub Extension-discrete : Discrete Extension
Extension-discrete = hlevel (ℕ_discrete, Duid-discrete)

pub Leaf-discrete : Discrete Leaf
Leaf-discrete = hlevel (ℕ_discrete, Duid-discrete, Extension-discrete)

pub DhcpOption-discrete : Discrete DhcpOption
DhcpOption-discrete = hlevel (ℕ_discrete, Leaf-discrete)

-- A decision as a Boolean.
abbrev pub holds {ℓ} : {P : Type ℓ} → Dec P → Bool
holds (yes _) = true
holds (no _) = false

pub holds-no {ℓ} : {P : Type ℓ} (d : Dec P) → ¬ P → holds d ≡ false
holds-no (yes p) n = absurd (n p)
holds-no (no _) n = refl

pub holds-yes {ℓ} : {P : Type ℓ} (d : Dec P) → holds d ≡ true → P
holds-yes (yes p) h = p
holds-yes (no n) h = cc

-- isinstance(option, classes)
abbrev pub has_class : List OptionClass → DhcpOption → Bool
has_class classes o = any (λ c. is_class c (class_of_option o)) classes

unfoldable pub keep_options : (DhcpOption → Bool) → Options → Options
keep_options p nil = nil
keep_options p (cons o os) = let others = keep_options p os in if p o then cons o others else others

-- get_options_of_type
unfoldable pub get_options_of_type : List OptionClass → Options → Options
unfolding keep_options
get_options_of_type classes os = keep_options (has_class classes) os

-- get_option_of_type
unfoldable pub get_option_of_type : List OptionClass → Options → Option DhcpOption
get_option_of_type classes nil = none
get_option_of_type classes (cons o os) =
    let other = get_option_of_type classes os in if has_class classes o then some o else other

-- [option for option in options if not isinstance(option, option_class)]
unfoldable pub without : OptionClass → Options → Options
unfolding keep_options
without c os = keep_options (λ o. not (has_class (c ∷ []) o)) os

-- list + list
unfoldable pub join : Options → Options → Options
join nil ps = ps
join (cons o os) ps = cons o (join os ps)

unfoldable pub map_options : (DhcpOption → DhcpOption) → Options → Options
map_options f nil = nil
map_options f (cons o os) = cons (f o) (map_options f os)

-- option in options
unfoldable pub contains : DhcpOption → Options → Bool
contains o nil = false
contains o (cons p os) = holds (DhcpOption-discrete o p) || contains o os

-- options.remove(option): the first that is equal
unfoldable pub remove : DhcpOption → Options → Options
remove o nil = nil
remove o (cons p os) =
    let others = remove o os in if holds (DhcpOption-discrete o p) then os else cons p others

abbrev pub options_of : Message → Options
options_of (client_server c i os) = os
options_of (relay_server c h l p os) = os
options_of (unknown_message t d) = nil

-- The options inside an IA option.
abbrev pub suboptions : DhcpOption → Options
suboptions (ia_na i t1 t2 os) = os
suboptions (ia_ta i os) = os
suboptions (ia_address a p v os) = os
suboptions (ia_pd i t1 t2 os) = os
suboptions (ia_prefix a l p v os) = os
suboptions (leaf l) = nil
suboptions (relay_message m) = nil

-- message.may_contain(option_class), by the tables of `Element.Contains`
abbrev table_of : Message → List Occurrence
table_of (client_server c i os) = in_client_server c ++ in_any_message
table_of (relay_server c h l p os) = in_relay c ++ in_any_message
table_of (unknown_message t d) = in_any_message

unfoldable pub may_contain : Message → OptionClass → Bool
may_contain m c = any (λ t. is_class t.element_class c) (table_of m)
