-- ===== src/Element/Contains.antt =====
-- dhcpkit/protocol_element.py: `validate_contains`. `Element.Tables` has its tables.
use dhcpkit.Prelude.{ℕ, ◌+◌, Bool, true, List, [], ◌∷◌, ◌&&◌, any, leb, ◌==◌, if◌then◌else◌}
use dhcpkit.Wire.{Result, ok, ◌>>◌, require}
use dhcpkit.Leaf.{class_of, type_of_class}
use dhcpkit.Element.{
  DhcpOption, leaf, ia_na, ia_ta, ia_address, ia_pd, ia_prefix, relay_message, Options, nil, cons,
  OptionClass, leaf_class, ia_na_option, ia_ta_option, ia_address_option, ia_pd_option,
  ia_prefix_option, relay_message_option,
}

abbrev pub infinite : ℕ
infinite = 2147483647

-- A class that may be contained, with its least and its greatest number of occurrences.
pub record Occurrence : Type 0 where
  pub element_class : OptionClass
  pub min_occurrence : ℕ
  pub max_occurrence : ℕ

-- The type of an option.
abbrev pub class_of_option : DhcpOption → OptionClass
class_of_option (leaf l) = leaf_class (class_of l)
class_of_option (ia_na i t1 t2 os) = ia_na_option
class_of_option (ia_ta i os) = ia_ta_option
class_of_option (ia_address a p v os) = ia_address_option
class_of_option (ia_pd i t1 t2 os) = ia_pd_option
class_of_option (ia_prefix a l p v os) = ia_prefix_option
class_of_option (relay_message m) = relay_message_option

-- A number for each class, by which classes are compared: the attribute option_type.
abbrev pub number_of_class : OptionClass → ℕ
number_of_class (leaf_class c) = type_of_class c
number_of_class ia_na_option = 3
number_of_class ia_ta_option = 4
number_of_class ia_address_option = 5
number_of_class ia_pd_option = 25
number_of_class ia_prefix_option = 26
number_of_class relay_message_option = 9

abbrev pub is_class : OptionClass → OptionClass → Bool
is_class c d = number_of_class c == number_of_class d

-- occurrence_counters[element_class]
unfoldable pub count : OptionClass → Options → ℕ
count c nil = 0
count c (cons o os) =
    let others = count c os in if is_class c (class_of_option o) then others + 1 else others

-- get_element_class finds the class of each option in the table. No option class is a subclass of
-- another here, so that the class found is that of the option.
unfoldable pub all_known : List Occurrence → Options → Bool
all_known table nil = true
all_known table (cons o os) =
    any (λ t. is_class t.element_class (class_of_option o)) table && all_known table os

unfoldable pub check_counts : List Occurrence → Options → Result (Unit {0})
unfolding count
check_counts [] os = ok tt
check_counts (t ∷ ts) os =
    require (leb (count t.element_class os) t.max_occurrence)
    >> (require (leb t.min_occurrence (count t.element_class os)) >> check_counts ts os)

unfoldable pub validate_contains : List Occurrence → Options → Result (Unit {0})
unfolding all_known check_counts
validate_contains table os = require (all_known table os) >> check_counts table os
