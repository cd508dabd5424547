-- ===== src/Filter.antt =====
-- dhcpkit/ipv6/server/filters: the tree of filters that selects the handlers of a request, and the
-- conditions of the filters for the elapsed time, the marks and the subnets.
use dhcpkit.Prelude.{
  ℕ, Bool, true, false, Option, none, some, List, [], ◌∷◌, ◌++◌, any, all, ltb, leb, ◌==◌, ◌&&◌,
  ◌*◌, if◌then◌else◌,
}
use dhcpkit.Address.{Address, number_of, network_number, broadcast_number}
use dhcpkit.Utf8.{Text}
use dhcpkit.Leaf
use dhcpkit.Element.{DhcpOption, leaf, leaf_class}
use dhcpkit.Element.Access.{get_option_of_type, options_of}
use dhcpkit.Bundle.{Bundle, link_address, has_mark}
use dhcpkit.Handler.{Handler}

-- Filter, with its match (none for an exception), its sub-filters and its sub-handlers.
mutual
  pub data Filter : Type 0 where
    filter : (Bundle → Option Bool) → Filters → List Handler → Filter

  pub data Filters : Type 0 where
    no_filters : Filters
    and_filter : Filter → Filters → Filters

abbrev pub append_handlers : Option (List Handler) → Option (List Handler) → Option (List Handler)
append_handlers (some hs) (some more) = some (hs ++ more)
append_handlers _ _ = none

abbrev pub get_matched : Option Bool → Option (List Handler) → Option (List Handler)
get_matched none collected = none
get_matched (some true) collected = collected
get_matched (some false) collected = some []

-- Filter.get_handlers; `get_all_handlers` is the loop over a list of filters.
unfoldable mutual
  pub get_handlers : Bundle → Filter → Option (List Handler)
  get_handlers b (filter match sub_filters sub_handlers) =
      get_matched (match b) (append_handlers (get_all_handlers b sub_filters) (some sub_handlers))

  pub get_all_handlers : Bundle → Filters → Option (List Handler)
  get_all_handlers b no_filters = some []
  get_all_handlers b (and_filter f fs) = append_handlers (get_handlers b f) (get_all_handlers b fs)

-- TimeLimit, with operator.gt and operator.lt, the two that the configuration makes.
pub data TimeLimit : Type 0 where
  more_than less_than : ℕ → TimeLimit

abbrev satisfies : ℕ → TimeLimit → Bool
satisfies time (more_than limit) = ltb limit time
satisfies time (less_than limit) = ltb time limit

abbrev within_limits : List TimeLimit → Option DhcpOption → Bool
within_limits limits (some (leaf (Leaf.elapsed_time t))) = all (satisfies t) limits
within_limits limits _ = false

-- ElapsedTimeFilter.match
unfoldable pub elapsed_time_match : List TimeLimit → Bundle → Option Bool
unfolding get_option_of_type
elapsed_time_match limits b = elim b.client_request [
  | none ↦ none
  | some asked ↦ some (
      within_limits limits
        (get_option_of_type (leaf_class Leaf.elapsed_time_option ∷ []) (options_of asked)))
]

abbrev when_set : (ℕ → TimeLimit) → Option ℕ → List TimeLimit
when_set limit none = []
when_set limit (some t) = if t == 0 then [] else limit (t * 100) ∷ []

-- ElapsedTimeFilterFactory.filter_condition, for the settings in seconds: those for 0 seconds count
-- as not set.
unfoldable pub time_limits : Option ℕ → Option ℕ → List TimeLimit
time_limits more less = when_set more_than more ++ when_set less_than less

-- MarkedWithFilter.match
unfoldable pub marked_with_match : Text → Bundle → Option Bool
marked_with_match mark b = some (has_mark mark b.marks)

-- address in IPv6Network, for a network given by an address and the length of its prefix
unfoldable pub in_network : Address → Address × ℕ → Bool
unfolding number_of
in_network a (network, len) =
    leb (network_number network) (number_of a 0)
    && leb (number_of a 0) (broadcast_number network len)

unfoldable pub in_any_network : Option Address → List (Address × ℕ) → Option Bool
unfolding in_network
in_any_network none [] = some false
in_any_network none (p ∷ ps) = none
in_any_network (some a) ps = some (any (in_network a) ps)

-- SubnetFilter.match: without subnets the link address is not computed.
unfoldable pub subnet_match : List (Address × ℕ) → Bundle → Option Bool
unfolding link_address in_network
subnet_match prefixes b = in_any_network (link_address b) prefixes
