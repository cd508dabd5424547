-- ===== src/Statistics/Selection.antt =====
-- dhcpkit/ipv6/server/statistics.py: the objects that are updated for a request.
use mathlib.Core.Option
use dhcpkit.Prelude.{ℕ, Bool, Option, none, some, List, [], ◌∷◌, ◌++◌, any, if◌then◌else◌}
use dhcpkit.Address.{Address}
use dhcpkit.Utf8.{Text}
use dhcpkit.Element.Validate.{equal_bytes}
use dhcpkit.Bundle.{Bundle, link_address, link_addresses}
use dhcpkit.Filter.{in_network}
use dhcpkit.Statistics.{Statistics, StatisticsSet}

-- ServerStatistics, its dictionaries as lists in which each key stands once.
pub record ServerStatistics : Type 0 where
  pub global_stats : Statistics
  pub interface_stats : List (Text × Statistics)
  pub subnet_stats : List ((Address × ℕ) × Statistics)
  pub relay_stats : List (Address × Statistics)

-- The objects of the keys that pass.
unfoldable pub stats_where : {K : Type 0} → (K → Bool) → List (K × Statistics) → StatisticsSet
stats_where test [] = []
stats_where test ((k, s) ∷ more) =
    let others = stats_where test more in if test k then s ∷ others else others

-- An empty name is none.
unfoldable pub interface_set : Text → List (Text × Statistics) → StatisticsSet
unfolding stats_where
interface_set [] stats = []
interface_set (c ∷ cs) stats = stats_where (equal_bytes (c ∷ cs)) stats

abbrev pub general_set : ServerStatistics → Text → StatisticsSet
general_set stats name = stats.global_stats ∷ interface_set name stats.interface_stats

-- The objects for a link address and the relay messages of a bundle.
unfoldable pub located_set : ServerStatistics → Text → Bundle → Address → StatisticsSet
unfolding interface_set stats_where link_addresses in_network
located_set stats name b a =
    general_set stats name
    ++ (stats_where (in_network a) stats.subnet_stats
        ++ stats_where (λ r. any (equal_bytes r) (link_addresses b.incoming_relay_messages))
            stats.relay_stats)

-- get_update_set without a bundle, and with one, which raises an exception where link_address does.
unfoldable pub get_update_set : ServerStatistics → Text → Option Bundle → Option StatisticsSet
unfolding located_set link_address
get_update_set stats name none = some (general_set stats name)
get_update_set stats name (some b) = Option.map (located_set stats name b) (link_address b)
