-- ===== src/Statistics/Categories.antt =====
-- dhcpkit/ipv6/server/statistics.py: ServerStatistics.set_categories.
pub mod Wanted
use dhcpkit.Prelude.{Bool, true, false, List, [], ◌∷◌, if◌then◌else◌, ◌||◌}
use dhcpkit.Statistics.{Statistics, no_statistics}

-- A dictionary of statistics, for keys with a decidable equality.
module _ {K : Type 0} (same : K → K → Bool) where
  abbrev pub has_key : K → List (K × Statistics) → Bool
  has_key k [] = false
  has_key k ((l, s) ∷ more) = same k l || has_key k more

  abbrev pub keys : List (K × Statistics) → List K
  keys [] = []
  keys ((k, s) ∷ more) = k ∷ keys more

  abbrev pub delete_key : K → List (K × Statistics) → List (K × Statistics)
  delete_key k [] = []
  delete_key k ((l, s) ∷ more) = if same k l then delete_key k more else (l, s) ∷ delete_key k more

  abbrev pub discard : K → List K → List K
  discard k [] = []
  discard k (l ∷ more) = if same k l then discard k more else l ∷ discard k more

  -- The first loop of update_categories, with what `remaining` is: a wanted key is taken out of it
  -- only when it is not in the container.
  unfoldable pub create_categories :
      List K → List (K × Statistics) → List K → List (K × Statistics) × List K
  create_categories [] container remaining = (container, remaining)
  create_categories (k ∷ ks) container remaining =
      let kept = create_categories ks container remaining in
      let created = create_categories ks ((k, no_statistics) ∷ container) (discard k remaining) in
      if has_key k container then kept else created

  unfoldable pub remove_categories : List K → List (K × Statistics) → List (K × Statistics)
  remove_categories [] container = container
  remove_categories (k ∷ ks) container = remove_categories ks (delete_key k container)

  -- update_categories
  unfoldable pub update_categories : List (K × Statistics) → List K → List (K × Statistics)
  unfolding create_categories remove_categories
  update_categories container categories =
      let (created, remaining) = create_categories categories container (keys container) in
      remove_categories remaining created
