-- ===== src/Tests/Counts.antt =====
-- The theorem on the categories of the statistics at work.
use dhcpkit.Prelude.{ℕ, ◌≡◌, List, [], ◌∷◌, any, not, ◌&&◌, ◌==◌, ==_iff}
use dhcpkit.Statistics.{Statistics, no_statistics}
use dhcpkit.Statistics.Categories.{has_key, update_categories}
use dhcpkit.Statistics.Categories.Wanted.{has_key-update_categories}

-- Category 1 exists, and 1 and 2 are wanted.
abbrev existing : List (ℕ × Statistics)
existing = (1, no_statistics) ∷ []

has_key-update_categories_example :
    has_key ◌==◌ 1 (update_categories ◌==◌ existing (1 ∷ 2 ∷ []))
    ≡ (any (λ l. 1 == l) (1 ∷ 2 ∷ []) && not (has_key ◌==◌ 1 existing))
has_key-update_categories_example = has_key-update_categories ◌==◌ ==_iff existing (1 ∷ 2 ∷ []) 1
