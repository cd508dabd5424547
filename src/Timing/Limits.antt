-- ===== src/Timing/Limits.antt =====
-- dhcpkit/ipv6/server/extensions/timing_limits/__init__.py: the times are in their order and within the
-- limits and the lifetimes, and nothing else changes.
use dhcpkit.Prelude.{ℕ, ◌+◌, ◌≤◌, ◌<◌, ◌≡◌, ◌⊎◌, Option, none, some, min}
use dhcpkit.Element.{DhcpOption, ia_na, ia_pd, Options, nil, cons}
use dhcpkit.Bundle.{Bundle}
use dhcpkit.Handler.Classes.{AllOptions}
use dhcpkit.Timing.{
  infinity, TimingLimits, TimedClass, iana, iapd, extract_preferred_lifetime, shortest_preferred,
}

-- T1 and T2 of an option whose shortest lifetime is given. The least times give way to the greatest
-- ones and to the lifetime.
pub record IsTimed {F : Type 0} (limits : TimingLimits F) (shortest t1 t2 : ℕ) : Type 0 where
  pub in_order : t1 ≤ t2
  pub within_lifetime : t2 ≤ shortest
  pub below_t1 : t1 ≤ limits.max_t1
  pub below_t2 : t2 ≤ limits.max_t2
  pub above_t1 : min limits.min_t1 (min limits.max_t1 t2) ≤ t1
  pub above_t2 : min limits.min_t2 (min limits.max_t2 shortest) ≤ t2

-- No more than a lifetime, if there is one.
abbrev pub Bounds : Option ℕ → ℕ → Type 0
Bounds none t = Unit
Bounds (some p) t = t ≤ p

-- The option has a lifetime, and it is not below the shortest one.
abbrev pub Covers : TimedClass → ℕ → DhcpOption → Type 0
Covers c t o = Bounds (extract_preferred_lifetime c o) t

-- Times that are left alone where there is no lifetime, and set where there is one.
abbrev pub Sets : {F : Type 0} → TimingLimits F → TimedClass → Options → ℕ → ℕ → ℕ → ℕ → Type 0
Sets limits c os t1 t2 u1 u2 =
    ((infinity < shortest_preferred c (infinity + 1) os) × (u1 ≡ t1) × (u2 ≡ t2))
    ⊎ (IsTimed limits (shortest_preferred c (infinity + 1) os) u1 u2 × AllOptions (Covers c u2) os)

-- Only the times of the options of the class may differ.
abbrev pub Limited : {F : Type 0} → TimingLimits F → TimedClass → DhcpOption → DhcpOption → Type 0
Limited limits iana (ia_na i t1 t2 os) o =
    (u1 : ℕ) × (u2 : ℕ) × (o ≡ ia_na i u1 u2 os) × Sets limits iana os t1 t2 u1 u2
Limited limits iapd (ia_pd i t1 t2 os) o =
    (u1 : ℕ) × (u2 : ℕ) × (o ≡ ia_pd i u1 u2 os) × Sets limits iapd os t1 t2 u1 u2
Limited limits c p o = o ≡ p

abbrev pub EachOption : (DhcpOption → DhcpOption → Type 0) → Options → Options → Type 0
EachOption R nil nil = Unit
EachOption R (cons o os) (cons p ps) = R o p × EachOption R os ps
EachOption R _ _ = ⊥
