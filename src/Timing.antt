-- ===== src/Timing.antt =====
-- dhcpkit/ipv6/server/extensions/timing_limits/__init__.py: the handlers that set the times T1 and T2 of
-- the IA_NA and IA_PD options of a response.
pub mod Limits
use dhcpkit.Prelude.{
  ℕ, ◌+◌, ◌-◌, ◌^◌, Bool, true, false, Option, none, some, ltb, leb, ◌==◌, ◌&&◌, not, min, max,
  if◌then◌else◌,
}
use dhcpkit.Wire.{Result, ok, ◌>>=◌, ◌>>◌, require}
use dhcpkit.Element.{
  DhcpOption, leaf, ia_na, ia_ta, ia_address, ia_pd, ia_prefix, relay_message, Options, nil, cons,
}
use dhcpkit.Element.Access.{map_options}
use dhcpkit.Bundle.{Bundle}
use dhcpkit.Handler.{Outcome, Handler, idle}
use dhcpkit.Handler.Unanswered.{answering}

-- INFINITY of dhcpkit/ipv6/__init__.py
abbrev pub infinity : ℕ
infinity = 4294967295

-- What the code uses of floating-point numbers, a factor F of a lifetime.
pub record FloatOps (F : Type 0) : Type 0 where
  -- min(max(0.0, factor), 1)
  pub clamp : F → F
  -- bool(factor)
  pub is_nonzero : F → Bool
  -- factor > factor
  pub is_greater : F → F → Bool
  -- int(lifetime * factor)
  pub scaled : ℕ → F → ℕ

-- TimingLimitsHandler
pub record TimingLimits (F : Type 0) : Type 0 where
  pub min_t1 : ℕ
  pub max_t1 : ℕ
  pub factor_t1 : Option F
  pub min_t2 : ℕ
  pub max_t2 : ℕ
  pub factor_t2 : Option F

-- Which options a subclass sets the times of, and where it finds lifetimes.
pub data TimedClass : Type 0 where
  iana iapd : TimedClass

-- extract_preferred_lifetime
abbrev pub extract_preferred_lifetime : TimedClass → DhcpOption → Option ℕ
extract_preferred_lifetime iana (ia_address a p v os) = some p
extract_preferred_lifetime iapd (ia_prefix a l p v os) = some p
extract_preferred_lifetime _ o = none

abbrev pub shorter : ℕ → Option ℕ → ℕ
shorter shortest none = shortest
shorter shortest (some p) = min shortest p

-- The loop over the suboptions.
unfoldable pub shortest_preferred : TimedClass → ℕ → Options → ℕ
shortest_preferred c shortest nil = shortest
shortest_preferred c shortest (cons o os) =
    shortest_preferred c (shorter shortest (extract_preferred_lifetime c o)) os

module _ {F : Type 0} (ops : FloatOps F) where
  abbrev pub in_order : Option F → Option F → Bool
  in_order (some f) (some g) = not (ops.is_nonzero f && ops.is_nonzero g && ops.is_greater f g)
  in_order _ _ = true

  abbrev pub clamped : Option F → Option F
  clamped none = none
  clamped (some f) = some (ops.clamp f)

  -- TimingLimitsHandler.__init__
  unfoldable pub new_limits : ℕ → ℕ → Option F → ℕ → ℕ → Option F → Result (TimingLimits F)
  new_limits min_t1 max_t1 factor_t1 min_t2 max_t2 factor_t2 = do
    let last_t2 = min max_t2 infinity
    require (not (ltb last_t2 min_t1))
    require (in_order (clamped factor_t1) (clamped factor_t2))
    ok (record {
      min_t1 = min_t1;
      max_t1 = min max_t1 last_t2;
      factor_t1 = clamped factor_t1;
      min_t2 = max min_t1 min_t2;
      max_t2 = last_t2;
      factor_t2 = clamped factor_t2;
    })

  -- A time that is not set yet, from the factor.
  abbrev pub calculate : ℕ → Option F → ℕ → ℕ
  calculate t none shortest = t
  calculate t (some f) shortest =
      if t == 0 then (if shortest == infinity then infinity else ops.scaled shortest f) else t

  unfoldable pub timed_t2 : TimingLimits F → ℕ → ℕ → ℕ
  timed_t2 limits t2 shortest =
      min (min (max limits.min_t2 (calculate t2 limits.factor_t2 shortest)) limits.max_t2) shortest

  unfoldable pub timed_t1 : TimingLimits F → ℕ → ℕ → ℕ → ℕ
  timed_t1 limits t1 new_t2 shortest =
      min (min (max limits.min_t1 (calculate t1 limits.factor_t1 shortest)) limits.max_t1) new_t2

  -- The body of the loop of handle, for an option that filter_options finds.
  unfoldable pub limit_times : TimingLimits F → TimedClass → DhcpOption → DhcpOption
  unfolding shortest_preferred timed_t1 timed_t2
  limit_times limits iana (ia_na i t1 t2 os) =
      let shortest = shortest_preferred iana (infinity + 1) os in
      let new_t2 = timed_t2 limits t2 shortest in
      if ltb infinity shortest
      then ia_na i t1 t2 os
      else ia_na i (timed_t1 limits t1 new_t2 shortest) new_t2 os
  limit_times limits iapd (ia_pd i t1 t2 os) =
      let shortest = shortest_preferred iapd (infinity + 1) os in
      let new_t2 = timed_t2 limits t2 shortest in
      if ltb infinity shortest
      then ia_pd i t1 t2 os
      else ia_pd i (timed_t1 limits t1 new_t2 shortest) new_t2 os
  limit_times limits c o = o

  -- TimingLimitsHandler.handle
  unfoldable pub limit_timing : TimingLimits F → TimedClass → Bundle → Outcome Bundle
  unfolding limit_times map_options answering
  limit_timing limits c b = answering (map_options (limit_times limits c)) b

  abbrev pub timing_limits_handler : TimingLimits F → TimedClass → Handler
  timing_limits_handler limits c = record idle { handle = limit_timing limits c }
