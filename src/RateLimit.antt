-- ===== src/RateLimit.antt =====
-- dhcpkit/ipv6/server/extensions/rate_limit: the counters that limit the rate of requests, and the handler
-- that asks them. A time is a number of ticks of the clock, and an allowance a number of parts of
-- a request, of which a tick gives `rate`, so that the arithmetic is exact.
pub mod Bucket
use dhcpkit.Prelude.{
  ℕ, ◌+◌, ◌-◌, ◌*◌, Bool, true, false, Option, none, some, List, [], ◌∷◌, ltb, ◌==◌, not, min,
  if◌then◌else◌,
}
use dhcpkit.Utf8.{Text}
use dhcpkit.Element.Validate.{equal_bytes}
use dhcpkit.Bundle.{Bundle}
use dhcpkit.Handler.{Outcome, done, raised, cannot_respond, other_exception}

-- RateLimitCounters, with an allowance and the time of the last check for each key.
pub record RateLimitCounters : Type 0 where
  pub rate : ℕ
  pub parts : ℕ
  pub burst : ℕ
  pub counters : List (Text × (ℕ × ℕ))

-- `burst or rate`
abbrev pub burst_or : ℕ → Option ℕ → ℕ
burst_or rate none = rate
burst_or rate (some burst) = if burst == 0 then rate else burst

-- RateLimitCounters.__init__, with the ticks of a second; none for a division by zero. One request has
-- per * ticks parts.
unfoldable pub new_counters : ℕ → ℕ → ℕ → Option ℕ → Option RateLimitCounters
new_counters ticks rate per burst =
    if per == 0
    then none
    else some (record {
      rate = rate;
      parts = per * ticks;
      burst = burst_or rate burst * (per * ticks);
      counters = [];
    })

-- self.counters.get(key, default)
abbrev pub stored : Text → ℕ × ℕ → List (Text × (ℕ × ℕ)) → ℕ × ℕ
stored key default [] = default
stored key default ((k, v) ∷ more) = if equal_bytes key k then v else stored key default more

-- self.counters[key] = ...
abbrev pub store : Text → ℕ × ℕ → List (Text × (ℕ × ℕ)) → List (Text × (ℕ × ℕ))
store key v [] = (key, v) ∷ []
store key v ((k, w) ∷ more) = if equal_bytes key k then (k, v) ∷ more else (k, w) ∷ store key v more

-- The allowance before this request.
abbrev pub refilled : RateLimitCounters → ℕ → ℕ × ℕ → ℕ
refilled c now (allowance, last_check) = min (allowance + (now - last_check) * c.rate) c.burst

-- check_request
unfoldable pub check_request : ℕ → Text → RateLimitCounters → Bool × RateLimitCounters
check_request now key c =
    let allowance = refilled c now (stored key (c.burst, now) c.counters) in
    if ltb allowance c.parts
    then (false, record c { counters = store key (allowance, now) c.counters })
    else (true, record c { counters = store key (allowance - c.parts, now) c.counters })

-- RateLimitHandler.pre, for what the key function gives.
unfoldable pub limit_rate :
    ℕ → Option Text → Bundle → RateLimitCounters → Outcome Bundle × RateLimitCounters
unfolding check_request
limit_rate now none b c = (raised other_exception b, c)
limit_rate now (some key) b c =
    let (allow, checked) = check_request now key c in
    (if allow then done b else raised cannot_respond b, checked)
