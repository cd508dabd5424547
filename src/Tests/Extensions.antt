-- ===== src/Tests/Extensions.antt =====
-- The extensions of the server: static assignments, limits of the times and of the rate.
use dhcpkit.Prelude.{
  ℕ, ◌+◌, ◌-◌, ◌*◌, ◌≤◌, ◌≡◌, refl, true, false, some, none, List, [], ◌∷◌, arith, ltb, min, ◌/◌,
}
use dhcpkit.Utf8.{Text}
use dhcpkit.Element.{Message, client_server, Options, nil, renew, reply, ia_na_option, ia_pd_option}
use dhcpkit.Element.Access.{join, keep_options}
use dhcpkit.Relay.{split_relay_chain}
use dhcpkit.Bundle.{Bundle, started, get_unhandled_options}
use dhcpkit.Handler.{done}
use dhcpkit.Handler.Complete.{responding, keys_of}
use dhcpkit.Handler.Classes.{AllOptions}
use dhcpkit.Handler.Ensures.{Keeps}
use dhcpkit.Server.Answers.{Answers}
use dhcpkit.Assignment.{
  Assignment, StaticAssignmentHandler, static_assignment_handler, overlaps_prefixes,
}
use dhcpkit.Assignment.Adding.{with_answers}
use dhcpkit.Assignment.Reserved.{Grants}
use dhcpkit.Assignment.Granted.{assign-Grants}
use dhcpkit.Assignment.Renewed.{assign-renewed, renewal}
use dhcpkit.Assignment.Keeping.{static_assignment_handler-Keeps}
use dhcpkit.Timing.{FloatOps, TimingLimits}
use dhcpkit.RateLimit.{RateLimitCounters}
use dhcpkit.RateLimit.Bucket.{allowed, allowed-burst}
use dhcpkit.Tests.Data.{relay_address, solicit_options}

abbrev renew_message : Message
renew_message = client_server renew (1 ∷ 2 ∷ 3 ∷ []) solicit_options

abbrev renewing : Bundle
renewing = started renew_message true false false

renewing_request : renewing.client_request ≡ some renew_message
unfolding split_relay_chain
renewing_request = refl

abbrev reserved : Assignment
reserved = record { address = some relay_address; prefix = none }

abbrev assigner : StaticAssignmentHandler
assigner = record {
  address_preferred_lifetime = 300;
  address_valid_lifetime = 600;
  prefix_preferred_lifetime = 300;
  prefix_valid_lifetime = 600;
  get_assignment = λ b. some reserved;
}

assign-Grants_example :
    (qs : Options) × (handled : Options) × ((static_assignment_handler assigner).handle
        (responding reply (1 ∷ 2 ∷ 3 ∷ []) [] renewing nil)
      ≡ done (with_answers reply (1 ∷ 2 ∷ 3 ∷ []) [] renewing (join nil qs) handled))
    × AllOptions (Grants reserved) qs
assign-Grants_example =
    assign-Grants assigner reserved renew_message reply (1 ∷ 2 ∷ 3 ∷ []) [] renewing nil
      renewing_request refl

assign-renewed_example :
    (qs : Options) × (handled : Options) × ((static_assignment_handler assigner).handle
        (responding reply (1 ∷ 2 ∷ 3 ∷ []) [] renewing nil)
      ≡ done (with_answers reply (1 ∷ 2 ∷ 3 ∷ []) [] renewing (join nil qs) handled))
    × (keys_of qs
        ≡ keys_of (
            join
              (keep_options
                (overlaps_prefixes none)
                (get_unhandled_options (ia_pd_option ∷ []) renew_message renewing))
              (get_unhandled_options (ia_na_option ∷ []) renew_message renewing)))
assign-renewed_example =
    assign-renewed assigner reserved renew_message reply (1 ∷ 2 ∷ 3 ∷ []) [] renewing nil
      (renewal (1 ∷ 2 ∷ 3 ∷ []) solicit_options) renewing_request refl

static_assignment_handler-Keeps_example :
    Keeps (Answers renew_message []) (static_assignment_handler assigner)
static_assignment_handler-Keeps_example =
    static_assignment_handler-Keeps assigner renew_message [] (λ b. (reserved, refl))

-- A factor as a number of tenths.
abbrev tenths : FloatOps ℕ
tenths = record {
  clamp = λ f. min f 10;
  is_nonzero = λ f. ltb 0 f;
  is_greater = λ f g. ltb g f;
  scaled = λ t f. t * f / 10;
}

abbrev limits : TimingLimits ℕ
limits = record {
  min_t1 = 10;
  max_t1 = 100;
  factor_t1 = some 5;
  min_t2 = 20;
  max_t2 = 200;
  factor_t2 = none;
}

-- Five requests in a burst, one in six seconds after it.
abbrev limiter : RateLimitCounters
limiter = record { rate = 5; parts = 30; burst = 150; counters = [] }

abbrev events : List (ℕ × Text)
events = (7, 97 ∷ []) ∷ (8, 98 ∷ []) ∷ (9, 97 ∷ []) ∷ []

allowed-burst_example : allowed (97 ∷ []) events limiter * 30 ≤ 150 + (12 - 5) * 5
allowed-burst_example = allowed-burst (97 ∷ []) events limiter 5 12 (omega arith) (omega arith)
