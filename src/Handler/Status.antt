-- ===== src/Handler/Status.antt =====
-- dhcpkit/ipv6/server/handlers/utils.py and handlers/status_option.py: status codes in a response.
use Prim.Native.Char.{code}
use Prim.Native.String.{String}
use dhcpkit.Prelude.{ℕ, Bool, true, false, Option, none, some, [], ◌∷◌, ◌==◌}
use dhcpkit.Utf8.{Text}
use dhcpkit.Leaf
use dhcpkit.Element.{
  DhcpOption, leaf, Options, nil, cons, Message, client_server, confirm, release, decline,
  leaf_class, OptionClass,
}
use dhcpkit.Element.Access.{has_class, get_option_of_type, join, contains, remove, options_of}
use dhcpkit.Bundle.{Bundle}
use dhcpkit.Handler.{Outcome, done, Handler, idle, with_response, edit_response}

abbrev pub success : ℕ
success = 0

abbrev pub no_addrs_avail : ℕ
no_addrs_avail = 2

abbrev pub no_binding : ℕ
no_binding = 3

abbrev pub not_on_link : ℕ
not_on_link = 4

abbrev pub use_multicast : ℕ
use_multicast = 5

abbrev pub no_prefix_avail : ℕ
no_prefix_avail = 6

abbrev pub text : String → Text
text String.[] = []
text (String.◌∷◌ c s) = code c ∷ text s

-- StatusCodeOption(status_code, status_message)
abbrev pub status : ℕ → Text → DhcpOption
status c m = leaf (Leaf.status_code c m)

abbrev pub status_class : OptionClass
status_class = leaf_class Leaf.status_code_option

-- A status with the given code.
abbrev pub is_status : ℕ → DhcpOption → Bool
is_status code (leaf (Leaf.status_code c m)) = c == code
is_status code _ = false

-- What the loop of force_status makes of an option.
pub data Verdict : Type 0 where
  no_status right_status wrong_status : Verdict

abbrev pub verdict_of : Bool → Bool → Verdict
verdict_of false right = no_status
verdict_of true true = right_status
verdict_of true false = wrong_status

unfoldable pub verdict : ℕ → DhcpOption → Verdict
verdict wanted o = verdict_of (has_class (status_class ∷ []) o) (is_status wanted o)

-- The loop of force_status, with the options that the iteration has passed and those to come. It
-- removes the first option that is equal to the one at hand from the list that it iterates over, so
-- that the iteration passes over the option behind that one.
unfoldable mutual
  pub force_from : ℕ → Text → Options → Options → Options
  force_from c m passed nil = join passed (cons (status c m) nil)
  force_from c m passed (cons o os) = elim (verdict c o) [
    | no_status ↦ force_from c m (join passed (cons o nil)) os
    | right_status ↦ join passed (cons o os)
    | wrong_status ↦ elim (contains o passed) [
      | true ↦ pass_over c m (join (remove o passed) (cons o nil)) os
      | false ↦ pass_over c m passed os
    ]
  ]

  pub pass_over : ℕ → Text → Options → Options → Options
  pass_over c m passed nil = join passed (cons (status c m) nil)
  pass_over c m passed (cons o os) = force_from c m (join passed (cons o nil)) os

unfoldable pub force_status : ℕ → Text → Options → Options
unfolding force_from
force_status c m os = force_from c m nil os

abbrev pub closing_text : Option Message → Option Text
closing_text (some (client_server confirm i os)) = some (text "Assignments confirmed")
closing_text (some (client_server release i os)) =
    some (text "Thank you for releasing your resources")
closing_text (some (client_server decline i os)) =
    some (text "Our apologies for assigning you unusable addresses")
closing_text _ = none

unfoldable pub add_unless : Option DhcpOption → DhcpOption → Bundle → Bundle
unfolding edit_response join
add_unless (some existing) o b = b
add_unless none o b = edit_response (λ os. join os (cons o nil)) b

unfoldable pub close_with : Option Text → Bundle → Outcome Bundle
unfolding get_option_of_type edit_response join
close_with none b = done b
close_with (some m) b = with_response b (λ r.
    done (add_unless (get_option_of_type (status_class ∷ []) (options_of r)) (status success m) b))

-- AddMissingStatusOptionHandler.handle
unfoldable pub add_missing_status : Bundle → Outcome Bundle
unfolding get_option_of_type edit_response join
add_missing_status b = close_with (closing_text b.client_request) b

abbrev pub add_missing_status_handler : Handler
add_missing_status_handler = record idle { handle = add_missing_status }
