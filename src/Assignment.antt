-- ===== src/Assignment.antt =====
-- dhcpkit/ipv6/server/extensions/static_assignments/__init__.py: the handler that gives each client the
-- address and the prefix that are reserved for it.
pub mod Adding
pub mod Reserved
pub mod Granted
pub mod Renewed
pub mod Keeping
use dhcpkit.Prelude.{
  ℕ, Bool, true, false, Option, none, some, List, [], ◌∷◌, any, ◌==◌, ◌&&◌, ◌||◌, if◌then◌else◌,
}
use dhcpkit.Address.{Address, overlaps}
use dhcpkit.Element.{
  DhcpOption, ia_na, ia_ta, ia_address, ia_pd, ia_prefix, ia_na_option, ia_pd_option,
  ia_address_option, ia_prefix_option, Options, nil, cons, Message, client_server, solicit, request,
  confirm, renew, rebind, release, decline, OptionClass,
}
use dhcpkit.Element.Validate.{equal_bytes}
use dhcpkit.Element.Access.{get_options_of_type, suboptions, map_options, join}
use dhcpkit.Bundle.{Bundle, get_unhandled_options, mark_handled}
use dhcpkit.Handler.{Outcome, done, raised, other_exception, ◌>>=◌, Handler, idle}
use dhcpkit.Handler.Unanswered.{same_ia, withdraw, answering}

-- An IPv6Network, as its address and the length of its prefix.
abbrev pub Prefix : Type 0
Prefix = Address × ℕ

pub record Assignment : Type 0 where
  pub address : Option Address
  pub prefix : Option Prefix

-- StaticAssignmentHandler. The subclasses have get_assignment; none stands for an exception.
pub record StaticAssignmentHandler : Type 0 where
  pub address_preferred_lifetime : ℕ
  pub address_valid_lifetime : ℕ
  pub prefix_preferred_lifetime : ℕ
  pub prefix_valid_lifetime : ℕ
  pub get_assignment : Bundle → Option Assignment

-- suboption.address == address and suboption.prefix == prefix, for what may be None.
abbrev pub is_address : Option Address → DhcpOption → Bool
is_address (some b) (ia_address a p v os) = equal_bytes a b
is_address _ _ = false

abbrev pub is_prefix : Option Prefix → DhcpOption → Bool
is_prefix (some (b, k)) (ia_prefix a l p v os) = equal_bytes a b && l == k
is_prefix _ _ = false

abbrev pub is_overlapping : Option Prefix → DhcpOption → Bool
is_overlapping (some prefix) (ia_prefix a l p v os) = overlaps prefix (a, l)
is_overlapping _ _ = false

unfoldable pub any_option : (DhcpOption → Bool) → Options → Bool
any_option p nil = false
any_option p (cons o os) = p o || any_option p os

abbrev pub holds_address : Option Address → DhcpOption → Bool
holds_address address o =
    any_option (is_address address) (get_options_of_type (ia_address_option ∷ []) (suboptions o))

abbrev pub holds_prefix : Option Prefix → DhcpOption → Bool
holds_prefix prefix o =
    any_option (is_prefix prefix) (get_options_of_type (ia_prefix_option ∷ []) (suboptions o))

-- prefix_overlaps_prefixes(assignment.prefix, option.get_prefixes()), where there is a prefix.
abbrev pub overlaps_prefixes : Option Prefix → DhcpOption → Bool
overlaps_prefixes prefix o =
    any_option (is_overlapping prefix) (get_options_of_type (ia_prefix_option ∷ []) (suboptions o))

abbrev pub first_option : Options → Option DhcpOption
first_option nil = none
first_option (cons o os) = some o

unfoldable pub find_among : (DhcpOption → Bool) → Options → Option DhcpOption → Option DhcpOption
find_among p nil default = default
find_among p (cons o os) default =
    let later = find_among p os default in if p o then some o else later

-- find_iana_option_for_address and find_iapd_option_for_prefix: the first option where nothing is
-- found.
unfoldable pub find_iana_option_for_address : Options → Option Address → Option DhcpOption
unfolding find_among any_option get_options_of_type
find_iana_option_for_address os address = find_among (holds_address address) os (first_option os)

unfoldable pub find_iapd_option_for_prefix : Options → Option Prefix → Option DhcpOption
unfolding find_among any_option get_options_of_type
find_iapd_option_for_prefix os prefix = find_among (holds_prefix prefix) os (first_option os)

-- An option for the response, and the option of the request that it answers.
unfoldable pub answer_with : Options → DhcpOption → Bundle → Outcome Bundle
unfolding answering mark_handled join
answer_with inner o b =
    answering (λ os. join os (cons (same_ia o inner) nil)) b >>= λ c. done (mark_handled o c)

abbrev pub answer_found : Options → Option DhcpOption → Bundle → Outcome Bundle
answer_found inner none b = done b
answer_found inner (some o) b = answer_with inner o b

module _ (h : StaticAssignmentHandler) where
  abbrev pub granted_address : Address → DhcpOption
  granted_address a = ia_address a h.address_preferred_lifetime h.address_valid_lifetime nil

  abbrev pub granted_prefix : Prefix → DhcpOption
  granted_prefix (a, l) = ia_prefix a l h.prefix_preferred_lifetime h.prefix_valid_lifetime nil

  unfoldable pub give_prefix : Option Prefix → Message → Bundle → Outcome Bundle
  unfolding find_iapd_option_for_prefix get_unhandled_options answer_with
  give_prefix none asked b = done b
  give_prefix (some p) asked b =
      answer_found (cons (granted_prefix p) nil)
        (find_iapd_option_for_prefix (get_unhandled_options (ia_pd_option ∷ []) asked b) (some p)) b

  unfoldable pub give_address : Option Address → Message → Bundle → Outcome Bundle
  unfolding find_iana_option_for_address get_unhandled_options answer_with
  give_address none asked b = done b
  give_address (some a) asked b =
      answer_found (cons (granted_address a) nil)
        (find_iana_option_for_address (get_unhandled_options (ia_na_option ∷ []) asked b) (some a))
        b

  unfoldable pub handle_request : Assignment → Message → Bundle → Outcome Bundle
  unfolding give_prefix give_address
  handle_request assignment asked b =
      give_prefix assignment.prefix asked b >>= give_address assignment.address asked

  -- The body of the loops of handle_renew_rebind over the suboptions.
  abbrev pub renew_address : Option Address → DhcpOption → DhcpOption
  renew_address none o = withdraw o
  renew_address (some a) o = if is_address (some a) o then granted_address a else withdraw o

  abbrev pub renew_prefix : Option Prefix → DhcpOption → DhcpOption
  renew_prefix none o = withdraw o
  renew_prefix (some p) o = if is_prefix (some p) o then granted_prefix p else withdraw o

  unfoldable pub renew_prefixes : Option Prefix → Options → Bundle → Outcome Bundle
  unfolding any_option get_options_of_type map_options answer_with
  renew_prefixes prefix nil b = done b
  renew_prefixes prefix (cons o os) b =
      (if overlaps_prefixes prefix o
        then answer_with
            (map_options (renew_prefix prefix)
              (get_options_of_type (ia_prefix_option ∷ []) (suboptions o)))
            o b
        else done b)
      >>= renew_prefixes prefix os

  unfoldable pub renew_addresses : Option Address → Options → Bundle → Outcome Bundle
  unfolding get_options_of_type map_options answer_with
  renew_addresses address nil b = done b
  renew_addresses address (cons o os) b =
      answer_with
        (map_options (renew_address address)
          (get_options_of_type (ia_address_option ∷ []) (suboptions o)))
        o b
      >>= renew_addresses address os

  unfoldable pub handle_renew_rebind : Assignment → Message → Bundle → Outcome Bundle
  unfolding renew_prefixes renew_addresses get_unhandled_options
  handle_renew_rebind assignment asked b =
      renew_prefixes assignment.prefix (get_unhandled_options (ia_pd_option ∷ []) asked b) b
      >>= renew_addresses assignment.address (get_unhandled_options (ia_na_option ∷ []) asked b)

-- for option in options: if ...: bundle.mark_handled(option)
unfoldable pub mark_where : (DhcpOption → Bool) → Options → Bundle → Bundle
unfolding mark_handled
mark_where p nil b = b
mark_where p (cons o os) b = mark_where p os (if p o then mark_handled o b else b)

unfoldable pub handle_confirm : Assignment → Message → Bundle → Bundle
unfolding mark_where any_option get_options_of_type get_unhandled_options
handle_confirm assignment asked b =
    mark_where (holds_address assignment.address)
      (get_unhandled_options (ia_na_option ∷ []) asked b) b

unfoldable pub handle_release_decline : Assignment → Message → Bundle → Bundle
unfolding mark_where any_option get_options_of_type get_unhandled_options
handle_release_decline assignment asked b =
    mark_where (holds_address assignment.address)
      (get_unhandled_options (ia_na_option ∷ []) asked b)
      (mark_where (overlaps_prefixes assignment.prefix)
        (get_unhandled_options (ia_pd_option ∷ []) asked b) b)

abbrev pub with_assignment :
    Option Assignment → Bundle → (Assignment → Outcome Bundle) → Outcome Bundle
with_assignment none b f = raised other_exception b
with_assignment (some a) b f = f a

-- StaticAssignmentHandler.handle, for bundle.request.
unfoldable pub assign : StaticAssignmentHandler → Option Message → Bundle → Outcome Bundle
unfolding handle_request handle_confirm handle_renew_rebind handle_release_decline
assign h (some (client_server solicit i os)) b =
    with_assignment (h.get_assignment b) b (λ a. handle_request h a (client_server solicit i os) b)
assign h (some (client_server request i os)) b =
    with_assignment (h.get_assignment b) b (λ a. handle_request h a (client_server request i os) b)
assign h (some (client_server confirm i os)) b =
    with_assignment (h.get_assignment b) b
      (λ a. done (handle_confirm a (client_server confirm i os) b))
assign h (some (client_server renew i os)) b =
    with_assignment (h.get_assignment b) b
      (λ a. handle_renew_rebind h a (client_server renew i os) b)
assign h (some (client_server rebind i os)) b =
    with_assignment (h.get_assignment b) b
      (λ a. handle_renew_rebind h a (client_server rebind i os) b)
assign h (some (client_server release i os)) b =
    with_assignment (h.get_assignment b) b
      (λ a. done (handle_release_decline a (client_server release i os) b))
assign h (some (client_server decline i os)) b =
    with_assignment (h.get_assignment b) b
      (λ a. done (handle_release_decline a (client_server decline i os) b))
assign h _ b = done b

abbrev pub static_assignment_handler : StaticAssignmentHandler → Handler
static_assignment_handler h = record idle { handle = λ b. assign h b.client_request b }
