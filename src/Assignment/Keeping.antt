-- ===== src/Assignment/Keeping.antt =====
-- dhcpkit/ipv6/server/extensions/static_assignments/__init__.py: the handler keeps what `Server.Answers`
-- says of the bundle.
use dhcpkit.Prelude.{◌≡◌, sym, subst, Bool, true, Option, none, some, List, [], ◌∷◌}
use dhcpkit.Element.{
  DhcpOption, Options, nil, cons, Message, client_server, relay_server, unknown_message, solicit,
  advertise, request, confirm, renew, rebind, reply, release, decline, reconfigure,
  information_request, ia_na_option, ia_pd_option, ia_prefix_option, ia_address_option,
}
use dhcpkit.Element.Access.{join, contains, map_options, get_options_of_type, suboptions}
use dhcpkit.Bundle.{Bundle, mark_handled, get_unhandled_options}
use dhcpkit.Address.{Address}
use dhcpkit.Handler.{done, Outcome}
use dhcpkit.Handler.Ensures.{Ensures, Keeps, EnsuresOr->>=, if-Ensures, if-keeps, handling-Keeps}
use dhcpkit.Handler.Unanswered.{same_ia, answering}
use dhcpkit.Server.Answers.{Answers}
use dhcpkit.Server.Keeping.{answering-Answers}
use dhcpkit.Assignment.{
  Assignment, Prefix, StaticAssignmentHandler, answer_with, answer_found, give_prefix, give_address,
  handle_request, renew_prefixes, renew_addresses, handle_renew_rebind, mark_where, handle_confirm,
  handle_release_decline, with_assignment, assign, static_assignment_handler, overlaps_prefixes,
  renew_prefix, renew_address, find_iapd_option_for_prefix, find_iana_option_for_address,
  granted_prefix, granted_address, holds_address,
}

module _ {asked : Message} {incoming : List Message} where
  mark_handled-Answers :
      (o : DhcpOption) (b : Bundle)
      → Answers asked incoming true b
      → Answers asked incoming true (mark_handled o b)
  unfolding mark_handled
  mark_handled-Answers o b h =
      if-keeps (Answers asked incoming true) (contains o b.handled_options) b
        (record b { handled_options = join b.handled_options (cons o nil) }) h
        (record {
          same_request = h.same_request;
          same_relays = h.same_relays;
          answers = h.answers;
          mirrored = h.mirrored;
          responded = h.responded;
        })

  mark_where-Answers :
      (p : DhcpOption → Bool) (os : Options) (b : Bundle)
      → Answers asked incoming true b
      → Answers asked incoming true (mark_where p os b)
  unfolding mark_where
  mark_where-Answers p nil b h = h
  mark_where-Answers p (cons o os) b h = mark_where-Answers p os _ (
      if-keeps (Answers asked incoming true) (p o) (mark_handled o b) b (mark_handled-Answers o b h)
        h)

  answer_with-Answers :
      (inner : Options) (o : DhcpOption) (b : Bundle)
      → Answers asked incoming true b
      → Ensures (Answers asked incoming true) (answer_with inner o b)
  unfolding answer_with
  answer_with-Answers inner o b h =
      EnsuresOr->>= (Answers asked incoming true) (Answers asked incoming true)
        (Answers asked incoming true) (answering (λ os. join os (cons (same_ia o inner) nil)) b)
        (λ c. done (mark_handled o c))
        (answering-Answers (λ os. join os (cons (same_ia o inner) nil)) b h)
        (mark_handled-Answers o)

  answer_found-Answers :
      (inner : Options) (o : Option DhcpOption) (b : Bundle)
      → Answers asked incoming true b
      → Ensures (Answers asked incoming true) (answer_found inner o b)
  answer_found-Answers inner none b h = h
  answer_found-Answers inner (some o) b h = answer_with-Answers inner o b h

  module _ (h : StaticAssignmentHandler) where
    give_prefix-Answers :
        (p : Option Prefix) (b : Bundle)
        → Answers asked incoming true b
        → Ensures (Answers asked incoming true) (give_prefix h p asked b)
    unfolding give_prefix
    give_prefix-Answers none b k = k
    give_prefix-Answers (some p) b k =
        answer_found-Answers (cons (granted_prefix h p) nil)
          (find_iapd_option_for_prefix (get_unhandled_options (ia_pd_option ∷ []) asked b) (some p))
          b k

    give_address-Answers :
        (a : Option Address) (b : Bundle)
        → Answers asked incoming true b
        → Ensures (Answers asked incoming true) (give_address h a asked b)
    unfolding give_address
    give_address-Answers none b k = k
    give_address-Answers (some a) b k =
        answer_found-Answers (cons (granted_address h a) nil)
          (find_iana_option_for_address (get_unhandled_options (ia_na_option ∷ []) asked b)
            (some a))
          b k

    renew_prefixes-Answers :
        (p : Option Prefix) (os : Options) (b : Bundle)
        → Answers asked incoming true b
        → Ensures (Answers asked incoming true) (renew_prefixes h p os b)
    unfolding renew_prefixes
    renew_prefixes-Answers p nil b k = k
    renew_prefixes-Answers p (cons o os) b k =
        let answer =
          answer_with
            (map_options (renew_prefix h p)
              (get_options_of_type (ia_prefix_option ∷ []) (suboptions o)))
            o b in
        EnsuresOr->>= (Answers asked incoming true) (Answers asked incoming true)
          (Answers asked incoming true) _ (renew_prefixes h p os)
          (if-Ensures (Answers asked incoming true) (overlaps_prefixes p o) answer (done b)
            (answer_with-Answers _ o b k) k)
          (renew_prefixes-Answers p os)

    renew_addresses-Answers :
        (a : Option Address) (os : Options) (b : Bundle)
        → Answers asked incoming true b
        → Ensures (Answers asked incoming true) (renew_addresses h a os b)
    unfolding renew_addresses
    renew_addresses-Answers a nil b k = k
    renew_addresses-Answers a (cons o os) b k =
        EnsuresOr->>= (Answers asked incoming true) (Answers asked incoming true)
          (Answers asked incoming true)
          (answer_with
            (map_options (renew_address h a)
              (get_options_of_type (ia_address_option ∷ []) (suboptions o)))
            o b)
          (renew_addresses h a os) (answer_with-Answers _ o b k) (renew_addresses-Answers a os)

    handle_request-Answers :
        (a : Assignment) (b : Bundle)
        → Answers asked incoming true b
        → Ensures (Answers asked incoming true) (handle_request h a asked b)
    unfolding handle_request
    handle_request-Answers a b k =
        EnsuresOr->>= (Answers asked incoming true) (Answers asked incoming true)
          (Answers asked incoming true) (give_prefix h a.prefix asked b)
          (give_address h a.address asked) (give_prefix-Answers a.prefix b k)
          (give_address-Answers a.address)

    handle_renew_rebind-Answers :
        (a : Assignment) (b : Bundle)
        → Answers asked incoming true b
        → Ensures (Answers asked incoming true) (handle_renew_rebind h a asked b)
    unfolding handle_renew_rebind
    handle_renew_rebind-Answers a b k =
        EnsuresOr->>= (Answers asked incoming true) (Answers asked incoming true)
          (Answers asked incoming true)
          (renew_prefixes h a.prefix (get_unhandled_options (ia_pd_option ∷ []) asked b) b)
          (renew_addresses h a.address (get_unhandled_options (ia_na_option ∷ []) asked b))
          (renew_prefixes-Answers a.prefix (get_unhandled_options (ia_pd_option ∷ []) asked b) b k)
          (renew_addresses-Answers a.address (get_unhandled_options (ia_na_option ∷ []) asked b))

    handle_release_decline-Answers :
        (a : Assignment) (b : Bundle)
        → Answers asked incoming true b
        → Answers asked incoming true (handle_release_decline a asked b)
    unfolding handle_release_decline
    handle_release_decline-Answers a b k =
        mark_where-Answers (holds_address a.address)
          (get_unhandled_options (ia_na_option ∷ []) asked b) _
          (mark_where-Answers (overlaps_prefixes a.prefix)
            (get_unhandled_options (ia_pd_option ∷ []) asked b) b k)

    handle_confirm-Answers :
        (a : Assignment) (b : Bundle)
        → Answers asked incoming true b
        → Answers asked incoming true (handle_confirm a asked b)
    unfolding handle_confirm
    handle_confirm-Answers a b k =
        mark_where-Answers (holds_address a.address)
          (get_unhandled_options (ia_na_option ∷ []) asked b) b k

with_assignment-Ensures :
    (P : Bundle → Type 0) (o : Option Assignment) (b : Bundle) (f : Assignment → Outcome Bundle)
    → (a : Assignment) × (o ≡ some a)
    → ((a : Assignment) → Ensures P (f a))
    → Ensures P (with_assignment o b f)
with_assignment-Ensures P none b f (a, e) k = cc
with_assignment-Ensures P (some a) b f found k = k a

assign-Answers :
    (h : StaticAssignmentHandler) (asked : Message) (incoming : List Message) (b : Bundle)
    → (a : Assignment) × (h.get_assignment b ≡ some a)
    → Answers asked incoming true b
    → Ensures (Answers asked incoming true) (assign h (some asked) b)
unfolding assign
assign-Answers h (unknown_message t d) incoming b found k = k
assign-Answers h (relay_server c l m p os) incoming b found k = k
assign-Answers h (client_server solicit i os) incoming b found k =
    with_assignment-Ensures (Answers (client_server solicit i os) incoming true)
      (h.get_assignment b) b _ found (λ a. handle_request-Answers h a b k)
assign-Answers h (client_server request i os) incoming b found k =
    with_assignment-Ensures (Answers (client_server request i os) incoming true)
      (h.get_assignment b) b _ found (λ a. handle_request-Answers h a b k)
assign-Answers h (client_server confirm i os) incoming b found k =
    with_assignment-Ensures (Answers (client_server confirm i os) incoming true)
      (h.get_assignment b) b _ found (λ a. handle_confirm-Answers h a b k)
assign-Answers h (client_server renew i os) incoming b found k =
    with_assignment-Ensures (Answers (client_server renew i os) incoming true) (h.get_assignment b)
      b _ found (λ a. handle_renew_rebind-Answers h a b k)
assign-Answers h (client_server rebind i os) incoming b found k =
    with_assignment-Ensures (Answers (client_server rebind i os) incoming true) (h.get_assignment b)
      b _ found (λ a. handle_renew_rebind-Answers h a b k)
assign-Answers h (client_server release i os) incoming b found k =
    with_assignment-Ensures (Answers (client_server release i os) incoming true)
      (h.get_assignment b) b _ found (λ a. handle_release_decline-Answers h a b k)
assign-Answers h (client_server decline i os) incoming b found k =
    with_assignment-Ensures (Answers (client_server decline i os) incoming true)
      (h.get_assignment b) b _ found (λ a. handle_release_decline-Answers h a b k)
assign-Answers h (client_server advertise i os) incoming b found k = k
assign-Answers h (client_server reply i os) incoming b found k = k
assign-Answers h (client_server reconfigure i os) incoming b found k = k
assign-Answers h (client_server information_request i os) incoming b found k = k

-- With a get_assignment that raises no exception, the methods of the static assignment handler
-- raise none but those of the handlers and keep the request, the relay messages, the answers and
-- their mirrors in the bundle, as the theorem on handle_message asks of a configured handler.
pub static_assignment_handler-Keeps :
    (h : StaticAssignmentHandler) (asked : Message) (incoming : List Message)
    → ((b : Bundle) → (a : Assignment) × (h.get_assignment b ≡ some a))
    → Keeps (Answers asked incoming) (static_assignment_handler h)
static_assignment_handler-Keeps h asked incoming found =
    handling-Keeps (Answers asked incoming) (λ b. assign h b.client_request b)
      (λ b k.
        subst (λ o. Ensures (Answers asked incoming true) (assign h o b)) (sym k.same_request)
          (assign-Answers h asked incoming b (found b) k))
