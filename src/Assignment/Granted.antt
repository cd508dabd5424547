-- ===== src/Assignment/Granted.antt =====
-- dhcpkit/ipv6/server/extensions/static_assignments/__init__.py: a client is given nothing but what is
-- reserved for it.
use dhcpkit.Prelude.{◌≡◌, refl, sym, ap, ◌∙◌, subst, Option, some, List, [], ◌∷◌}
use dhcpkit.Wire.{Bytes}
use dhcpkit.Element.{
  Options, Message, ClientServerClass, client_server, unknown_message, relay_server, ia_na_option,
  ia_pd_option, solicit, advertise, request, confirm, renew, rebind, reply, release, decline,
  reconfigure, information_request,
}
use dhcpkit.Element.Access.{join}
use dhcpkit.Bundle.{Bundle, get_unhandled_options}
use dhcpkit.Handler.{done, Outcome}
use dhcpkit.Handler.Complete.{responding}
use dhcpkit.Assignment.{
  Assignment, StaticAssignmentHandler, give_prefix, give_address, handle_request, renew_prefixes,
  renew_addresses, handle_renew_rebind, mark_where, handle_confirm, handle_release_decline,
  with_assignment, assign, static_assignment_handler, holds_address, overlaps_prefixes,
}
use dhcpkit.Handler.Classes.{
  AllOptions, IsAssigned, ia_na-IsAssigned, ia_pd-IsAssigned, unhandled-All,
}
use dhcpkit.Assignment.Adding.{
  with_answers, Adds, Adds-none, Adds->>=, mark_where-with_answers, give_prefix-Adds,
  give_address-Adds, renew_prefixes-Adds, renew_addresses-Adds,
}
use dhcpkit.Assignment.Reserved.{Grants}

module _ (a : Assignment) (c : ClientServerClass) (i : Bytes) (rs : List Message) (b : Bundle) where
  Adds-marked :
      (ps handled : Options) (d : Bundle)
      → (now : Options) × (d ≡ with_answers c i rs b ps now)
      → Adds a c i rs b ps (done d)
  Adds-marked ps handled d (now, e) =
      subst (λ x. Adds a c i rs b ps (done x)) (sym e) (Adds-none a c i rs b ps now)

  module _ (h : StaticAssignmentHandler) (asked : Message) (ps handled : Options) where
    handle_request-Adds :
        Adds a c i rs b ps (handle_request h a asked (with_answers c i rs b ps handled))
    unfolding handle_request
    handle_request-Adds =
        Adds->>= a c i rs b ps (give_prefix h a.prefix asked (with_answers c i rs b ps handled))
          (give_address h a.address asked)
          (give_prefix-Adds a c i rs b h a.prefix asked ps handled refl)
          (λ qs now. give_address-Adds a c i rs b h a.address asked qs now refl)

    handle_renew_rebind-Adds :
        Adds a c i rs b ps (handle_renew_rebind h a asked (with_answers c i rs b ps handled))
    unfolding handle_renew_rebind
    handle_renew_rebind-Adds =
        let start = with_answers c i rs b ps handled in
        let os = get_unhandled_options (ia_pd_option ∷ []) asked start in
        let more = get_unhandled_options (ia_na_option ∷ []) asked start in
        Adds->>= a c i rs b ps (renew_prefixes h a.prefix os start)
          (renew_addresses h a.address more)
          (renew_prefixes-Adds a c i rs b h os ps handled
            (unhandled-All ia_pd_option IsAssigned ia_pd-IsAssigned asked start))
          (λ qs now.
            renew_addresses-Adds a c i rs b h more qs now
              (unhandled-All ia_na_option IsAssigned ia_na-IsAssigned asked start))

    handle_confirm-Adds :
        Adds a c i rs b ps (done (handle_confirm a asked (with_answers c i rs b ps handled)))
    unfolding handle_confirm
    handle_confirm-Adds = Adds-marked ps handled _ (
        mark_where-with_answers a c i rs b (holds_address a.address)
          (get_unhandled_options (ia_na_option ∷ []) asked (with_answers c i rs b ps handled)) ps
          handled)

    handle_release_decline-Adds :
        Adds a c i rs b ps
          (done (handle_release_decline a asked (with_answers c i rs b ps handled)))
    unfolding handle_release_decline
    handle_release_decline-Adds =
        let start = with_answers c i rs b ps handled in
        let os = get_unhandled_options (ia_pd_option ∷ []) asked start in
        let (now, e) =
          mark_where-with_answers a c i rs b (overlaps_prefixes a.prefix) os ps handled in
        let (last, f) =
          mark_where-with_answers a c i rs b (holds_address a.address)
            (get_unhandled_options (ia_na_option ∷ []) asked start) ps now in
        Adds-marked ps handled _ (
          last,
          ap
                (mark_where (holds_address a.address)
                  (get_unhandled_options (ia_na_option ∷ []) asked start))
                e
              ∙ f,
        )

with_assignment-Adds :
    (a : Assignment) (c : ClientServerClass) (i : Bytes) (rs : List Message) (b : Bundle)
    (ps : Options) (o : Option Assignment) (d : Bundle) (f : Assignment → Outcome Bundle)
    → o ≡ some a
    → Adds a c i rs b ps (f a)
    → Adds a c i rs b ps (with_assignment o d f)
with_assignment-Adds a c i rs b ps o d f e k =
    subst (λ x. Adds a c i rs b ps (with_assignment x d f)) (sym e) k

assign-Adds :
    (h : StaticAssignmentHandler) (a : Assignment) (asked : Message) (c : ClientServerClass)
    (i : Bytes) (rs : List Message) (b : Bundle) (ps handled : Options)
    → h.get_assignment (with_answers c i rs b ps handled) ≡ some a
    → Adds a c i rs b ps (assign h (some asked) (with_answers c i rs b ps handled))
unfolding assign
assign-Adds h a (unknown_message t d) c i rs b ps handled e = Adds-none a c i rs b ps handled
assign-Adds h a (relay_server k l m p os) c i rs b ps handled e = Adds-none a c i rs b ps handled
assign-Adds h a (client_server solicit j os) c i rs b ps handled e =
    with_assignment-Adds a c i rs b ps (h.get_assignment (with_answers c i rs b ps handled))
      (with_answers c i rs b ps handled) _ e
      (handle_request-Adds a c i rs b h (client_server solicit j os) ps handled)
assign-Adds h a (client_server request j os) c i rs b ps handled e =
    with_assignment-Adds a c i rs b ps (h.get_assignment (with_answers c i rs b ps handled))
      (with_answers c i rs b ps handled) _ e
      (handle_request-Adds a c i rs b h (client_server request j os) ps handled)
assign-Adds h a (client_server confirm j os) c i rs b ps handled e =
    with_assignment-Adds a c i rs b ps (h.get_assignment (with_answers c i rs b ps handled))
      (with_answers c i rs b ps handled) _ e
      (handle_confirm-Adds a c i rs b h (client_server confirm j os) ps handled)
assign-Adds h a (client_server renew j os) c i rs b ps handled e =
    with_assignment-Adds a c i rs b ps (h.get_assignment (with_answers c i rs b ps handled))
      (with_answers c i rs b ps handled) _ e
      (handle_renew_rebind-Adds a c i rs b h (client_server renew j os) ps handled)
assign-Adds h a (client_server rebind j os) c i rs b ps handled e =
    with_assignment-Adds a c i rs b ps (h.get_assignment (with_answers c i rs b ps handled))
      (with_answers c i rs b ps handled) _ e
      (handle_renew_rebind-Adds a c i rs b h (client_server rebind j os) ps handled)
assign-Adds h a (client_server release j os) c i rs b ps handled e =
    with_assignment-Adds a c i rs b ps (h.get_assignment (with_answers c i rs b ps handled))
      (with_answers c i rs b ps handled) _ e
      (handle_release_decline-Adds a c i rs b h (client_server release j os) ps handled)
assign-Adds h a (client_server decline j os) c i rs b ps handled e =
    with_assignment-Adds a c i rs b ps (h.get_assignment (with_answers c i rs b ps handled))
      (with_answers c i rs b ps handled) _ e
      (handle_release_decline-Adds a c i rs b h (client_server decline j os) ps handled)
assign-Adds h a (client_server advertise j os) c i rs b ps handled e =
    Adds-none a c i rs b ps handled
assign-Adds h a (client_server reply j os) c i rs b ps handled e = Adds-none a c i rs b ps handled
assign-Adds h a (client_server reconfigure j os) c i rs b ps handled e =
    Adds-none a c i rs b ps handled
assign-Adds h a (client_server information_request j os) c i rs b ps handled e =
    Adds-none a c i rs b ps handled

-- Whatever the request, for an assignment that get_assignment returns for the bundle, and a
-- client/server message as the response: the static assignment handler raises no exception, and
-- adds to the options of the response only IA_NA and IA_PD options in which each address is the
-- assigned one or has the lifetimes 0, and each prefix likewise.
pub assign-Grants :
    (h : StaticAssignmentHandler) (a : Assignment) (asked : Message) (c : ClientServerClass)
    (i : Bytes) (rs : List Message) (b : Bundle) (ps : Options)
    → b.client_request ≡ some asked
    → h.get_assignment (responding c i rs b ps) ≡ some a
    → (qs : Options) × (handled : Options) × ((static_assignment_handler h).handle
          (responding c i rs b ps)
        ≡ done (with_answers c i rs b (join ps qs) handled))
      × AllOptions (Grants a) qs
assign-Grants h a asked c i rs b ps e found =
    subst (λ o. Adds a c i rs b ps (assign h o (responding c i rs b ps))) (sym e)
      (assign-Adds h a asked c i rs b ps b.handled_options found)
