-- ===== src/Assignment/Renewed.antt =====
-- dhcpkit/ipv6/server/extensions/static_assignments/__init__.py: which options of a Renew or a Rebind the
-- handler answers.
use dhcpkit.Prelude.{◌≡◌, refl, sym, ap, ◌∙◌, Bool-cases, inl, inr, some, List, [], ◌∷◌, ◌++◌}
use dhcpkit.Wire.{Bytes}
use dhcpkit.Element.{
  DhcpOption, Options, nil, cons, Message, ClientServerClass, client_server, renew, rebind,
  ia_na_option, ia_pd_option, ia_address_option, ia_prefix_option,
}
use dhcpkit.Element.Access.{join, keep_options, map_options, get_options_of_type, suboptions}
use dhcpkit.Bundle.{Bundle, get_unhandled_options}
use dhcpkit.Handler.{Outcome, done, ◌>>=◌, edit_response}
use dhcpkit.Handler.Replaced.{join-nil}
use dhcpkit.Handler.Forced.{join_assoc}
use dhcpkit.Handler.Unanswered.{same_ia, answering}
use dhcpkit.Handler.Complete.{responding, keys_of, key_of-same_ia}
use dhcpkit.Assignment.{
  Assignment, StaticAssignmentHandler, answer_with, renew_prefixes, renew_addresses,
  handle_renew_rebind, renew_prefix, renew_address, overlaps_prefixes, assign,
  static_assignment_handler,
}
use dhcpkit.Assignment.Adding.{with_answers, mark_handled-with_answers}

keys_of-join : (os ps : Options) → keys_of (join os ps) ≡ keys_of os ++ keys_of ps
unfolding join
keys_of-join nil ps = refl
keys_of-join (cons o os) ps = cc (keys_of-join os ps)

module _ (a : Assignment) (c : ClientServerClass) (i : Bytes) (rs : List Message) (b : Bundle) where
  -- The response has more options than before, with the keys of the given ones.
  abbrev Answered : Options → Options → Outcome Bundle → Type 0
  Answered ps os o =
      (qs : Options) × (handled : Options) × (o ≡ done (with_answers c i rs b (join ps qs) handled))
      × (keys_of qs ≡ keys_of os)

  Answered-none : (ps handled : Options) → Answered ps nil (done (with_answers c i rs b ps handled))
  Answered-none ps handled =
      (nil, handled, ap (λ x. done (with_answers c i rs b x handled)) (sym (join-nil ps)), refl)

  Answered->>= :
      (ps os more : Options) (o : Outcome Bundle) (f : Bundle → Outcome Bundle)
      → Answered ps os o
      → ((qs handled : Options) → Answered qs more (f (with_answers c i rs b qs handled)))
      → Answered ps (join os more) (o >>= f)
  Answered->>= ps os more o f (qs, handled, e, g) k =
      let (added, now, e', g') = k (join ps qs) handled in
      (
        join qs added,
        now,
        ap (λ x. x >>= f) e
            ∙ e'
            ∙ ap (λ x. done (with_answers c i rs b x now)) (join_assoc ps qs added),
        cc (keys_of-join qs added, keys_of-join os more, g, g'),
      )

  answer_with-Answered :
      (inner : Options) (o : DhcpOption) (ps handled : Options)
      → Answered ps (cons o nil) (answer_with inner o (with_answers c i rs b ps handled))
  unfolding answer_with answering edit_response
  answer_with-Answered inner o ps handled =
      let added = join ps (cons (same_ia o inner) nil) in
      let (now, e) = mark_handled-with_answers a c i rs b o added handled in
      (cons (same_ia o inner) nil, now, ap done e, cc (key_of-same_ia o inner))

  module _ (h : StaticAssignmentHandler) where
    renew_prefixes-Answered :
        (os ps handled : Options)
        → Answered ps
            (keep_options (overlaps_prefixes a.prefix) os)
            (renew_prefixes h a.prefix os (with_answers c i rs b ps handled))
    unfolding renew_prefixes keep_options join
    renew_prefixes-Answered nil ps handled = Answered-none ps handled
    renew_prefixes-Answered (cons o os) ps handled =
        elim (Bool-cases (overlaps_prefixes a.prefix o)) [
          | inl e ↦ rw e (
              Answered->>= ps (cons o nil) (keep_options (overlaps_prefixes a.prefix) os)
                (answer_with
                  (map_options (renew_prefix h a.prefix)
                    (get_options_of_type (ia_prefix_option ∷ []) (suboptions o)))
                  o (with_answers c i rs b ps handled))
                (renew_prefixes h a.prefix os)
                (answer_with-Answered
                  (map_options (renew_prefix h a.prefix)
                    (get_options_of_type (ia_prefix_option ∷ []) (suboptions o)))
                  o ps handled)
                (λ qs now. renew_prefixes-Answered os qs now))
          | inr e ↦ rw e (renew_prefixes-Answered os ps handled)
        ]

    renew_addresses-Answered :
        (os ps handled : Options)
        → Answered ps os (renew_addresses h a.address os (with_answers c i rs b ps handled))
    unfolding renew_addresses join
    renew_addresses-Answered nil ps handled = Answered-none ps handled
    renew_addresses-Answered (cons o os) ps handled =
        Answered->>= ps (cons o nil) os
          (answer_with
            (map_options (renew_address h a.address)
              (get_options_of_type (ia_address_option ∷ []) (suboptions o)))
            o (with_answers c i rs b ps handled))
          (renew_addresses h a.address os)
          (answer_with-Answered
            (map_options (renew_address h a.address)
              (get_options_of_type (ia_address_option ∷ []) (suboptions o)))
            o ps handled)
          (λ qs now. renew_addresses-Answered os qs now)

    -- The options that the handler answers.
    abbrev pub answered_by : Message → Options
    answered_by asked =
        join
          (keep_options (overlaps_prefixes a.prefix)
            (get_unhandled_options (ia_pd_option ∷ []) asked b))
          (get_unhandled_options (ia_na_option ∷ []) asked b)

    handle_renew_rebind-Answered :
        (asked : Message) (ps : Options)
        → Answered ps
            (answered_by asked)
            (handle_renew_rebind h a asked (with_answers c i rs b ps b.handled_options))
    unfolding handle_renew_rebind get_unhandled_options
    handle_renew_rebind-Answered asked ps =
        let start = with_answers c i rs b ps b.handled_options in
        let os = get_unhandled_options (ia_pd_option ∷ []) asked b in
        let more = get_unhandled_options (ia_na_option ∷ []) asked b in
        Answered->>= ps (keep_options (overlaps_prefixes a.prefix) os) more
          (renew_prefixes h a.prefix os start) (renew_addresses h a.address more)
          (renew_prefixes-Answered os ps b.handled_options)
          (λ qs now. renew_addresses-Answered more qs now)

-- A Renew or a Rebind.
pub data IsRenewal : Message → Type 0 where
  renewal : (i : Bytes) (os : Options) → IsRenewal (client_server renew i os)
  rebinding : (i : Bytes) (os : Options) → IsRenewal (client_server rebind i os)

assign-renewal :
    (h : StaticAssignmentHandler) (a : Assignment) (asked : Message) (b : Bundle)
    → IsRenewal asked
    → h.get_assignment b ≡ some a
    → assign h (some asked) b ≡ handle_renew_rebind h a asked b
unfolding assign
assign-renewal h a asked b (renewal i os) e = rw e refl
assign-renewal h a asked b (rebinding i os) e = rw e refl

-- For a Renew or a Rebind, an assignment that get_assignment returns for the bundle, and a
-- client/server message as the response: the static assignment handler raises no exception, and
-- answers, in their order, first each IA_PD option that is not handled and has a prefix which
-- overlaps the assigned one, and then each IA_NA option that is not handled, with exactly one
-- option of the same class and IAID.
pub assign-renewed :
    (h : StaticAssignmentHandler) (a : Assignment) (asked : Message) (c : ClientServerClass)
    (i : Bytes) (rs : List Message) (b : Bundle) (ps : Options)
    → IsRenewal asked
    → b.client_request ≡ some asked
    → h.get_assignment (responding c i rs b ps) ≡ some a
    → (qs : Options) × (handled : Options) × ((static_assignment_handler h).handle
          (responding c i rs b ps)
        ≡ done (with_answers c i rs b (join ps qs) handled))
      × (keys_of qs
          ≡ keys_of (
              join
                (keep_options
                  (overlaps_prefixes a.prefix)
                  (get_unhandled_options (ia_pd_option ∷ []) asked b))
                (get_unhandled_options (ia_na_option ∷ []) asked b)))
assign-renewed h a asked c i rs b ps r e found =
    let (qs, handled, made, keys) = handle_renew_rebind-Answered a c i rs b h asked ps in
    (
      qs,
      handled,
      ap (λ o. assign h o (responding c i rs b ps)) e
          ∙ assign-renewal h a asked (responding c i rs b ps) r found
          ∙ made,
      keys,
    )
