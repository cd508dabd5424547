-- ===== src/Assignment/Adding.antt =====
-- dhcpkit/ipv6/server/extensions/static_assignments/__init__.py: what the steps of the handler add to the
-- response.
use dhcpkit.Prelude.{
  ◌≡◌, inl, inr, refl, sym, ap, ◌∙◌, Bool, Option, none, some, List, [], ◌∷◌, Bool-cases,
}
use dhcpkit.Wire.{Bytes}
use dhcpkit.Address.{Address}
use dhcpkit.Element.{
  DhcpOption, Options, nil, cons, Message, ClientServerClass, client_server, ia_na_option,
  ia_pd_option, ia_address_option, ia_prefix_option,
}
use dhcpkit.Element.Access.{join, contains, suboptions, map_options, get_options_of_type, has_class}
use dhcpkit.Bundle.{Bundle, mark_handled, get_unhandled_options}
use dhcpkit.Handler.{Outcome, done, ◌>>=◌, edit_response}
use dhcpkit.Handler.Replaced.{join-nil}
use dhcpkit.Handler.Forced.{join_assoc}
use dhcpkit.Handler.Unanswered.{same_ia, answering}
use dhcpkit.Assignment.{
  Assignment, Prefix, StaticAssignmentHandler, answer_with, answer_found, give_prefix, give_address,
  renew_prefixes, renew_addresses, renew_prefix, renew_address, granted_prefix, granted_address,
  overlaps_prefixes, find_iapd_option_for_prefix, find_iana_option_for_address, holds_prefix,
  holds_address, mark_where, first_option,
}
use dhcpkit.Handler.Classes.{
  AllOptions, IsAssigned, ia_na-IsAssigned, ia_pd-IsAssigned, All-map-keep, All-join, unhandled-All,
}
use dhcpkit.Assignment.Reserved.{
  IsReserved, Grants, OfFound, find_among-OfFound, first_option-OfFound, renew_address-IsReserved,
  renew_prefix-IsReserved, same_ia-Grants,
}

-- An address or a prefix in an answer is reserved for the client, or it is withdrawn.

-- The bundle with other options of the response, and other handled options.
abbrev pub with_answers :
    ClientServerClass → Bytes → List Message → Bundle → Options → Options → Bundle
with_answers c i rs b ps handled = record b {
  responses = client_server c i ps ∷ rs;
  handled_options = handled;
}

module _ (a : Assignment) (c : ClientServerClass) (i : Bytes) (rs : List Message) (b : Bundle) where
  -- The response has more options than before, which grant what is reserved.
  abbrev pub Adds : Options → Outcome Bundle → Type 0
  Adds ps o =
      (qs : Options) × (handled : Options) × (o ≡ done (with_answers c i rs b (join ps qs) handled))
      × AllOptions (Grants a) qs

  pub Adds-none : (ps handled : Options) → Adds ps (done (with_answers c i rs b ps handled))
  Adds-none ps handled =
      (nil, handled, ap (λ x. done (with_answers c i rs b x handled)) (sym (join-nil ps)), tt)

  pub Adds->>= :
      (ps : Options) (o : Outcome Bundle) (f : Bundle → Outcome Bundle)
      → Adds ps o
      → ((qs handled : Options) → Adds qs (f (with_answers c i rs b qs handled)))
      → Adds ps (o >>= f)
  Adds->>= ps o f (qs, handled, e, g) k =
      let (more, now, e', g') = k (join ps qs) handled in
      (
        join qs more,
        now,
        ap (λ x. x >>= f) e
            ∙ e'
            ∙ ap (λ x. done (with_answers c i rs b x now)) (join_assoc ps qs more),
        All-join (Grants a) qs more g g',
      )

  pub mark_handled-with_answers :
      (o : DhcpOption) (ps handled : Options)
      → (now : Options) × (mark_handled o (with_answers c i rs b ps handled)
          ≡ with_answers c i rs b ps now)
  unfolding mark_handled
  mark_handled-with_answers o ps handled = elim (Bool-cases (contains o handled)) [
    | inl e ↦ (handled, rw e refl)
    | inr e ↦ (join handled (cons o nil), rw e refl)
  ]

  answer_with-Adds :
      (inner : Options) (o : DhcpOption) (ps handled : Options)
      → IsAssigned o
      → AllOptions (IsReserved a) inner
      → Adds ps (answer_with inner o (with_answers c i rs b ps handled))
  unfolding answer_with answering edit_response
  answer_with-Adds inner o ps handled h k =
      let added = join ps (cons (same_ia o inner) nil) in
      let (now, e) = mark_handled-with_answers o added handled in
      (cons (same_ia o inner) nil, now, ap done e, (same_ia-Grants a o inner h k, tt))

  answer_found-Adds :
      (inner : Options) (o : Option DhcpOption) (ps handled : Options)
      → OfFound IsAssigned o
      → AllOptions (IsReserved a) inner
      → Adds ps (answer_found inner o (with_answers c i rs b ps handled))
  answer_found-Adds inner none ps handled h k = Adds-none ps handled
  answer_found-Adds inner (some o) ps handled h k = answer_with-Adds inner o ps handled h k

  pub mark_where-with_answers :
      (p : DhcpOption → Bool) (os ps handled : Options)
      → (now : Options) × (mark_where p os (with_answers c i rs b ps handled)
          ≡ with_answers c i rs b ps now)
  unfolding mark_where
  mark_where-with_answers p nil ps handled = (handled, refl)
  mark_where-with_answers p (cons o os) ps handled = elim (Bool-cases (p o)) [
    | inl e ↦
        let (now, f) = mark_handled-with_answers o ps handled in
        let (last, g) = mark_where-with_answers p os ps now in
        (last, rw e (ap (mark_where p os) f ∙ g))
    | inr e ↦ rw e (mark_where-with_answers p os ps handled)
  ]

  module _ (h : StaticAssignmentHandler) where
    pub give_prefix-Adds :
        (prefix : Option Prefix) (asked : Message) (ps handled : Options)
        → a.prefix ≡ prefix
        → Adds ps (give_prefix h prefix asked (with_answers c i rs b ps handled))
    unfolding give_prefix find_iapd_option_for_prefix
    give_prefix-Adds none asked ps handled e = Adds-none ps handled
    give_prefix-Adds (some p) asked ps handled e =
        let os =
          get_unhandled_options (ia_pd_option ∷ []) asked (with_answers c i rs b ps handled) in
        let assigned =
          unhandled-All ia_pd_option IsAssigned ia_pd-IsAssigned asked
            (with_answers c i rs b ps handled) in
        answer_found-Adds (cons (granted_prefix h p) nil) (find_iapd_option_for_prefix os (some p))
          ps handled
          (find_among-OfFound IsAssigned (holds_prefix (some p)) os (first_option os) assigned
            (first_option-OfFound IsAssigned os assigned))
          (inl e, tt)

    pub give_address-Adds :
        (address : Option Address) (asked : Message) (ps handled : Options)
        → a.address ≡ address
        → Adds ps (give_address h address asked (with_answers c i rs b ps handled))
    unfolding give_address find_iana_option_for_address
    give_address-Adds none asked ps handled e = Adds-none ps handled
    give_address-Adds (some x) asked ps handled e =
        let os =
          get_unhandled_options (ia_na_option ∷ []) asked (with_answers c i rs b ps handled) in
        let assigned =
          unhandled-All ia_na_option IsAssigned ia_na-IsAssigned asked
            (with_answers c i rs b ps handled) in
        answer_found-Adds (cons (granted_address h x) nil)
          (find_iana_option_for_address os (some x)) ps handled
          (find_among-OfFound IsAssigned (holds_address (some x)) os (first_option os) assigned
            (first_option-OfFound IsAssigned os assigned))
          (inl e, tt)

    pub renew_prefixes-Adds :
        (os ps handled : Options)
        → AllOptions IsAssigned os
        → Adds ps (renew_prefixes h a.prefix os (with_answers c i rs b ps handled))
    unfolding renew_prefixes get_options_of_type
    renew_prefixes-Adds nil ps handled k = Adds-none ps handled
    renew_prefixes-Adds (cons o os) ps handled (k, ks) =
        elim (Bool-cases (overlaps_prefixes a.prefix o)) [
          | inl e ↦ rw e (
              Adds->>= ps
                (answer_with
                  (map_options (renew_prefix h a.prefix)
                    (get_options_of_type (ia_prefix_option ∷ []) (suboptions o)))
                  o (with_answers c i rs b ps handled))
                (renew_prefixes h a.prefix os)
                (answer_with-Adds
                  (map_options (renew_prefix h a.prefix)
                    (get_options_of_type (ia_prefix_option ∷ []) (suboptions o)))
                  o ps handled k
                  (All-map-keep (IsReserved a) (has_class (ia_prefix_option ∷ []))
                    (renew_prefix h a.prefix) (λ x. renew_prefix-IsReserved h a a.prefix x refl)
                    (suboptions o)))
                (λ qs now. renew_prefixes-Adds os qs now ks))
          | inr e ↦ rw e (renew_prefixes-Adds os ps handled ks)
        ]

    pub renew_addresses-Adds :
        (os ps handled : Options)
        → AllOptions IsAssigned os
        → Adds ps (renew_addresses h a.address os (with_answers c i rs b ps handled))
    unfolding renew_addresses get_options_of_type
    renew_addresses-Adds nil ps handled k = Adds-none ps handled
    renew_addresses-Adds (cons o os) ps handled (k, ks) =
        Adds->>= ps
          (answer_with
            (map_options (renew_address h a.address)
              (get_options_of_type (ia_address_option ∷ []) (suboptions o)))
            o (with_answers c i rs b ps handled))
          (renew_addresses h a.address os)
          (answer_with-Adds
            (map_options (renew_address h a.address)
              (get_options_of_type (ia_address_option ∷ []) (suboptions o)))
            o ps handled k
            (All-map-keep (IsReserved a) (has_class (ia_address_option ∷ []))
              (renew_address h a.address) (λ x. renew_address-IsReserved h a a.address x refl)
              (suboptions o)))
          (λ qs now. renew_addresses-Adds os qs now ks)
