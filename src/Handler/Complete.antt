-- ===== src/Handler/Complete.antt =====
-- dhcpkit/ipv6/server/handlers/unanswered_ia.py and extensions/prefix_delegation.py: every IA option that
-- no handler has answered gets an answer.
use dhcpkit.Prelude.{◌≡◌, refl, sym, ap, ◌∙◌, Bool, true, false, List, [], ◌∷◌, some}
use dhcpkit.Wire.{Bytes}
use dhcpkit.Element.{
  DhcpOption, leaf, ia_na, ia_ta, ia_address, ia_pd, ia_prefix, relay_message, Options, nil, cons,
  Message, client_server, ClientServerClass, solicit, advertise, request, confirm, renew, rebind,
  reply, release, decline, reconfigure, information_request, OptionClass, ia_na_option,
  ia_ta_option, ia_pd_option,
}
use dhcpkit.Element.Contains.{class_of_option}
use dhcpkit.Element.Access.{join}
use dhcpkit.Bundle.{Bundle, get_unhandled_options}
use dhcpkit.Handler.{done, ◌>>=◌, edit_response, with_message}
use dhcpkit.Handler.Replaced.{join-nil}
use dhcpkit.Handler.Forced.{join_assoc}
use dhcpkit.Handler.Unanswered.{
  same_ia, withdrawn, Answer, append_option, carry_out, answering, answer_ia, answer_ia_pd,
  for_each, unanswered_ia, unanswered_ia_pd,
}

-- The class and the IAID of an option.
abbrev pub key_of : DhcpOption → OptionClass × Bytes
key_of (ia_na i t1 t2 os) = (ia_na_option, i)
key_of (ia_ta i os) = (ia_ta_option, i)
key_of (ia_pd i t1 t2 os) = (ia_pd_option, i)
key_of o = (class_of_option o, [])

abbrev pub keys_of : Options → List (OptionClass × Bytes)
keys_of nil = []
keys_of (cons o os) = key_of o ∷ keys_of os

pub key_of-same_ia : (o : DhcpOption) (os : Options) → key_of (same_ia o os) ≡ key_of o
key_of-same_ia (leaf l) os = refl
key_of-same_ia (ia_na i t u q) os = refl
key_of-same_ia (ia_ta i q) os = refl
key_of-same_ia (ia_address a p v q) os = refl
key_of-same_ia (ia_pd i t u q) os = refl
key_of-same_ia (ia_prefix a l p v q) os = refl
key_of-same_ia (relay_message m) os = refl

-- Each option is answered by one with the same key.
abbrev Appends : (DhcpOption → Answer) → Type 0
Appends answer = (o : DhcpOption) → (os : Options) × (answer o ≡ append_option (same_ia o os))

-- The bundle with a client/server message as its first response.
abbrev pub responding : ClientServerClass → Bytes → List Message → Bundle → Options → Bundle
responding c i rs b os = record b { responses = client_server c i os ∷ rs }

for_each-Appends :
    (answer : DhcpOption → Answer) (c : ClientServerClass) (i : Bytes) (rs : List Message)
    (b : Bundle)
    → Appends answer
    → (os ps : Options)
    → (qs : Options) × (for_each answer os (responding c i rs b ps)
        ≡ done (responding c i rs b (join ps qs)))
      × (keys_of qs ≡ keys_of os)
unfolding for_each carry_out answering edit_response join
for_each-Appends answer c i rs b h nil ps =
    (nil, ap (λ x. done (responding c i rs b x)) (sym (join-nil ps)), refl)
for_each-Appends answer c i rs b h (cons o os) ps =
    let (inner, e) = h o in
    let p = same_ia o inner in
    let (qs, f, k) = for_each-Appends answer c i rs b h os (join ps (cons p nil)) in
    (
      cons p qs,
      ap (λ a. carry_out a (responding c i rs b ps) >>= for_each answer os) e
          ∙ f
          ∙ ap (λ x. done (responding c i rs b x)) (join_assoc ps (cons p nil) qs),
      cc (key_of-same_ia o inner, k),
    )

-- The classes of requests whose IA_NA and IA_TA options are all answered.
abbrev pub assigns : ClientServerClass → Bool
assigns solicit = true
assigns request = true
assigns renew = true
assigns rebind = true
assigns release = true
assigns decline = true
assigns _ = false

answer_ia-Appends :
    (c : ClientServerClass) (i : Bytes) (os : Options)
    → assigns c ≡ true
    → Appends (answer_ia true (client_server c i os))
unfolding answer_ia withdrawn
answer_ia-Appends solicit i os e o = (_, refl)
answer_ia-Appends request i os e o = (_, refl)
answer_ia-Appends renew i os e o = (_, refl)
answer_ia-Appends rebind i os e o = (_, refl)
answer_ia-Appends release i os e o = (_, refl)
answer_ia-Appends decline i os e o = (_, refl)
answer_ia-Appends advertise i os e o = cc
answer_ia-Appends confirm i os e o = cc
answer_ia-Appends reply i os e o = cc
answer_ia-Appends reconfigure i os e o = cc
answer_ia-Appends information_request i os e o = cc

-- The classes of requests whose IA_PD options are all answered.
abbrev pub assigns_prefixes : ClientServerClass → Bool
assigns_prefixes solicit = true
assigns_prefixes request = true
assigns_prefixes renew = true
assigns_prefixes rebind = true
assigns_prefixes release = true
assigns_prefixes _ = false

answer_ia_pd-Appends :
    (c : ClientServerClass) (i : Bytes) (os : Options)
    → assigns_prefixes c ≡ true
    → Appends (answer_ia_pd true (client_server c i os))
unfolding answer_ia_pd withdrawn
answer_ia_pd-Appends solicit i os e o = (_, refl)
answer_ia_pd-Appends request i os e o = (_, refl)
answer_ia_pd-Appends renew i os e o = (_, refl)
answer_ia_pd-Appends rebind i os e o = (_, refl)
answer_ia_pd-Appends release i os e o = (_, refl)
answer_ia_pd-Appends advertise i os e o = cc
answer_ia_pd-Appends confirm i os e o = cc
answer_ia_pd-Appends reply i os e o = cc
answer_ia_pd-Appends reconfigure i os e o = cc
answer_ia_pd-Appends information_request i os e o = cc
answer_ia_pd-Appends decline i os e o = cc

-- For a request other than Confirm and Information-request, and a client/server message as the
-- response, an authoritative UnansweredIAOptionHandler raises no exception, and puts behind the
-- options of the response, in their order, exactly one option for each IA_NA and IA_TA option of
-- the request that is not handled, with the same class and the same IAID.
pub unanswered_ia-keys :
    (c d : ClientServerClass) (i j : Bytes) (os ps : Options) (rs : List Message) (b : Bundle)
    → assigns c ≡ true
    → b.client_request ≡ some (client_server c i os)
    → (qs : Options) × (unanswered_ia true (responding d j rs b ps)
        ≡ done (responding d j rs b (join ps qs)))
      × (keys_of qs
          ≡ keys_of
              (get_unhandled_options (ia_na_option ∷ ia_ta_option ∷ []) (client_server c i os) b))
unfolding unanswered_ia get_unhandled_options
unanswered_ia-keys c d i j os ps rs b h e =
    let asked = client_server c i os in
    let unhandled = get_unhandled_options (ia_na_option ∷ ia_ta_option ∷ []) asked b in
    let (qs, f, k) =
      for_each-Appends (answer_ia true asked) d j rs b (answer_ia-Appends c i os h) unhandled ps in
    (
      qs,
      ap
            (λ o. with_message o (responding d j rs b ps) (λ m.
              for_each (answer_ia true m)
                (get_unhandled_options (ia_na_option ∷ ia_ta_option ∷ []) m
                  (responding d j rs b ps))
                (responding d j rs b ps)))
            e
          ∙ f,
      k,
    )

-- For a Solicit, Request, Renew, Rebind or Release, and a client/server message as the response, an
-- authoritative UnansweredIAPDOptionHandler raises no exception, and puts behind the options of the
-- response, in their order, exactly one IA_PD option for each IA_PD option of the request that is
-- not handled, with the same IAID.
pub unanswered_ia_pd-keys :
    (c d : ClientServerClass) (i j : Bytes) (os ps : Options) (rs : List Message) (b : Bundle)
    → assigns_prefixes c ≡ true
    → b.client_request ≡ some (client_server c i os)
    → (qs : Options) × (unanswered_ia_pd true (responding d j rs b ps)
        ≡ done (responding d j rs b (join ps qs)))
      × (keys_of qs ≡ keys_of (get_unhandled_options (ia_pd_option ∷ []) (client_server c i os) b))
unfolding unanswered_ia_pd get_unhandled_options
unanswered_ia_pd-keys c d i j os ps rs b h e =
    let asked = client_server c i os in
    let unhandled = get_unhandled_options (ia_pd_option ∷ []) asked b in
    let (qs, f, k) =
      for_each-Appends (answer_ia_pd true asked) d j rs b (answer_ia_pd-Appends c i os h) unhandled
        ps in
    (
      qs,
      ap
            (λ o. with_message o (responding d j rs b ps) (λ m.
              for_each (answer_ia_pd true m)
                (get_unhandled_options (ia_pd_option ∷ []) m (responding d j rs b ps))
                (responding d j rs b ps)))
            e
          ∙ f,
      k,
    )
