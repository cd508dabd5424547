-- ===== src/Server/Phases.antt =====
-- dhcpkit/ipv6/server/message_handler.py: the phases of handling a request keep what `Server.Answers`
-- says of the bundle, whatever the configured handlers do that keep it.
use mathlib.Core.Option.{some-injective}
use dhcpkit.Prelude.{
  ◌≡◌, refl, sym, ap, subst, true, List, [], ◌∷◌, All, Option, none, some, Bool-cases, inl, inr,
  false,
}
use dhcpkit.Wire.{Bytes}
use dhcpkit.Element.{
  Message, unknown_message, client_server, relay_server, relay_forward, relay_reply,
  ClientServerClass, solicit, advertise, request, confirm, renew, rebind, reply, release, decline,
  reconfigure, information_request, nil,
}
use dhcpkit.Relay.Chain.{IsRequest, IsForward, Relays}
use dhcpkit.Relay.Wrap.{
  replies, IsResponse, reply_to, create_outgoing_relay_messages,
  create_outgoing_relay_messages-replies,
}
use dhcpkit.Bundle.{Bundle, response, set_response}
use dhcpkit.Handler.{◌>>=◌, Handler, run_phase, Outcome}
use dhcpkit.Handler.Ensures.{
  Ensures, Keeps, run_phase-Ensures, All-map, EnsuresOr, EnsuresOr-weaken, EnsuresOr->>=,
}
use dhcpkit.Server.{
  respond_with, choose_response, response_class, is_void, with_chain, chain_for, init_response,
  transaction_of, process,
}
use dhcpkit.Server.Answers.{
  IsAnswer, is_answer, IsMirror, Mirrors, Answers, set_response-Answers, Answers-weaken,
  response-overwrite_first,
}

response_class-is_answer :
    (c d : ClientServerClass) → response_class c ≡ some d → is_answer d ≡ true
response_class-is_answer solicit d e = ap is_answer (sym (some-injective _ _ e))
response_class-is_answer advertise d e = cc
response_class-is_answer request d e = ap is_answer (sym (some-injective _ _ e))
response_class-is_answer confirm d e = ap is_answer (sym (some-injective _ _ e))
response_class-is_answer renew d e = ap is_answer (sym (some-injective _ _ e))
response_class-is_answer rebind d e = ap is_answer (sym (some-injective _ _ e))
response_class-is_answer reply d e = cc
response_class-is_answer release d e = ap is_answer (sym (some-injective _ _ e))
response_class-is_answer decline d e = ap is_answer (sym (some-injective _ _ e))
response_class-is_answer reconfigure d e = cc
response_class-is_answer information_request d e = ap is_answer (sym (some-injective _ _ e))

reply_to-IsMirror : (r m : Message) → IsForward r → IsMirror r (reply_to r m)
reply_to-IsMirror (relay_server relay_forward h l p os) m f = (refl, refl, refl)
reply_to-IsMirror (relay_server relay_reply h l p os) m f = absurd f
reply_to-IsMirror (client_server c i os) m f = absurd f
reply_to-IsMirror (unknown_message t d) m f = absurd f

replies-Mirrors :
    (inner : Message) (rs : List Message) (outer m : Message)
    → Relays inner rs outer
    → Mirrors rs (replies m rs)
replies-Mirrors inner [] outer m h = tt
replies-Mirrors inner (r ∷ rs) outer m (f, e, more) =
    (reply_to-IsMirror r m f, replies-Mirrors r rs outer (reply_to r m) more)

pub IsAnswer-IsResponse :
    (transaction : Bytes) (m : Message) → IsAnswer transaction m → IsResponse m
IsAnswer-IsResponse t (client_server c i os) h = tt
IsAnswer-IsResponse t (relay_server c k l p os) h = absurd h
IsAnswer-IsResponse t (unknown_message n d) h = absurd h

module _ (asked : Message) (incoming : List Message) (outer : Message)
    (is_request : IsRequest asked) (relays : Relays asked incoming outer) where
  pub chain_for-Mirrors :
      (m : Message) → IsResponse m → Mirrors incoming (create_outgoing_relay_messages incoming m)
  chain_for-Mirrors m h =
      subst (Mirrors incoming)
        (sym (create_outgoing_relay_messages-replies asked m incoming outer is_request relays h))
        (replies-Mirrors asked incoming outer m relays)

  with_chain-Answers :
      (m : Message) (b : Bundle)
      → response b.responses ≡ some m
      → IsAnswer (transaction_of asked) m
      → Answers asked incoming true b
      → Ensures (Answers asked incoming true) (with_chain b)
  unfolding with_chain chain_for
  with_chain-Answers m b e a h = record {
    same_request = h.same_request;
    same_relays = h.same_relays;
    answers = h.answers;
    mirrored =
        rw (e, h.same_relays)
          (chain_for-Mirrors m (IsAnswer-IsResponse (transaction_of asked) m a));
    responded = λ _. (m, e);
  }

  respond_with-Answers :
      (c : ClientServerClass) (r : Option ClientServerClass) (b : Bundle)
      → response_class c ≡ r
      → Answers asked incoming false b
      → EnsuresOr
          (Answers asked incoming true)
          (Answers asked incoming false)
          (respond_with r (transaction_of asked) b >>= with_chain)
  unfolding respond_with set_response
  respond_with-Answers c none b e h = (tt, h)
  respond_with-Answers c (some d) b e h =
      let answer = client_server d (transaction_of asked) nil in
      let is = response_class-is_answer c d e in
      EnsuresOr-weaken (Answers asked incoming true) (Answers asked incoming true)
        (Answers asked incoming true) (Answers asked incoming false)
        (with_chain (set_response (some answer) b)) (λ a k. k) Answers-weaken
        (with_chain-Answers answer (set_response (some answer) b)
          (response-overwrite_first answer b.responses) (is, refl)
          (set_response-Answers answer b (is, refl) h))

choose_response-Answers :
    (asked : Message) (incoming : List Message) (outer : Message)
    → IsRequest asked
    → Relays asked incoming outer
    → (b : Bundle) → Answers asked incoming false b
    → EnsuresOr
        (Answers asked incoming true)
        (Answers asked incoming false)
        (choose_response (some asked) b >>= with_chain)
unfolding choose_response
choose_response-Answers (client_server c i os) incoming outer is_request relays b h =
    elim (Bool-cases (is_void c os)) [
      | inl e ↦ rw e (tt, h)
      | inr e ↦ rw e (
          respond_with-Answers (client_server c i os) incoming outer is_request relays c
            (response_class c) b refl h)
    ]
choose_response-Answers (relay_server c k l p os) incoming outer is_request relays b h =
    absurd is_request
choose_response-Answers (unknown_message t d) incoming outer is_request relays b h =
    absurd is_request

init_response-Answers :
    (asked : Message) (incoming : List Message) (outer : Message)
    → IsRequest asked
    → Relays asked incoming outer
    → (b : Bundle) → Answers asked incoming false b
    → EnsuresOr (Answers asked incoming true) (Answers asked incoming false) (init_response b)
unfolding init_response
init_response-Answers asked incoming outer is_request relays b h =
    subst
      (λ o.
        EnsuresOr (Answers asked incoming true) (Answers asked incoming false)
          (choose_response o b >>= with_chain))
      (sym h.same_request) (choose_response-Answers asked incoming outer is_request relays b h)

-- A phase after the response is made.
run_phase-begun :
    (asked : Message) (incoming : List Message) (method : Handler → Bundle → Outcome Bundle)
    (hs : List Handler)
    → All
        (λ h.
          (b : Bundle)
          → Answers asked incoming true b
          → Ensures (Answers asked incoming true) (method h b))
        hs
    → (b : Bundle) → Answers asked incoming true b
    → EnsuresOr (Answers asked incoming true) (Answers asked incoming false) (run_phase method hs b)
run_phase-begun asked incoming method hs ks b h =
    EnsuresOr-weaken (Answers asked incoming true) (Answers asked incoming true)
      (Answers asked incoming true) (Answers asked incoming false) (run_phase method hs b)
      (λ a k. k) Answers-weaken (run_phase-Ensures (Answers asked incoming true) method hs ks b h)

-- The phases between the analyses, for handlers that keep it.
pub process-Answers :
    (asked : Message) (incoming : List Message) (outer : Message)
    → IsRequest asked
    → Relays asked incoming outer
    → (hs : List Handler) → All (Keeps (Answers asked incoming)) hs
    → (b : Bundle) → Answers asked incoming false b
    → EnsuresOr (Answers asked incoming true) (Answers asked incoming false) (process hs b)
unfolding process
process-Answers asked incoming outer is_request relays hs ks b h =
    let before = Answers asked incoming false in
    let begun = Answers asked incoming true in
    let prepared = run_phase-Ensures before (λ x. x.pre) hs (All-map (λ x k. k.in_pre) hs ks) b h in
    let started =
      EnsuresOr->>= before begun before (run_phase (λ x. x.pre) hs b) init_response prepared
        (init_response-Answers asked incoming outer is_request relays) in
    let handled =
      EnsuresOr->>= begun begun before (run_phase (λ x. x.pre) hs b >>= init_response)
        (run_phase (λ x. x.handle) hs) started
        (run_phase-begun asked incoming (λ x. x.handle) hs (All-map (λ x k. k.in_handle) hs ks)) in
    EnsuresOr->>= begun begun before
      (run_phase (λ x. x.pre) hs b >>= init_response >>= run_phase (λ x. x.handle) hs)
      (run_phase (λ x. x.post) hs) handled
      (run_phase-begun asked incoming (λ x. x.post) hs (All-map (λ x k. k.in_post) hs ks))
