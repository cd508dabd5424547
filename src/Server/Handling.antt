-- ===== src/Server/Handling.antt =====
-- dhcpkit/ipv6/server/message_handler.py: whatever the configured handlers are, as long as they keep
-- what `Server.Answers` says, the whole of MessageHandler.handle keeps it.
use dhcpkit.Filter.{get_all_handlers, append_handlers}
use dhcpkit.Server.Refusals.{allowed, counted_in}
use mathlib.Core.Option.{some-injective}
use dhcpkit.Wire.{Bytes}
use dhcpkit.Prelude.{
  ◌≡◌, refl, sym, subst, List, [], ◌∷◌, All, Option, none, some, ap, ◌∙◌, ◌++◌, Bool-cases, inl,
  inr, true, false,
}
use dhcpkit.Leaf
use dhcpkit.Duid.{Duid}
use dhcpkit.Element.{DhcpOption, Message, leaf, cons, nil, client_server, reply}
use dhcpkit.Element.Access.{get_option_of_type, options_of}
use dhcpkit.Relay.Chain.{IsRequest, Relays}
use dhcpkit.Bundle.{Bundle, set_response}
use dhcpkit.Handler.{
  Outcome, done, raised, cannot_respond, for_other_server, must_use_multicast, reply_with_status,
  other_exception, Handler, analyse, ◌>>=◌,
}
use dhcpkit.Handler.Status.{status, use_multicast}
use dhcpkit.Handler.Ensures.{Keeps, analyse-keeps, All-map, EnsuresOr}
use dhcpkit.Handler.Basic.{client_id_class}
use dhcpkit.Statistics.{StatisticsSet, count_each, count_use_multicast}
use dhcpkit.Server.{
  MessageHandler, get_handlers, transaction_of, process, status_reply, construct_plain_status_reply,
  respond_if, recover, conclude, handle_request, handle_by, handle_some, handle, Working,
  multicast_text, count_status, get_setup_handlers, get_cleanup_handlers,
}
use dhcpkit.Server.Answers.{
  Answers, IsAnswer, Mirrored, set_response-Answers, no_response-Answers, Answers-weaken,
}
use dhcpkit.Server.Phases.{process-Answers}
use dhcpkit.Server.Configured.{AllSome, Configured, get_handlers-Keeps}

status_reply-IsAnswer :
    (duid : Duid) (transaction : Bytes) (s : DhcpOption) (client : Option DhcpOption) (m : Message)
    → status_reply duid transaction s client ≡ some m
    → IsAnswer transaction m
status_reply-IsAnswer duid t s none m e = cc
status_reply-IsAnswer duid t s (some client) m e =
    subst (IsAnswer t) (some-injective _ _ e) (refl, refl)

construct_plain_status_reply-IsAnswer :
    (duid : Duid) (asked : Message) (s : DhcpOption) (m : Message)
    → construct_plain_status_reply duid asked s ≡ some m
    → IsAnswer (transaction_of asked) m
unfolding construct_plain_status_reply
construct_plain_status_reply-IsAnswer duid asked s =
    status_reply-IsAnswer duid (transaction_of asked) s
      (get_option_of_type (client_id_class ∷ []) (options_of asked))

-- Handling ends, with what holds of the bundle.
abbrev pub Completes : Message → List Message → Outcome Working → Type 0
Completes asked incoming o =
    (c : Bundle) × (t : StatisticsSet) × (o ≡ done (c, t)) × Answers asked incoming false c

module _ (asked : Message) (incoming : List Message) (client : DhcpOption)
    (named : get_option_of_type (client_id_class ∷ []) (options_of asked) ≡ some client) where
  -- A status reply can be made, since the request has a client identifier.
  respond_if-Completes :
      (duid : Duid) (option : DhcpOption) (b : Bundle) (s : StatisticsSet)
      → Answers asked incoming false b
      → Completes asked incoming (respond_if (construct_plain_status_reply duid asked option) b s)
  unfolding respond_if construct_plain_status_reply
  respond_if-Completes duid option b s h =
      let answer =
        client_server reply (transaction_of asked)
          (cons client (cons (leaf (Leaf.server_id duid)) (cons option nil))) in
      (
        set_response (some answer) b,
        s,
        ap (λ o. respond_if (status_reply duid (transaction_of asked) option o) b s) named,
        Answers-weaken (set_response (some answer) b)
            (set_response-Answers answer b (refl, refl) h),
      )

  recover-Completes :
      (duid : Duid) (o : Outcome Bundle) (s : StatisticsSet)
      → EnsuresOr (Answers asked incoming true) (Answers asked incoming false) o
      → Completes asked incoming (recover duid asked o s)
  unfolding recover
  recover-Completes duid (done b) s h = (b, s, refl, Answers-weaken b h)
  recover-Completes duid (raised for_other_server b) s (_, h) =
      (set_response none b, _, refl, no_response-Answers b h)
  recover-Completes duid (raised cannot_respond b) s (_, h) =
      (set_response none b, _, refl, no_response-Answers b h)
  recover-Completes duid (raised must_use_multicast b) s (_, h) =
      elim (Bool-cases b.received_over_multicast) [
        | inl e ↦
            (set_response none b, count_each count_use_multicast s, simp e, no_response-Answers b h)
        | inr e ↦
            let (c, t, same, k) =
              respond_if-Completes duid (status use_multicast multicast_text) b
                (count_each count_use_multicast s) h in
            (c, t, simp e same, k)
      ]
  recover-Completes duid (raised (reply_with_status code message) b) s (_, h) =
      respond_if-Completes duid (status code message) b (count_status code s) h
  recover-Completes duid (raised other_exception b) s (n, h) = absurd n

  conclude-Completes :
      (hs : List Handler) (o : Outcome Working)
      → All (Keeps (Answers asked incoming)) hs
      → Completes asked incoming o
      → Completes asked incoming (o >>= conclude hs)
  unfolding conclude
  conclude-Completes hs o ks (c, t, same, h) = (
    analyse (λ x. x.analyse_post) hs c,
    _,
    ap (λ x. x >>= conclude hs) same,
    analyse-keeps (Answers asked incoming false) (λ x. x.analyse_post) hs
        (All-map (λ x k. k.in_analyse_post) hs ks) c h,
  )

  handle_by-Completes :
      (hs : List Handler) (duid : Duid) (outer : Message) (b : Bundle) (s : StatisticsSet)
      → IsRequest asked
      → Relays asked incoming outer
      → All (Keeps (Answers asked incoming)) hs
      → Answers asked incoming false b
      → Completes asked incoming (handle_by (some hs) duid asked b s)
  unfolding handle_by handle_request
  handle_by-Completes hs duid outer b s is_request relays ks h =
      let seen = analyse (λ x. x.analyse_pre) hs b in
      let analysed =
        analyse-keeps (Answers asked incoming false) (λ x. x.analyse_pre) hs
          (All-map (λ x k. k.in_analyse_pre) hs ks) b h in
      conclude-Completes hs (recover duid asked (process hs seen) s) ks (
        recover-Completes duid (process hs seen) s
          (process-Answers asked incoming outer is_request relays hs ks seen analysed))

-- Handling ends for a request with a client identifier, when the filters match without an exception.
pub handle-Completes :
    (h : MessageHandler) (asked outer : Message) (client : DhcpOption) (found : List Handler)
    (b : Bundle) (s : StatisticsSet)
    → IsRequest asked
    → Relays asked b.incoming_relay_messages outer
    → get_option_of_type (client_id_class ∷ []) (options_of asked) ≡ some client
    → b.client_request ≡ some asked
    → b.responses ≡ []
    → b.outgoing_relay_messages ≡ none
    → get_all_handlers (allowed h b) h.sub_filters ≡ some found
    → Configured (Keeps (Answers asked b.incoming_relay_messages)) h
    → Completes asked b.incoming_relay_messages (handle h b s)
unfolding handle handle_some get_handlers
handle-Completes h asked outer client found b s is_request relays named e none_yet no_chain g c =
    let incoming = b.incoming_relay_messages in
    let hs = get_setup_handlers h ++ (found ++ (h.sub_handlers ++ get_cleanup_handlers h)) in
    let all_handlers : get_handlers h (allowed h b) ≡ some hs =
      ap
        (λ o.
          append_handlers (some (get_setup_handlers h))
            (append_handlers o (some (h.sub_handlers ++ get_cleanup_handlers h))))
        g in
    let keep : All (Keeps (Answers asked incoming)) hs =
      subst (AllSome (Keeps (Answers asked incoming))) all_handlers
        (get_handlers-Keeps asked incoming h (allowed h b) c) in
    let starting : Answers asked incoming false (allowed h b) = record {
      same_request = e;
      same_relays = refl;
      answers = subst (All (IsAnswer (transaction_of asked))) (sym none_yet) tt;
      mirrored = subst (Mirrored incoming) (sym no_chain) tt;
      responded = λ n. cc;
    } in
    let (d, t, same, k) =
      handle_by-Completes asked incoming client named hs h.server_id outer (allowed h b)
        (counted_in asked s) is_request relays keep starting in
    (
      d,
      t,
      ap (λ o. handle_some h o b s) e
          ∙ ap (λ o. handle_by o h.server_id asked (allowed h b) (counted_in asked s)) all_handlers
          ∙ same,
      k,
    )
