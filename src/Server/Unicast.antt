-- ===== src/Server/Unicast.antt =====
-- dhcpkit/ipv6/server/message_handler.py: a request that came by unicast to a server that does not
-- accept that is answered with the status UseMulticast.
use dhcpkit.Prelude.{
  not-true, ◌≡◌, refl, ap, ◌∙◌, not, true, false, List, [], ◌∷◌, ◌++◌, All, some, Bool-cases, inl,
  inr, if◌then◌else◌, and_inv,
}
use dhcpkit.Leaf
use dhcpkit.Element.{DhcpOption, leaf, Message, client_server, reply, nil, cons}
use dhcpkit.Element.Access.{get_option_of_type, options_of}
use dhcpkit.Bundle.{Bundle, set_response}
use dhcpkit.Handler.{
  done, raised, for_other_server, must_use_multicast, ◌>>=◌, Handler, run_phase, with_message,
}
use dhcpkit.Handler.Status.{status, use_multicast}
use dhcpkit.Handler.Basic.{check_server_id, is_other_server, server_id_class, client_id_class}
use dhcpkit.Handler.Guards.{reject_unwanted_unicast, is_unwanted}
use dhcpkit.Filter.{get_all_handlers, append_handlers}
use dhcpkit.Statistics.{StatisticsSet, count_each, count_use_multicast, count_message_out}
use dhcpkit.Server.{
  MessageHandler, get_setup_handlers, get_cleanup_handlers, get_handlers, transaction_of, recover,
  conclude, handle, multicast_text, construct_plain_status_reply, respond_if, count_response,
}
use dhcpkit.Server.Answers.{response-overwrite_first}
use dhcpkit.Server.Refusals.{
  OnlyLooks, allowed, counted_in, handle-raised, run_phase-quiet, conclude-OnlyLooks,
}

-- The request has no identifier of another server.
check_server_id-own :
    (h : MessageHandler) (asked : Message) (b : Bundle)
    → b.client_request ≡ some asked
    → is_other_server h.server_id (get_option_of_type (server_id_class ∷ []) (options_of asked))
      ≡ false
    → check_server_id h.server_id b ≡ done b
unfolding check_server_id
check_server_id-own h asked b e f =
    ap
      (λ o. with_message o b (λ a.
        if is_other_server h.server_id (get_option_of_type (server_id_class ∷ []) (options_of a))
        then raised for_other_server b
        else done b))
      e
    ∙ rw f refl

-- Every pre of the handlers before the check of the unicast does nothing.
setup-quiet :
    (h : MessageHandler) (more : List Handler) (b : Bundle)
    → check_server_id h.server_id b ≡ done b
    → run_phase (λ x. x.pre) (get_setup_handlers h ++ more) b
      ≡ run_phase (λ x. x.pre) (h.extension_setup_handlers ++ more) b
unfolding run_phase get_setup_handlers
setup-quiet h more b e = elim (Bool-cases h.allow_rapid_commit) [
  | inl a ↦ simp (a, e)
  | inr a ↦ simp (a, e)
]

cleanup-raised :
    (h : MessageHandler) (b : Bundle)
    → is_unwanted b ≡ true
    → run_phase (λ x. x.pre) (get_cleanup_handlers h) b ≡ raised must_use_multicast b
unfolding run_phase get_cleanup_handlers reject_unwanted_unicast
cleanup-raised h b e = rw e refl

pre-unicast :
    (h : MessageHandler) (asked : Message) (found : List Handler) (b : Bundle)
    → b.client_request ≡ some asked
    → is_other_server h.server_id (get_option_of_type (server_id_class ∷ []) (options_of asked))
      ≡ false
    → is_unwanted b ≡ true
    → All (λ x. x.pre b ≡ done b) h.extension_setup_handlers
    → All (λ x. x.pre b ≡ done b) found
    → All (λ x. x.pre b ≡ done b) h.sub_handlers
    → run_phase
        (λ x. x.pre)
        (get_setup_handlers h ++ (found ++ (h.sub_handlers ++ get_cleanup_handlers h)))
        b
      ≡ raised must_use_multicast b
pre-unicast h asked found b r own unwanted q1 q2 q3 =
    let more = h.sub_handlers ++ get_cleanup_handlers h in
    setup-quiet h (found ++ more) b (check_server_id-own h asked b r own)
    ∙ run_phase-quiet h.extension_setup_handlers (found ++ more) b q1
    ∙ run_phase-quiet found more b q2
    ∙ run_phase-quiet h.sub_handlers (get_cleanup_handlers h) b q3
    ∙ cleanup-raised h b unwanted

unwanted-not-multicast : (b : Bundle) → is_unwanted b ≡ true → b.received_over_multicast ≡ false
unwanted-not-multicast b e =
    let (_, more) = and_inv (not b.allow_unicast) _ e in
    let (f, _) = and_inv (not b.received_over_multicast) _ more in
    not-true b.received_over_multicast f

-- The reply that tells the client to use multicast.
abbrev pub use_multicast_reply : MessageHandler → Message → DhcpOption → Message
use_multicast_reply h asked client = client_server reply (transaction_of asked) (
    cons client
      (cons (leaf (Leaf.server_id h.server_id)) (cons (status use_multicast multicast_text) nil)))

recover-unicast :
    (h : MessageHandler) (asked : Message) (client : DhcpOption) (b : Bundle) (s : StatisticsSet)
    → b.received_over_multicast ≡ false
    → get_option_of_type (client_id_class ∷ []) (options_of asked) ≡ some client
    → recover h.server_id asked (raised must_use_multicast b) s
      ≡ done (
        set_response (some (use_multicast_reply h asked client)) b,
        count_each count_use_multicast s,
      )
unfolding recover construct_plain_status_reply respond_if
recover-unicast h asked client b s e f = simp (e, f)

-- A request with a client identifier and without the identifier of another server, that was
-- received by unicast through less than two relay messages where unicast is not allowed, given to
-- handlers whose analyses do not change the bundle and of which the configured ones do nothing
-- before the response is made: the response that handle returns is a Reply with the transaction
-- identifier, the client identifier, the server identifier and the status UseMulticast, and it
-- counts one message of each kind: incoming, use multicast, and outgoing Reply.
pub handle-unwanted_unicast :
    (h : MessageHandler) (asked : Message) (client : DhcpOption) (found : List Handler) (b : Bundle)
    (s : StatisticsSet)
    → b.client_request ≡ some asked
    → get_option_of_type (client_id_class ∷ []) (options_of asked) ≡ some client
    → is_other_server h.server_id (get_option_of_type (server_id_class ∷ []) (options_of asked))
      ≡ false
    → is_unwanted b ≡ true
    → get_all_handlers (allowed h b) h.sub_filters ≡ some found
    → All (λ x. x.pre (allowed h b) ≡ done (allowed h b)) h.extension_setup_handlers
    → All (λ x. x.pre (allowed h b) ≡ done (allowed h b)) found
    → All (λ x. x.pre (allowed h b) ≡ done (allowed h b)) h.sub_handlers
    → All OnlyLooks (get_setup_handlers h ++ (found ++ (h.sub_handlers ++ get_cleanup_handlers h)))
    → handle h b s
      ≡ done (
        set_response (some (use_multicast_reply h asked client)) (allowed h b),
        count_each (count_message_out 7) (count_each count_use_multicast (counted_in asked s)),
      )
unfolding get_handlers set_response count_response
handle-unwanted_unicast h asked client found b s r f own unwanted g q1 q2 q3 k =
    let hs = get_setup_handlers h ++ (found ++ (h.sub_handlers ++ get_cleanup_handlers h)) in
    let answer = use_multicast_reply h asked client in
    let all_handlers : get_handlers h (allowed h b) ≡ some hs =
      ap
        (λ o.
          append_handlers (some (get_setup_handlers h))
            (append_handlers o (some (h.sub_handlers ++ get_cleanup_handlers h))))
        g in
    let counted = count_each count_use_multicast (counted_in asked s) in
    handle-raised h asked hs b (allowed h b) s must_use_multicast r all_handlers k
      (pre-unicast h asked found (allowed h b) r own unwanted q1 q2 q3)
    ∙ ap (λ o. o >>= conclude hs)
        (recover-unicast h asked client (allowed h b) (counted_in asked s)
          (unwanted-not-multicast b unwanted) f)
    ∙ conclude-OnlyLooks hs (set_response (some answer) (allowed h b)) counted k
    ∙ ap (λ o. done (set_response (some answer) (allowed h b), count_response o counted))
        (response-overwrite_first answer b.responses)
