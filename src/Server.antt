-- ===== src/Server.antt =====
-- dhcpkit/ipv6/server/message_handler.py: what the server makes of a request.
pub mod Answers
pub mod Mirrors
pub mod Keeping
pub mod Leftover
pub mod Optional
pub mod Phases
pub mod Configured
pub mod Handling
pub mod Sending
pub mod Refusals
pub mod Unicast
use dhcpkit.Prelude.{
  ℕ, Bool, true, false, Option, none, some, List, [], ◌∷◌, ◌++◌, ◌==◌, not, if◌then◌else◌,
}
use dhcpkit.Wire.{Bytes}
use dhcpkit.Utf8.{Text}
use dhcpkit.Duid.{Duid}
use dhcpkit.Leaf
use dhcpkit.Element.{
  DhcpOption, leaf, ia_na_option, ia_ta_option, ia_address_option, ia_pd_option, ia_prefix_option,
  Options, nil, cons, Message, unknown_message, client_server, relay_server, client_server_type,
  relay_type, ClientServerClass, solicit, request, confirm, renew, rebind, release, decline,
  information_request, advertise, reply,
}
use dhcpkit.Element.Access.{get_options_of_type, get_option_of_type, options_of, suboptions}
use dhcpkit.Relay.Wrap.{create_outgoing_relay_messages}
use dhcpkit.Bundle.{Bundle, response, set_response}
use dhcpkit.Handler.{
  HandlerError, Outcome, done, raised, cannot_respond, for_other_server, must_use_multicast,
  reply_with_status, other_exception, ◌>>=◌, Handler, with_request, run_phase, analyse,
}
use dhcpkit.Handler.Status.{text, status, use_multicast, add_missing_status_handler}
use dhcpkit.Handler.Basic.{server_id_handler, client_id_handler, client_id_class}
use dhcpkit.Handler.Chains.{interface_id_handler}
use dhcpkit.Handler.Guards.{rapid_commit_handler, reject_unwanted_unicast_handler}
use dhcpkit.Handler.Unanswered.{unanswered_ia_handler}
use dhcpkit.Filter.{Filters, get_all_handlers, append_handlers}
use dhcpkit.Statistics.{
  StatisticsSet, count_each, count_message_in, count_message_out, count_for_other_server,
  count_do_not_respond, count_use_multicast, count_unknown_query_type, count_malformed_query,
  count_not_allowed, count_other_error,
}

-- MessageHandler, with the handlers that the registered server extensions create.
pub record MessageHandler : Type 0 where
  pub server_id : Duid
  pub sub_filters : Filters
  pub sub_handlers : List Handler
  pub allow_rapid_commit : Bool
  pub rapid_commit_rejections : Bool
  pub extension_setup_handlers : List Handler
  pub extension_cleanup_handlers : List Handler

-- get_setup_handlers
unfoldable pub get_setup_handlers : MessageHandler → List Handler
get_setup_handlers h =
    let mandatory =
      server_id_handler h.server_id
      ∷ client_id_handler
      ∷ interface_id_handler
      ∷ h.extension_setup_handlers in
    if h.allow_rapid_commit
    then rapid_commit_handler h.rapid_commit_rejections ∷ mandatory
    else mandatory

-- get_cleanup_handlers
unfoldable pub get_cleanup_handlers : MessageHandler → List Handler
get_cleanup_handlers h =
    reject_unwanted_unicast_handler ∷ unanswered_ia_handler true ∷ h.extension_cleanup_handlers
    ++ add_missing_status_handler ∷ []

-- get_handlers
unfoldable pub get_handlers : MessageHandler → Bundle → Option (List Handler)
unfolding get_setup_handlers get_cleanup_handlers get_all_handlers
get_handlers h b = append_handlers (some (get_setup_handlers h)) (
    append_handlers (get_all_handlers b h.sub_filters)
      (some (h.sub_handlers ++ get_cleanup_handlers h)))

-- The loop of init_response for a ConfirmMessage: an IA with an address or a prefix.
unfoldable pub has_assignments : Options → Bool
unfolding get_options_of_type
has_assignments nil = false
has_assignments (cons ia ias) =
    elim (get_options_of_type (ia_address_option ∷ ia_prefix_option ∷ []) (suboptions ia)) [
      | nil ↦ has_assignments ias
      | cons o os ↦ true
    ]

-- The class of the response that init_response makes, if it makes one.
abbrev pub response_class : ClientServerClass → Option ClientServerClass
response_class solicit = some advertise
response_class request = some reply
response_class renew = some reply
response_class rebind = some reply
response_class release = some reply
response_class decline = some reply
response_class information_request = some reply
response_class confirm = some reply
response_class _ = none

-- A ConfirmMessage without an assignment to confirm.
unfoldable pub is_void : ClientServerClass → Options → Bool
unfolding has_assignments get_options_of_type
is_void confirm os =
    not (has_assignments (get_options_of_type (ia_na_option ∷ ia_ta_option ∷ ia_pd_option ∷ []) os))
is_void _ os = false

unfoldable pub respond_with : Option ClientServerClass → Bytes → Bundle → Outcome Bundle
unfolding set_response
respond_with none i b = raised cannot_respond b
respond_with (some c) i b = done (set_response (some (client_server c i nil)) b)

unfoldable pub choose_response : Option Message → Bundle → Outcome Bundle
unfolding respond_with is_void
choose_response (some (client_server c i os)) b =
    if is_void c os then raised cannot_respond b else respond_with (response_class c) i b
choose_response _ b = raised cannot_respond b

unfoldable pub chain_for : Option Message → Bundle → List Message
unfolding create_outgoing_relay_messages
chain_for none b = []
chain_for (some r) b = create_outgoing_relay_messages b.incoming_relay_messages r

-- bundle.create_outgoing_relay_messages()
unfoldable pub with_chain : Bundle → Outcome Bundle
unfolding create_outgoing_relay_messages
with_chain b =
    done (record b { outgoing_relay_messages = some (chain_for (response b.responses) b) })

-- init_response; a LeasequeryMessage is not modelled.
unfoldable pub init_response : Bundle → Outcome Bundle
unfolding choose_response with_chain
init_response b = choose_response b.client_request b >>= with_chain

abbrev pub transaction_of : Message → Bytes
transaction_of (client_server c i os) = i
transaction_of _ = []

abbrev pub status_reply : Duid → Bytes → DhcpOption → Option DhcpOption → Option Message
status_reply duid transaction s none = none
status_reply duid transaction s (some client) =
    some (
      client_server reply transaction
        (cons client (cons (leaf (Leaf.server_id duid)) (cons s nil))))

-- construct_plain_status_reply. Without a client identifier in the request the code puts None among
-- the options, and the reply cannot be saved: there is no such message here.
unfoldable pub construct_plain_status_reply : Duid → Message → DhcpOption → Option Message
unfolding get_option_of_type
construct_plain_status_reply duid asked s =
    status_reply duid (transaction_of asked) s
      (get_option_of_type (client_id_class ∷ []) (options_of asked))

abbrev pub multicast_text : Text
multicast_text =
    text
      "You cannot send requests directly to this server, please use the proper multicast addresses"

-- The phases of MessageHandler.handle between the two analyses, which can raise an exception.
unfoldable pub process : List Handler → Bundle → Outcome Bundle
unfolding run_phase init_response
process hs b =
    run_phase (λ h. h.pre) hs b
    >>= init_response
    >>= run_phase (λ h. h.handle) hs
    >>= run_phase (λ h. h.post) hs

-- What MessageHandler.handle works on.
abbrev pub Working : Type 0
Working = Bundle × StatisticsSet

unfoldable pub count_status : ℕ → StatisticsSet → StatisticsSet
unfolding count_each count_unknown_query_type count_malformed_query count_not_allowed
    count_other_error
count_status code s =
    if code == 7
    then count_each count_unknown_query_type s
    else if code == 8
    then count_each count_malformed_query s
    else if code == 10
    then count_each count_not_allowed s
    else count_each count_other_error s

unfoldable pub respond_if : Option Message → Bundle → StatisticsSet → Outcome Working
unfolding set_response
respond_if none b s = raised other_exception (b, s)
respond_if (some m) b s = done (set_response (some m) b, s)

-- The exception branches of MessageHandler.handle.
unfoldable pub recover : Duid → Message → Outcome Bundle → StatisticsSet → Outcome Working
unfolding set_response construct_plain_status_reply count_each count_for_other_server
    count_do_not_respond count_use_multicast
recover duid asked (done b) s = done (b, s)
recover duid asked (raised for_other_server b) s =
    done (set_response none b, count_each count_for_other_server s)
recover duid asked (raised cannot_respond b) s =
    done (set_response none b, count_each count_do_not_respond s)
recover duid asked (raised must_use_multicast b) s =
    if b.received_over_multicast
    then done (set_response none b, count_each count_use_multicast s)
    else respond_if (construct_plain_status_reply duid asked (status use_multicast multicast_text))
        b (count_each count_use_multicast s)
recover duid asked (raised (reply_with_status code message) b) s =
    respond_if (construct_plain_status_reply duid asked (status code message)) b
      (count_status code s)
recover duid asked (raised other_exception b) s = raised other_exception (b, s)

abbrev pub message_type : Message → ℕ
message_type (client_server c i os) = client_server_type c
message_type (relay_server c h l p os) = relay_type c
message_type (unknown_message t d) = t

unfoldable pub count_response : Option Message → StatisticsSet → StatisticsSet
unfolding count_each count_message_out
count_response none s = s
count_response (some r) s = count_each (count_message_out (message_type r)) s

-- The last part of MessageHandler.handle: the analysis afterwards, and the count of the response.
unfoldable pub conclude : List Handler → Working → Outcome Working
unfolding analyse count_each count_message_out
conclude hs (b, s) =
    let analysed = analyse (λ h. h.analyse_post) hs b in
    done (analysed, count_response (response analysed.responses) s)

-- MessageHandler.handle, for a request and the handlers.
unfoldable pub handle_request :
    Duid → Message → List Handler → Bundle → StatisticsSet → Outcome Working
unfolding analyse process recover conclude
handle_request duid asked hs b s =
    recover duid asked (process hs (analyse (λ h. h.analyse_pre) hs b)) s >>= conclude hs

unfoldable pub handle_by :
    Option (List Handler) → Duid → Message → Bundle → StatisticsSet → Outcome Working
unfolding handle_request
handle_by none duid asked b s = raised other_exception (b, s)
handle_by (some hs) duid asked b s = handle_request duid asked hs b s

unfoldable pub handle_some :
    MessageHandler → Option Message → Bundle → StatisticsSet → Outcome Working
unfolding get_handlers handle_by count_each count_message_in
handle_some h none b s = done (b, s)
handle_some h (some asked) b s =
    let allowed = record b { allow_rapid_commit = h.allow_rapid_commit } in
    handle_by (get_handlers h allowed) h.server_id asked allowed
      (count_each (count_message_in (message_type asked)) s)

-- MessageHandler.handle
unfoldable pub handle : MessageHandler → Bundle → StatisticsSet → Outcome Working
unfolding handle_some
handle h b s = handle_some h b.client_request b s
