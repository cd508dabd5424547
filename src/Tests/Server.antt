-- ===== src/Tests/Server.antt =====
-- The theorems on the handlers and on the handling of requests at work.
use dhcpkit.Address.{is_unspecified, is_loopback, is_link_local, number_of, Address}
use dhcpkit.Server.Optional.{preference_handler-Keeps, ignore_request_handler-Keeps}
use dhcpkit.Server.Unicast.{use_multicast_reply, handle-unwanted_unicast}
use dhcpkit.Server.Refusals.{OnlyLooks, allowed, counted_in, handle-other_server}
use dhcpkit.Prelude.{◌≡◌, refl, ◌≢◌, true, false, List, [], ◌∷◌, ◌++◌, All, some, none}
use dhcpkit.Wire.{ok}
use dhcpkit.Duid
use dhcpkit.Leaf
use dhcpkit.Element.{leaf, nil, cons, Message, client_server, request, client_server_class, confirm}
use dhcpkit.Element.Access.{get_options_of_type, get_option_of_type, join, options_of}
use dhcpkit.Bundle.{
  Bundle, started, new_bundle, outgoing_messages, set_response, get_unhandled_options, link_address,
  first_useful,
}
use dhcpkit.Handler.{analyse, run_phase, edit_response, Outcome, done, raised, Handler}
use dhcpkit.Handler.Ensures.{Keeps}
use dhcpkit.Handler.Status.{add_missing_status, close_with}
use dhcpkit.Handler.Basic.{
  server_id_class, client_id_class, is_other_server, check_server_id, overwrite_option, copy_option,
  if_wanted, wanted, preference_handler, simple_option, simple_options, replace_found,
}
use dhcpkit.Handler.Unanswered.{
  answer_ia, answer_ia_pd, for_each, carry_out, answering, unanswered_ia, unanswered_ia_pd,
  unanswered_ia_pd_handler,
}
use dhcpkit.Filter.{
  no_filters, get_all_handlers, filter, and_filter, subnet_match, in_any_network, in_network,
}
use dhcpkit.Statistics.{
  count_each, StatisticsSet, no_statistics, count_for_other_server, count_message_in,
  count_message_out, count_use_multicast,
}
use dhcpkit.Server.{
  MessageHandler, handle, Working, transaction_of, handle_some, handle_by, handle_request,
  get_handlers, get_setup_handlers, get_cleanup_handlers, process, init_response, choose_response,
  is_void, respond_with, with_chain, chain_for, recover, conclude, count_response, message_type,
}
use dhcpkit.Server.Answers.{Answers}
use dhcpkit.Server.Leftover.{unanswered_ia_pd_handler-Keeps}
use dhcpkit.Server.Configured.{Configured}
use dhcpkit.Server.Sending.{Delivers, handle-outgoing_messages}
use dhcpkit.Tests.Data.{client_duid, solicit_message, outer_relay}
use dhcpkit.Relay.{split_relay_chain}
use dhcpkit.Relay.Wrap.{create_outgoing_relay_messages}
use dhcpkit.Element.Access.{may_contain}
use dhcpkit.Handler.Guards.{
  reject_unwanted_unicast, rapid_commit_post, upgrade, upgrade_solicit, asks_rapid_commit,
  is_unwanted, ignore_request, ignore_request_handler,
}
use dhcpkit.Handler.Chains.{
  relay_handle, handle_chain, handle_relays, copy_relay_option, relink_one,
}

abbrev server_duid : Duid.Duid
server_duid = Duid.link_layer 1 (2 ∷ 0 ∷ 0 ∷ 0 ∷ 0 ∷ 1 ∷ [])

-- 2001:db8::
abbrev relay_network : Address
relay_network = 32 ∷ 1 ∷ 13 ∷ 184 ∷ 0 ∷ 0 ∷ 0 ∷ 0 ∷ 0 ∷ 0 ∷ 0 ∷ 0 ∷ 0 ∷ 0 ∷ 0 ∷ 0 ∷ []

-- A server with a preference for the subnet of the relay, that ignores a Confirm, and with the extension
-- for prefix delegation.
abbrev pub server : MessageHandler
server = record {
  server_id = server_duid;
  sub_filters =
      and_filter
        (filter (subnet_match ((relay_network, 64) ∷ [])) no_filters (preference_handler 10 ∷ []))
        no_filters;
  sub_handlers = ignore_request_handler (client_server_class confirm ∷ []) ∷ [];
  allow_rapid_commit = true;
  rapid_commit_rejections = true;
  extension_setup_handlers = [];
  extension_cleanup_handlers = unanswered_ia_pd_handler true ∷ [];
}

abbrev pub bundle : Bundle
bundle = started outer_relay true false false

abbrev statistics : StatisticsSet
statistics = no_statistics ∷ []

abbrev at_end : Outcome Working → Working
at_end (done w) = w
at_end (raised e w) = w

abbrev final : Working
final = at_end (handle server bundle statistics)

handled : handle server bundle statistics ≡ done final
unfolding handle handle_some handle_by handle_request get_handlers get_setup_handlers
    get_cleanup_handlers get_all_handlers split_relay_chain analyse process run_phase init_response
    choose_response is_void respond_with with_chain chain_for set_response recover conclude
    count_response count_each create_outgoing_relay_messages check_server_id reject_unwanted_unicast
    unanswered_ia unanswered_ia_pd get_unhandled_options answer_ia answer_ia_pd for_each carry_out
    answering overwrite_option copy_option if_wanted wanted may_contain relay_handle handle_chain
    handle_relays copy_relay_option relink_one add_missing_status close_with rapid_commit_post
    upgrade upgrade_solicit asks_rapid_commit get_option_of_type get_options_of_type edit_response
    subnet_match in_any_network in_network link_address first_useful is_unspecified is_loopback
    is_link_local number_of simple_option simple_options replace_found ignore_request join
handled = refl

bundle_made : new_bundle outer_relay true false false ≡ ok bundle
unfolding new_bundle
bundle_made = refl

pub bundle_request : bundle.client_request ≡ some solicit_message
unfolding split_relay_chain
bundle_request = refl

server-Configured :
    Configured (Keeps (Answers solicit_message bundle.incoming_relay_messages)) server
server-Configured = record {
  in_filters = ((tt, (preference_handler-Keeps 10, tt)), tt);
  in_sub_handlers = (ignore_request_handler-Keeps (client_server_class confirm ∷ []), tt);
  in_setup = tt;
  in_cleanup = (unanswered_ia_pd_handler-Keeps true, tt);
}

client_named :
    get_option_of_type (client_id_class ∷ []) (options_of solicit_message)
    ≡ some (leaf (Leaf.client_id client_duid))
unfolding get_option_of_type
client_named = refl

filtered :
    get_all_handlers (allowed server bundle) server.sub_filters ≡ some (preference_handler 10 ∷ [])
unfolding get_all_handlers subnet_match in_any_network in_network link_address first_useful
    split_relay_chain is_unspecified is_loopback is_link_local number_of
filtered = refl

none_filtered : (b : Bundle) → get_all_handlers b no_filters ≡ some []
unfolding get_all_handlers
none_filtered b = refl

handle-outgoing_messages_example :
    (c : Bundle) × (t : StatisticsSet) × (handle server bundle statistics ≡ done (c, t))
    × All
        (Delivers (transaction_of solicit_message) bundle.incoming_relay_messages)
        (outgoing_messages c)
handle-outgoing_messages_example =
    handle-outgoing_messages server outer_relay solicit_message (leaf (Leaf.client_id client_duid))
      (preference_handler 10 ∷ []) true false false bundle statistics bundle_made bundle_request
      client_named filtered server-Configured

-- A server without configured handlers.
abbrev plain_server : MessageHandler
plain_server = record server { sub_filters = no_filters; sub_handlers = [] }

-- A Request for another server: the client has the same DUID as that one.
abbrev other_request : Message
other_request =
    client_server request (1 ∷ 2 ∷ 3 ∷ [])
      (cons (leaf (Leaf.client_id client_duid)) (cons (leaf (Leaf.server_id client_duid)) nil))

abbrev other_bundle : Bundle
other_bundle = started other_request true false false

abbrev handlers : List Handler
handlers = get_setup_handlers plain_server ++ get_cleanup_handlers plain_server

all_handlers : (b : Bundle) → get_handlers plain_server b ≡ some handlers
unfolding get_handlers get_all_handlers
all_handlers b = refl

handlers-OnlyLooks : All OnlyLooks handlers
unfolding get_setup_handlers get_cleanup_handlers
handlers-OnlyLooks = (
  (λ b. refl, λ b. refl),
  (
    (λ b. refl, λ b. refl),
    (
      (λ b. refl, λ b. refl),
      (
        (λ b. refl, λ b. refl),
        (
          (λ b. refl, λ b. refl),
          ((λ b. refl, λ b. refl), ((λ b. refl, λ b. refl), ((λ b. refl, λ b. refl), tt))),
        ),
      ),
    ),
  ),
)

other_made : other_bundle.client_request ≡ some other_request
unfolding split_relay_chain
other_made = refl

other_server_id :
    get_option_of_type (server_id_class ∷ []) (options_of other_request)
    ≡ some (leaf (Leaf.server_id client_duid))
unfolding get_option_of_type
other_server_id = refl

client_duid-ne : client_duid ≢ server_duid
client_duid-ne e = cc

handle-other_server_example :
    handle plain_server other_bundle statistics
    ≡ done (
      set_response none (allowed plain_server other_bundle),
      count_each count_for_other_server
          (count_each (count_message_in (message_type other_request)) statistics),
    )
handle-other_server_example =
    handle-other_server plain_server other_request client_duid handlers other_bundle statistics
      other_made other_server_id client_duid-ne (all_handlers (allowed plain_server other_bundle))
      handlers-OnlyLooks

-- A Solicit that was sent by unicast.
abbrev unicast_bundle : Bundle
unicast_bundle = started solicit_message false false false

unicast_made : unicast_bundle.client_request ≡ some solicit_message
unfolding split_relay_chain
unicast_made = refl

unicast_own :
    is_other_server server_duid
      (get_option_of_type (server_id_class ∷ []) (options_of solicit_message))
    ≡ false
unfolding get_option_of_type
unicast_own = refl

unicast_unwanted : is_unwanted unicast_bundle ≡ true
unfolding split_relay_chain
unicast_unwanted = refl

handle-unwanted_unicast_example :
    handle plain_server unicast_bundle statistics
    ≡ done (
      set_response
          (some
            (use_multicast_reply plain_server solicit_message (leaf (Leaf.client_id client_duid))))
          (allowed plain_server unicast_bundle),
      count_each
          (count_message_out 7)
          (count_each count_use_multicast (counted_in solicit_message statistics)),
    )
handle-unwanted_unicast_example =
    handle-unwanted_unicast plain_server solicit_message (leaf (Leaf.client_id client_duid)) []
      unicast_bundle statistics unicast_made client_named unicast_own unicast_unwanted
      (none_filtered (allowed plain_server unicast_bundle)) tt tt tt handlers-OnlyLooks
