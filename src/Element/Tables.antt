-- ===== src/Element/Tables.antt =====
-- dhcpkit/ipv6/options.py and the files of dhcpkit/ipv6/extensions: the tables that `add_may_contain` makes at their ends.
use dhcpkit.Prelude.{ℕ, List, [], ◌∷◌, ◌++◌}
use dhcpkit.Extension
use dhcpkit.Leaf
use dhcpkit.Leaf.{class_of, type_of_class}
use dhcpkit.Element.{
  OptionClass, leaf_class, extension_class, ia_na_option, ia_ta_option, ia_address_option,
  ia_pd_option, ia_prefix_option, relay_message_option, ClientServerClass, solicit, advertise,
  request, confirm, renew, rebind, reply, release, decline, reconfigure, information_request,
  RelayClass, relay_forward, relay_reply,
}
use dhcpkit.Element.Contains.{infinite, Occurrence}

abbrev between : ℕ → ℕ → OptionClass → Occurrence
between least greatest c = record {
  element_class = c;
  min_occurrence = least;
  max_occurrence = greatest;
}

abbrev many : OptionClass → Occurrence
many = between 0 infinite

abbrev at_most_one : OptionClass → Occurrence
at_most_one = between 0 1

abbrev exactly_one : OptionClass → Occurrence
exactly_one = between 1 1

-- Option.add_may_contain
abbrev pub in_any_option : List Occurrence
in_any_option = many (leaf_class Leaf.unknown_option) ∷ []

-- Message.add_may_contain
abbrev pub in_any_message : List Occurrence
in_any_message =
    many (leaf_class Leaf.unknown_option) ∷ at_most_one (leaf_class Leaf.authentication_option) ∷ []

abbrev pub status_code_class : OptionClass
status_code_class = leaf_class Leaf.status_code_option

-- The tables of the options, with what they inherit.
abbrev pub in_option : OptionClass → List Occurrence
in_option ia_na_option = many ia_address_option ∷ many status_code_class ∷ in_any_option
in_option ia_ta_option = many ia_address_option ∷ many status_code_class ∷ in_any_option
in_option ia_address_option = many status_code_class ∷ in_any_option
in_option ia_pd_option =
    many ia_prefix_option
    ∷ at_most_one status_code_class
    ∷ at_most_one (extension_class Extension.pd_exclude_option)
    ∷ in_any_option
in_option ia_prefix_option = at_most_one status_code_class ∷ in_any_option
in_option _ = in_any_option

abbrev in_classes : List Occurrence
in_classes =
    many (leaf_class Leaf.user_class_option)
    ∷ many (leaf_class Leaf.vendor_class_option)
    ∷ many (leaf_class Leaf.vendor_specific_information_option)
    ∷ []

abbrev in_query : List Occurrence
in_query =
    at_most_one (leaf_class Leaf.option_request_option)
    ∷ exactly_one (leaf_class Leaf.elapsed_time_option)
    ∷ in_classes

abbrev in_ias : List Occurrence
in_ias = many ia_na_option ∷ many ia_ta_option ∷ []

abbrev client_option : OptionClass
client_option = leaf_class Leaf.client_id_option

abbrev server_option : OptionClass
server_option = leaf_class Leaf.server_id_option

abbrev accepts : List Occurrence
accepts = at_most_one (leaf_class Leaf.reconfigure_accept_option) ∷ []

abbrev delegates : List Occurrence
delegates = many ia_pd_option ∷ []

-- SIPServersAddressListOption, RecursiveNameServersOption and SNTPServersOption.
abbrev serves : List Occurrence
serves =
    many (extension_class Extension.sip_servers_option)
    ∷ many (extension_class Extension.dns_servers_option)
    ∷ many (extension_class Extension.sntp_servers_option)
    ∷ []

abbrev limits_retries : List Occurrence
limits_retries =
    at_most_one (extension_class Extension.sol_max_rt_option)
    ∷ at_most_one (extension_class Extension.inf_max_rt_option)
    ∷ []

-- The tables of the messages of clients and servers, without what they inherit.
abbrev pub in_client_server : ClientServerClass → List Occurrence
in_client_server solicit =
    exactly_one client_option
    ∷ at_most_one (leaf_class Leaf.rapid_commit_option)
    ∷ (in_ias ++ (in_query ++ (accepts ++ (delegates ++ serves))))
in_client_server advertise =
    exactly_one client_option
    ∷ exactly_one server_option
    ∷ at_most_one (leaf_class Leaf.preference_option)
    ∷ at_most_one status_code_class
    ∷ (in_ias ++ (in_classes ++ (accepts ++ (delegates ++ (serves ++ limits_retries)))))
in_client_server request =
    exactly_one client_option
    ∷ exactly_one server_option
    ∷ (in_ias ++ (in_query ++ (accepts ++ (delegates ++ serves))))
in_client_server confirm = exactly_one client_option ∷ (in_ias ++ (in_query ++ delegates))
in_client_server renew =
    exactly_one client_option
    ∷ exactly_one server_option
    ∷ (in_ias ++ (in_query ++ (accepts ++ (delegates ++ serves))))
in_client_server rebind =
    exactly_one client_option ∷ (in_ias ++ (in_query ++ (accepts ++ (delegates ++ serves))))
in_client_server release =
    exactly_one client_option ∷ exactly_one server_option ∷ (in_ias ++ (in_query ++ delegates))
in_client_server decline =
    exactly_one client_option ∷ exactly_one server_option ∷ (in_ias ++ in_query)
in_client_server reply =
    at_most_one client_option
    ∷ exactly_one server_option
    ∷ at_most_one (leaf_class Leaf.preference_option)
    ∷ at_most_one (leaf_class Leaf.server_unicast_option)
    ∷ at_most_one status_code_class
    ∷ at_most_one (leaf_class Leaf.rapid_commit_option)
    ∷ (in_ias ++ (in_classes ++ (accepts ++ (delegates ++ (serves ++ limits_retries)))))
in_client_server reconfigure =
    exactly_one client_option
    ∷ exactly_one server_option
    ∷ at_most_one (leaf_class Leaf.option_request_option)
    ∷ exactly_one (leaf_class Leaf.reconfigure_message_option)
    ∷ []
in_client_server information_request =
    exactly_one client_option
    ∷ at_most_one (leaf_class Leaf.server_unicast_option)
    ∷ (in_query ++ (accepts ++ serves))

abbrev identifies : List Occurrence
identifies =
    many (extension_class Extension.remote_id_option)
    ∷ many (extension_class Extension.subscriber_id_option)
    ∷ at_most_one (extension_class Extension.link_layer_id_option)
    ∷ []

abbrev pub in_relay : RelayClass → List Occurrence
in_relay relay_forward =
    at_most_one relay_message_option
    ∷ at_most_one (leaf_class Leaf.interface_id_option)
    ∷ identifies
in_relay relay_reply =
    exactly_one relay_message_option
    ∷ at_most_one (leaf_class Leaf.interface_id_option)
    ∷ identifies
