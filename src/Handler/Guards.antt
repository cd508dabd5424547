-- ===== src/Handler/Guards.antt =====
-- dhcpkit/ipv6/server/handlers/unicast.py, handlers/ignore.py and handlers/rapid_commit.py: handlers
-- that refuse a request or change the kind of response.
use dhcpkit.Prelude.{
  ℕ, Bool, true, false, Option, none, some, List, [], ◌∷◌, length, ltb, any, not, ◌&&◌, ◌||◌, ◌==◌,
  if◌then◌else◌,
}
use dhcpkit.Leaf
use dhcpkit.Element.{
  DhcpOption, leaf, ia_na_option, ia_ta_option, ia_pd_option, Options, nil, cons, Message,
  unknown_message, client_server, relay_server, solicit, advertise, reply, leaf_class, OptionClass,
  MessageClass, unknown_class, client_server_class, relay_class, client_server_type, relay_type,
}
use dhcpkit.Element.Access.{has_class, get_option_of_type, suboptions}
use dhcpkit.Bundle.{Bundle, response, set_response, get_unhandled_options}
use dhcpkit.Handler.{Outcome, done, raised, cannot_respond, must_use_multicast, Handler, idle}
use dhcpkit.Handler.Status.{status_class, no_addrs_avail, no_prefix_avail}

-- The test of RejectUnwantedUnicastHandler.pre
abbrev pub is_unwanted : Bundle → Bool
is_unwanted b =
    not b.allow_unicast
    && (not b.received_over_multicast && ltb (length b.incoming_relay_messages) 2)

-- RejectUnwantedUnicastHandler
unfoldable pub reject_unwanted_unicast : Bundle → Outcome Bundle
reject_unwanted_unicast b = if is_unwanted b then raised must_use_multicast b else done b

abbrev pub reject_unwanted_unicast_handler : Handler
reject_unwanted_unicast_handler = record idle { pre = reject_unwanted_unicast }

-- isinstance(message, message_class), for the classes without subclasses
abbrev pub is_message : Message → MessageClass → Bool
is_message (client_server c i os) (client_server_class d) =
    client_server_type c == client_server_type d
is_message (relay_server c h l p os) (relay_class d) = relay_type c == relay_type d
is_message (unknown_message t d) unknown_class = true
is_message _ _ = false

abbrev pub is_ignored : List MessageClass → Option Message → Bool
is_ignored [] asked = true
is_ignored (c ∷ cs) none = false
is_ignored (c ∷ cs) (some m) = any (is_message m) (c ∷ cs)

-- IgnoreRequestHandler
unfoldable pub ignore_request : List MessageClass → Bundle → Outcome Bundle
ignore_request types b =
    if is_ignored types b.client_request then raised cannot_respond b else done b

abbrev pub ignore_request_handler : List MessageClass → Handler
ignore_request_handler types = record idle { pre = ignore_request types }

abbrev has_code : ℕ → Option DhcpOption → Bool
has_code code (some (leaf (Leaf.status_code c m))) = c == code
has_code code _ = false

-- One of the options of the classes has, as its first status, the given one.
unfoldable pub is_refused : List OptionClass → ℕ → Options → Bool
unfolding get_option_of_type
is_refused classes code nil = false
is_refused classes code (cons o os) =
    (has_class classes o && has_code code (get_option_of_type (status_class ∷ []) (suboptions o)))
    || is_refused classes code os

abbrev pub rapid_commit_class : OptionClass
rapid_commit_class = leaf_class Leaf.rapid_commit_option

abbrev is_empty : Options → Bool
is_empty nil = true
is_empty (cons o os) = false

-- Whether the check for rejections of RapidCommitHandler.post lets the reply pass.
unfoldable pub is_granted : Message → Options → Bundle → Bool
unfolding get_unhandled_options is_refused
is_granted asked answered b =
    is_empty (get_unhandled_options (ia_na_option ∷ ia_ta_option ∷ ia_pd_option ∷ []) asked b)
    && (not (is_refused (ia_na_option ∷ ia_ta_option ∷ []) no_addrs_avail answered)
        && not (is_refused (ia_pd_option ∷ []) no_prefix_avail answered))

unfoldable pub asks_rapid_commit : Message → Bool
unfolding get_option_of_type
asks_rapid_commit (client_server solicit i os) =
    elim (get_option_of_type (rapid_commit_class ∷ []) os) [ none ↦ false | some _ ↦ true ]
asks_rapid_commit _ = false

unfoldable pub upgrade : Bool → Message → Option Message → Bundle → Bundle
unfolding set_response is_granted
upgrade rejections asked (some (client_server advertise i os)) b =
    if rejections || is_granted asked os b
    then set_response (some (client_server reply i (cons (leaf Leaf.rapid_commit) os))) b
    else b
upgrade rejections asked _ b = b

unfoldable pub upgrade_solicit : Bool → Option Message → Bundle → Bundle
unfolding get_option_of_type set_response is_granted
upgrade_solicit rejections none b = b
upgrade_solicit rejections (some asked) b =
    if asks_rapid_commit asked then upgrade rejections asked (response b.responses) b else b

-- RapidCommitHandler.post
unfoldable pub rapid_commit_post : Bool → Bundle → Bundle
unfolding get_option_of_type set_response is_granted
rapid_commit_post rejections b =
    if b.allow_rapid_commit then upgrade_solicit rejections b.client_request b else b

abbrev pub rapid_commit_handler : Bool → Handler
rapid_commit_handler rejections = record idle { post = λ b. done (rapid_commit_post rejections b) }
