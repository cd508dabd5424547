-- ===== src/Handler/Unanswered.antt =====
-- dhcpkit/ipv6/server/handlers/unanswered_ia.py and extensions/prefix_delegation.py: the answers to
-- the IA options of a request that no other handler has answered.
use dhcpkit.Prelude.{ℕ, Bool, List, [], ◌∷◌, if◌then◌else◌}
use dhcpkit.Utf8.{Text}
use dhcpkit.Element.{
  DhcpOption, ia_na, ia_ta, ia_address, ia_pd, ia_prefix, ia_na_option, ia_ta_option,
  ia_address_option, ia_pd_option, ia_prefix_option, Options, nil, cons, Message, client_server,
  solicit, request, confirm, renew, rebind, release, decline, OptionClass,
}
use dhcpkit.Element.Access.{get_options_of_type, join, map_options, suboptions}
use dhcpkit.Bundle.{Bundle, get_unhandled_options}
use dhcpkit.Handler.{
  Outcome, done, raised, cannot_respond, ◌>>=◌, Handler, idle, with_request, with_response,
  edit_response,
}
use dhcpkit.Handler.Status.{
  no_addrs_avail, no_binding, not_on_link, no_prefix_avail, text, status, force_status,
}

-- ia_class(option.iaid, options=...): an option of the same class and with the same IAID.
abbrev pub same_ia : DhcpOption → Options → DhcpOption
same_ia (ia_na i t1 t2 os) answer = ia_na i 0 0 answer
same_ia (ia_ta i os) answer = ia_ta i answer
same_ia (ia_pd i t1 t2 os) answer = ia_pd i 0 0 answer
same_ia o answer = o

-- IAAddressOption(suboption.address, 0, 0) and IAPrefixOption(suboption.prefix, 0, 0)
abbrev pub withdraw : DhcpOption → DhcpOption
withdraw (ia_address a p v os) = ia_address a 0 0 nil
withdraw (ia_prefix a l p v os) = ia_prefix a l 0 0 nil
withdraw o = o

unfoldable pub withdrawn : OptionClass → DhcpOption → DhcpOption
unfolding get_options_of_type map_options
withdrawn c o = same_ia o (map_options withdraw (get_options_of_type (c ∷ []) (suboptions o)))

abbrev pub refused : ℕ → List ℕ → DhcpOption → DhcpOption
refused code message o = same_ia o (cons (status code message) nil)

-- A change of the options of the response, which reads bundle.response.
unfoldable pub answering : (Options → Options) → Bundle → Outcome Bundle
unfolding edit_response
answering change b = with_response b (λ r. done (edit_response change b))

-- What the body of the loop of a handler does about an option.
pub data Answer : Type 0 where
  append_option : DhcpOption → Answer
  force_code : ℕ → Text → Answer
  give_up ignore : Answer

unfoldable pub carry_out : Answer → Bundle → Outcome Bundle
unfolding answering force_status join
carry_out (append_option o) b = answering (λ os. join os (cons o nil)) b
carry_out (force_code c m) b = answering (force_status c m) b
carry_out give_up b = raised cannot_respond b
carry_out ignore b = done b

-- The body of the loop of UnansweredIAOptionHandler.handle, for the request and one of its options.
unfoldable pub answer_ia : Bool → Message → DhcpOption → Answer
unfolding get_options_of_type map_options
answer_ia authoritative (client_server solicit i os) o =
    append_option (refused no_addrs_avail (text "No addresses available") o)
answer_ia authoritative (client_server request i os) o =
    append_option (refused no_addrs_avail (text "No addresses available") o)
answer_ia authoritative (client_server confirm i os) o =
    if authoritative
    then force_code not_on_link (text "Those addresses are not appropriate on this link")
    else give_up
answer_ia authoritative (client_server renew i os) o =
    if authoritative
    then append_option (withdrawn ia_address_option o)
    else append_option (refused no_binding (text "No addresses assigned to you") o)
answer_ia authoritative (client_server rebind i os) o =
    if authoritative then append_option (withdrawn ia_address_option o) else give_up
answer_ia authoritative (client_server decline i os) o =
    append_option (refused no_binding (text "No addresses assigned to you") o)
answer_ia authoritative (client_server release i os) o =
    append_option (refused no_binding (text "No addresses assigned to you") o)
answer_ia authoritative _ o = ignore

-- The same of UnansweredIAPDOptionHandler.handle.
unfoldable pub answer_ia_pd : Bool → Message → DhcpOption → Answer
unfolding get_options_of_type map_options
answer_ia_pd authoritative (client_server solicit i os) o =
    append_option (refused no_prefix_avail (text "No prefixes available") o)
answer_ia_pd authoritative (client_server request i os) o =
    append_option (refused no_prefix_avail (text "No prefixes available") o)
answer_ia_pd authoritative (client_server renew i os) o =
    append_option (refused no_binding (text "No prefixes assigned to you") o)
answer_ia_pd authoritative (client_server rebind i os) o =
    if authoritative then append_option (withdrawn ia_prefix_option o) else give_up
answer_ia_pd authoritative (client_server release i os) o =
    append_option (refused no_binding (text "No prefixes assigned to you") o)
answer_ia_pd authoritative _ o = ignore

-- for option in ...
unfoldable pub for_each : (DhcpOption → Answer) → Options → Bundle → Outcome Bundle
unfolding answering force_status join
for_each answer nil b = done b
for_each answer (cons o os) b = carry_out (answer o) b >>= for_each answer os

-- UnansweredIAOptionHandler.handle
unfoldable pub unanswered_ia : Bool → Bundle → Outcome Bundle
unfolding get_unhandled_options answer_ia for_each
unanswered_ia authoritative b = with_request b (λ asked.
    for_each (answer_ia authoritative asked)
      (get_unhandled_options (ia_na_option ∷ ia_ta_option ∷ []) asked b) b)

abbrev pub unanswered_ia_handler : Bool → Handler
unanswered_ia_handler authoritative = record idle { handle = unanswered_ia authoritative }

-- UnansweredIAPDOptionHandler.handle
unfoldable pub unanswered_ia_pd : Bool → Bundle → Outcome Bundle
unfolding get_unhandled_options answer_ia_pd for_each
unanswered_ia_pd authoritative b = with_request b (λ asked.
    for_each (answer_ia_pd authoritative asked) (get_unhandled_options (ia_pd_option ∷ []) asked b)
      b)

abbrev pub unanswered_ia_pd_handler : Bool → Handler
unanswered_ia_pd_handler authoritative = record idle { handle = unanswered_ia_pd authoritative }
