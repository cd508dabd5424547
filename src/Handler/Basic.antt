-- ===== src/Handler/Basic.antt =====
-- dhcpkit/ipv6/server/handlers/basic.py, and the handlers that are built from it: those for the
-- server identifier, the client identifier, the preference and the unicast address.
use dhcpkit.Prelude.{
  ℕ, Bool, true, false, Option, none, some, [], ◌∷◌, ◌==◌, any, not, ◌||◌, if◌then◌else◌,
}
use dhcpkit.Address.{Address}
use dhcpkit.Duid.{Duid}
use dhcpkit.Leaf
use dhcpkit.Element.{DhcpOption, leaf, Options, nil, cons, Message, leaf_class, OptionClass}
use dhcpkit.Element.Contains.{class_of_option, number_of_class}
use dhcpkit.Element.Access.{
  holds, Duid-discrete, get_options_of_type, get_option_of_type, without, join, remove, options_of,
  may_contain,
}
use dhcpkit.Bundle.{Bundle}
use dhcpkit.Handler.{
  Outcome, done, raised, for_other_server, Handler, idle, with_request, with_response,
  edit_response,
}

abbrev requests : ℕ → Option DhcpOption → Bool
requests number (some (leaf (Leaf.option_request numbers))) = any (λ n. number == n) numbers
requests number _ = true

-- The check of the option request: it says no only when there is one and the option is not in it.
unfoldable pub wanted : Bool → OptionClass → Message → Bool
unfolding get_option_of_type
wanted always_send c asked =
    always_send
    || requests (number_of_class c)
        (get_option_of_type (leaf_class Leaf.option_request_option ∷ []) (options_of asked))

-- What all three handlers begin with: nothing is done when the option may not be in the response, or
-- when the client has not requested it.
unfoldable pub if_wanted :
    OptionClass → Bool → (Message → Options → Options) → Bundle → Outcome Bundle
unfolding wanted may_contain edit_response
if_wanted c always_send change b = with_response b (λ r.
    if may_contain r c
    then with_request b (λ asked.
      if wanted always_send c asked then done (edit_response (change asked) b) else done b)
    else done b)

-- CopyOptionHandler.handle, for the options of the request and those of the response
unfoldable pub copy_options : OptionClass → Options → Options → Options
unfolding get_options_of_type without join
copy_options c asked os = join (get_options_of_type (c ∷ []) asked) (without c os)

unfoldable pub copy_option : OptionClass → Bool → Bundle → Outcome Bundle
unfolding if_wanted copy_options
copy_option c always_send b =
    if_wanted c always_send (λ asked os. copy_options c (options_of asked) os) b

-- for option in found: options.remove(option)
unfoldable pub remove_all : Options → Options → Options
unfolding remove
remove_all nil os = os
remove_all (cons o found) os = remove_all found (remove o os)

unfoldable pub replace_found :
    DhcpOption → (Options → Option DhcpOption) → Options → Options → Options
unfolding join remove_all
replace_found o combine nil os = join os (cons o nil)
replace_found o combine (cons f found) os = elim (combine (cons f found)) [
  | none ↦ os
  | some combined ↦ join (remove_all (cons f found) os) (cons combined nil)
]

-- SimpleOptionHandler.handle, for the options of the response; `combine` is the method that
-- subclasses override.
unfoldable pub simple_options :
    DhcpOption → Bool → (Options → Option DhcpOption) → Options → Options
unfolding join get_options_of_type remove_all
simple_options o append combine os =
    if append
    then join os (cons o nil)
    else replace_found o combine (get_options_of_type (class_of_option o ∷ []) os) os

unfoldable pub simple_option :
    DhcpOption → Bool → Bool → (Options → Option DhcpOption) → Bundle → Outcome Bundle
unfolding if_wanted simple_options
simple_option o append always_send combine b =
    if_wanted (class_of_option o) always_send (λ asked os. simple_options o append combine os) b

-- SimpleOptionHandler.combine
abbrev pub leave_alone : Options → Option DhcpOption
leave_alone found = none

-- OverwriteOptionHandler.handle, for the options of the response
unfoldable pub overwrite_options : DhcpOption → Options → Options
unfolding without
overwrite_options o os = cons o (without (class_of_option o) os)

unfoldable pub overwrite_option : DhcpOption → Bool → Bundle → Outcome Bundle
unfolding if_wanted overwrite_options
overwrite_option o always_send b =
    if_wanted (class_of_option o) always_send (λ asked os. overwrite_options o os) b

-- The test of ServerIdHandler.pre: a server identifier with another DUID.
abbrev pub is_other_server : Duid → Option DhcpOption → Bool
is_other_server duid (some (leaf (Leaf.server_id d))) = not (holds (Duid-discrete d duid))
is_other_server duid _ = false

abbrev pub server_id_class : OptionClass
server_id_class = leaf_class Leaf.server_id_option

-- ServerIdHandler.pre
unfoldable pub check_server_id : Duid → Bundle → Outcome Bundle
unfolding get_option_of_type
check_server_id duid b = with_request b (λ asked.
    if is_other_server duid (get_option_of_type (server_id_class ∷ []) (options_of asked))
    then raised for_other_server b
    else done b)

-- ServerIdHandler
abbrev pub server_id_handler : Duid → Handler
server_id_handler duid = record idle {
  pre = check_server_id duid;
  handle = overwrite_option (leaf (Leaf.server_id duid)) true;
}

abbrev pub client_id_class : OptionClass
client_id_class = leaf_class Leaf.client_id_option

-- ClientIdHandler
abbrev pub client_id_handler : Handler
client_id_handler = record idle { handle = copy_option client_id_class true }

-- PreferenceOptionHandler
abbrev pub preference_handler : ℕ → Handler
preference_handler level = record idle {
  handle = simple_option (leaf (Leaf.preference level)) false true leave_alone;
}

-- ServerUnicastOptionHandler
abbrev pub server_unicast_handler : Address → Handler
server_unicast_handler address = record idle {
  pre = λ b. done (record b { allow_unicast = true });
  handle = simple_option (leaf (Leaf.server_unicast address)) false true leave_alone;
}
