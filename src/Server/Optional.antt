-- ===== src/Server/Optional.antt =====
-- dhcpkit/ipv6/server/handlers/preference.py, handlers/unicast.py and handlers/ignore.py: the handlers
-- that a configuration can add keep what `Server.Answers` says of the bundle.
use dhcpkit.Prelude.{ℕ, Bool, true, false, List, Option}
use dhcpkit.Address.{Address}
use dhcpkit.Leaf
use dhcpkit.Element.{DhcpOption, leaf, Message, MessageClass, Options}
use dhcpkit.Element.Contains.{class_of_option}
use dhcpkit.Bundle.{Bundle}
use dhcpkit.Handler.{done, raised, cannot_respond}
use dhcpkit.Handler.Ensures.{Ensures, Keeps, if-Ensures, handling-Keeps}
use dhcpkit.Handler.Basic.{
  simple_option, simple_options, leave_alone, preference_handler, server_unicast_handler,
}
use dhcpkit.Handler.Guards.{is_ignored, ignore_request, ignore_request_handler}
use dhcpkit.Server.Answers.{Answers}
use dhcpkit.Server.Keeping.{if_wanted-Answers}

module _ {asked : Message} {incoming : List Message} where
  pub simple_option-Answers :
      (o : DhcpOption) (append always_send : Bool) (combine : Options → Option DhcpOption)
      (b : Bundle)
      → Answers asked incoming true b
      → Ensures (Answers asked incoming true) (simple_option o append always_send combine b)
  unfolding simple_option
  simple_option-Answers o append always_send combine =
      if_wanted-Answers (class_of_option o) always_send (λ m. simple_options o append combine)

  pub preference_handler-Keeps :
      (level : ℕ) → Keeps (Answers asked incoming) (preference_handler level)
  preference_handler-Keeps level =
      handling-Keeps (Answers asked incoming)
        (simple_option (leaf (Leaf.preference level)) false true leave_alone)
        (simple_option-Answers (leaf (Leaf.preference level)) false true leave_alone)

  pub server_unicast_handler-Keeps :
      (address : Address) → Keeps (Answers asked incoming) (server_unicast_handler address)
  server_unicast_handler-Keeps address = record {
    in_analyse_pre = λ b h. h;
    in_pre = λ b h. record {
      same_request = h.same_request;
      same_relays = h.same_relays;
      answers = h.answers;
      mirrored = h.mirrored;
      responded = h.responded;
    };
    in_handle = simple_option-Answers (leaf (Leaf.server_unicast address)) false true leave_alone;
    in_post = λ b h. h;
    in_analyse_post = λ b h. h;
  }

  pub ignore_request_handler-Keeps :
      (types : List MessageClass) → Keeps (Answers asked incoming) (ignore_request_handler types)
  unfolding ignore_request
  ignore_request_handler-Keeps types = record {
    in_analyse_pre = λ b h. h;
    in_pre = λ b h.
        if-Ensures (Answers asked incoming false) (is_ignored types b.client_request)
          (raised cannot_respond b) (done b) (tt, h) h;
    in_handle = λ b h. h;
    in_post = λ b h. h;
    in_analyse_post = λ b h. h;
  }
