-- ===== src/Server/Leftover.antt =====
-- dhcpkit/ipv6/server/handlers/unanswered_ia.py, handlers/status_option.py and
-- extensions/prefix_delegation.py: the handlers for what no other handler has answered keep what
-- `Server.Answers` says of the bundle.
use dhcpkit.Prelude.{Bool, List, [], ◌∷◌, true}
use dhcpkit.Element.{
  DhcpOption, Options, nil, cons, Message, ia_na_option, ia_ta_option, ia_pd_option,
}
use dhcpkit.Element.Access.{join}
use dhcpkit.Bundle.{Bundle, get_unhandled_options}
use dhcpkit.Handler.Ensures.{Ensures, Keeps, EnsuresOr->>=, with_message-Ensures, handling-Keeps}
use dhcpkit.Handler.Status.{add_missing_status, add_missing_status_handler, force_status}
use dhcpkit.Handler.Unanswered.{
  Answer, append_option, force_code, give_up, ignore, carry_out, answer_ia, answer_ia_pd, for_each,
  unanswered_ia, unanswered_ia_handler, unanswered_ia_pd, unanswered_ia_pd_handler,
}
use dhcpkit.Server.Answers.{Answers}
use dhcpkit.Server.Keeping.{answering-Answers, add_missing_status-Answers}

module _ {asked : Message} {incoming : List Message} where
  carry_out-Answers :
      (a : Answer) (b : Bundle)
      → Answers asked incoming true b
      → Ensures (Answers asked incoming true) (carry_out a b)
  unfolding carry_out
  carry_out-Answers (append_option o) b h = answering-Answers (λ os. join os (cons o nil)) b h
  carry_out-Answers (force_code c m) b h = answering-Answers (force_status c m) b h
  carry_out-Answers give_up b h = (tt, h)
  carry_out-Answers ignore b h = h

  for_each-Answers :
      (answer : DhcpOption → Answer) (os : Options) (b : Bundle)
      → Answers asked incoming true b
      → Ensures (Answers asked incoming true) (for_each answer os b)
  unfolding for_each
  for_each-Answers answer nil b h = h
  for_each-Answers answer (cons o os) b h =
      EnsuresOr->>= (Answers asked incoming true) (Answers asked incoming true)
        (Answers asked incoming true) (carry_out (answer o) b) (for_each answer os)
        (carry_out-Answers (answer o) b h) (for_each-Answers answer os)

  unanswered_ia-Answers :
      (authoritative : Bool) (b : Bundle)
      → Answers asked incoming true b
      → Ensures (Answers asked incoming true) (unanswered_ia authoritative b)
  unfolding unanswered_ia
  unanswered_ia-Answers authoritative b h =
      with_message-Ensures (Answers asked incoming true) b.client_request b _ asked h.same_request (
        for_each-Answers (answer_ia authoritative asked)
          (get_unhandled_options (ia_na_option ∷ ia_ta_option ∷ []) asked b) b h)

  unanswered_ia_pd-Answers :
      (authoritative : Bool) (b : Bundle)
      → Answers asked incoming true b
      → Ensures (Answers asked incoming true) (unanswered_ia_pd authoritative b)
  unfolding unanswered_ia_pd
  unanswered_ia_pd-Answers authoritative b h =
      with_message-Ensures (Answers asked incoming true) b.client_request b _ asked h.same_request (
        for_each-Answers (answer_ia_pd authoritative asked)
          (get_unhandled_options (ia_pd_option ∷ []) asked b) b h)

  pub unanswered_ia_handler-Keeps :
      (authoritative : Bool) → Keeps (Answers asked incoming) (unanswered_ia_handler authoritative)
  unanswered_ia_handler-Keeps authoritative =
      handling-Keeps (Answers asked incoming) (unanswered_ia authoritative)
        (unanswered_ia-Answers authoritative)

  pub unanswered_ia_pd_handler-Keeps :
      (authoritative : Bool)
      → Keeps (Answers asked incoming) (unanswered_ia_pd_handler authoritative)
  unanswered_ia_pd_handler-Keeps authoritative =
      handling-Keeps (Answers asked incoming) (unanswered_ia_pd authoritative)
        (unanswered_ia_pd-Answers authoritative)

  pub add_missing_status_handler-Keeps : Keeps (Answers asked incoming) add_missing_status_handler
  add_missing_status_handler-Keeps =
      handling-Keeps (Answers asked incoming) add_missing_status add_missing_status-Answers
