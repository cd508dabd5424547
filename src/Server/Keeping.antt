-- ===== src/Server/Keeping.antt =====
-- dhcpkit/ipv6/server/handlers and extensions/prefix_delegation.py: the handlers of the server keep
-- what `Server.Answers` says of the bundle.
use dhcpkit.Prelude.{
  ◌≡◌, refl, subst, sym, Bool, true, List, [], ◌∷◌, All, Option, none, some, ◌==◌, length, ◌||◌,
  false,
}
use mathlib.Core.Option.{some-injective}
use dhcpkit.Utf8.{Text}
use dhcpkit.Duid.{Duid}
use dhcpkit.Leaf
use dhcpkit.Element.Contains.{class_of_option}
use dhcpkit.Element.{
  DhcpOption, leaf, Options, nil, cons, Message, client_server, advertise, reply, OptionClass,
}
use dhcpkit.Element.Access.{options_of, may_contain, join, get_option_of_type}
use dhcpkit.Bundle.{Bundle, response, set_response}
use dhcpkit.Handler.{done, raised, for_other_server, must_use_multicast}
use dhcpkit.Handler.Ensures.{
  Ensures, Keeps, with_message-Ensures, if-Ensures, if-keeps, handling-Keeps,
}
use dhcpkit.Handler.Status.{
  add_missing_status, add_unless, close_with, closing_text, status, success, status_class,
}
use dhcpkit.Handler.Basic.{
  if_wanted, wanted, copy_option, copy_options, overwrite_option, overwrite_options,
  is_other_server, server_id_class, client_id_class, check_server_id, server_id_handler,
  client_id_handler,
}
use dhcpkit.Handler.Chains.{
  handle_chain, handle_relays, interface_id_class, relay_handle, copy_relay_option,
  interface_id_handler,
}
use dhcpkit.Handler.Guards.{
  reject_unwanted_unicast, reject_unwanted_unicast_handler, rapid_commit_post, rapid_commit_handler,
  asks_rapid_commit, upgrade, upgrade_solicit, is_unwanted, is_granted,
}
use dhcpkit.Handler.Unanswered.{answering}
use dhcpkit.Server.{transaction_of}
use dhcpkit.Server.Answers.{
  IsAnswer, IsMirror, Mirrors, Mirrored, Answers, edit_response-Answers, set_response-Answers,
}
use dhcpkit.Server.Mirrors.{handle_relays-Mirrors, copy_relay_option-IsMirror}

response-answers :
    (P : Message → Type 0) (ms : List Message) (m : Message) → All P ms → response ms ≡ some m → P m
response-answers P [] m h e = cc
response-answers P (n ∷ ms) m (h, hs) e = subst P (some-injective _ _ e) h

module _ {asked : Message} {incoming : List Message} where
  pub if_wanted-Answers :
      (c : OptionClass) (always_send : Bool) (change : Message → Options → Options) (b : Bundle)
      → Answers asked incoming true b
      → Ensures (Answers asked incoming true) (if_wanted c always_send change b)
  unfolding if_wanted
  if_wanted-Answers c always_send change b h =
      let (r, e) = h.responded refl in
      with_message-Ensures (Answers asked incoming true) (response b.responses) b _ r e (
        if-Ensures (Answers asked incoming true) (may_contain r c) _ _
          (with_message-Ensures (Answers asked incoming true) b.client_request b _ asked
            h.same_request
            (if-Ensures (Answers asked incoming true) (wanted always_send c asked) _ _
              (edit_response-Answers (change asked) b h) h))
          h)

  overwrite_option-Answers :
      (o : DhcpOption) (always_send : Bool) (b : Bundle)
      → Answers asked incoming true b
      → Ensures (Answers asked incoming true) (overwrite_option o always_send b)
  unfolding overwrite_option
  overwrite_option-Answers o always_send =
      if_wanted-Answers (class_of_option o) always_send (λ m. overwrite_options o)

  copy_option-Answers :
      (c : OptionClass) (always_send : Bool) (b : Bundle)
      → Answers asked incoming true b
      → Ensures (Answers asked incoming true) (copy_option c always_send b)
  unfolding copy_option
  copy_option-Answers c always_send =
      if_wanted-Answers c always_send (λ m. copy_options c (options_of m))

  check_server_id-Answers :
      (duid : Duid) (b : Bundle)
      → Answers asked incoming false b
      → Ensures (Answers asked incoming false) (check_server_id duid b)
  unfolding check_server_id
  check_server_id-Answers duid b h =
      with_message-Ensures (Answers asked incoming false) b.client_request b _ asked h.same_request
        (if-Ensures (Answers asked incoming false)
          (is_other_server duid (get_option_of_type (server_id_class ∷ []) (options_of asked)))
          (raised for_other_server b) (done b) (tt, h) h)

  pub server_id_handler-Keeps :
      (duid : Duid) → Keeps (Answers asked incoming) (server_id_handler duid)
  server_id_handler-Keeps duid = record {
    in_analyse_pre = λ b h. h;
    in_pre = check_server_id-Answers duid;
    in_handle = overwrite_option-Answers (leaf (Leaf.server_id duid)) true;
    in_post = λ b h. h;
    in_analyse_post = λ b h. h;
  }

  pub client_id_handler-Keeps : Keeps (Answers asked incoming) client_id_handler
  client_id_handler-Keeps =
      handling-Keeps (Answers asked incoming) (copy_option client_id_class true)
        (copy_option-Answers client_id_class true)

  handle_chain-Answers :
      (handle_relay : Message → Message → Message)
      → ((i o : Message) → IsMirror i o → IsMirror i (handle_relay i o))
      → (outgoing : Option (List Message)) (b : Bundle) → b.outgoing_relay_messages ≡ outgoing
      → Answers asked incoming true b
      → Ensures (Answers asked incoming true) (handle_chain handle_relay outgoing b)
  unfolding handle_chain
  handle_chain-Answers f k none b e h = h
  handle_chain-Answers f k (some outgoing) b e h =
      let mirrors : Mirrors b.incoming_relay_messages outgoing =
        subst (λ is. Mirrors is outgoing) (sym h.same_relays)
          (subst (Mirrored incoming) e h.mirrored) in
      if-Ensures (Answers asked incoming true) (length b.incoming_relay_messages == length outgoing)
        (done (record b {
          outgoing_relay_messages = some (handle_relays f none b.incoming_relay_messages outgoing);
        }))
        (done b)
        (record {
          same_request = h.same_request;
          same_relays = h.same_relays;
          answers = h.answers;
          responded = h.responded;
          mirrored =
              subst (λ is. Mirrors is (handle_relays f none b.incoming_relay_messages outgoing))
                h.same_relays
                (handle_relays-Mirrors f k none b.incoming_relay_messages outgoing mirrors);
        })
        h

  relay_handle-Answers :
      (handle_relay : Message → Message → Message)
      → ((i o : Message) → IsMirror i o → IsMirror i (handle_relay i o))
      → (b : Bundle) → Answers asked incoming true b
      → Ensures (Answers asked incoming true) (relay_handle handle_relay b)
  unfolding relay_handle
  relay_handle-Answers f k b h = handle_chain-Answers f k b.outgoing_relay_messages b refl h

  pub interface_id_handler-Keeps : Keeps (Answers asked incoming) interface_id_handler
  interface_id_handler-Keeps =
      handling-Keeps (Answers asked incoming) (relay_handle (copy_relay_option interface_id_class))
        (relay_handle-Answers (copy_relay_option interface_id_class)
          (copy_relay_option-IsMirror interface_id_class))

  add_unless-Answers :
      (existing : Option DhcpOption) (o : DhcpOption) (b : Bundle)
      → Answers asked incoming true b
      → Answers asked incoming true (add_unless existing o b)
  unfolding add_unless
  add_unless-Answers (some e) o b h = h
  add_unless-Answers none o b h = edit_response-Answers (λ os. join os (cons o nil)) b h

  close_with-Answers :
      (m : Option Text) (b : Bundle)
      → Answers asked incoming true b
      → Ensures (Answers asked incoming true) (close_with m b)
  unfolding close_with
  close_with-Answers none b h = h
  close_with-Answers (some m) b h =
      let (r, e) = h.responded refl in
      with_message-Ensures (Answers asked incoming true) (response b.responses) b _ r e (
        add_unless-Answers (get_option_of_type (status_class ∷ []) (options_of r))
          (status success m) b h)

  pub add_missing_status-Answers :
      (b : Bundle)
      → Answers asked incoming true b
      → Ensures (Answers asked incoming true) (add_missing_status b)
  unfolding add_missing_status
  add_missing_status-Answers b h = close_with-Answers (closing_text b.client_request) b h

  pub reject-Keeps : Keeps (Answers asked incoming) reject_unwanted_unicast_handler
  unfolding reject_unwanted_unicast
  reject-Keeps = record {
    in_analyse_pre = λ b h. h;
    in_pre = λ b h.
        if-Ensures (Answers asked incoming false) (is_unwanted b) (raised must_use_multicast b)
          (done b) (tt, h) h;
    in_handle = λ b h. h;
    in_post = λ b h. h;
    in_analyse_post = λ b h. h;
  }

  pub answering-Answers :
      (change : Options → Options) (b : Bundle)
      → Answers asked incoming true b
      → Ensures (Answers asked incoming true) (answering change b)
  unfolding answering
  answering-Answers change b h =
      let (m, e) = h.responded refl in
      with_message-Ensures (Answers asked incoming true) (response b.responses) b _ m e
        (edit_response-Answers change b h)

  upgrade-Answers :
      (rejections : Bool) (m : Message) (r : Option Message) (b : Bundle)
      → response b.responses ≡ r
      → Answers asked incoming true b
      → Answers asked incoming true (upgrade rejections m r b)
  unfolding upgrade
  upgrade-Answers rejections m none b e h = h
  upgrade-Answers rejections m (some (client_server advertise i os)) b e h =
      let (_, same) =
        response-answers (IsAnswer (transaction_of asked)) b.responses
          (client_server advertise i os) h.answers e in
      if-keeps (Answers asked incoming true) (rejections || is_granted m os b)
        (set_response (some (client_server reply i (cons (leaf Leaf.rapid_commit) os))) b) b
        (set_response-Answers (client_server reply i (cons (leaf Leaf.rapid_commit) os)) b
          (refl, same) h)
        h
  upgrade-Answers rejections m (some r) b e h = h

  upgrade_solicit-Answers :
      (rejections : Bool) (m : Option Message) (b : Bundle)
      → Answers asked incoming true b
      → Answers asked incoming true (upgrade_solicit rejections m b)
  unfolding upgrade_solicit
  upgrade_solicit-Answers rejections none b h = h
  upgrade_solicit-Answers rejections (some m) b h =
      if-keeps (Answers asked incoming true) (asks_rapid_commit m)
        (upgrade rejections m (response b.responses) b) b
        (upgrade-Answers rejections m (response b.responses) b refl h) h

  pub rapid_commit_handler-Keeps :
      (rejections : Bool) → Keeps (Answers asked incoming) (rapid_commit_handler rejections)
  unfolding rapid_commit_post
  rapid_commit_handler-Keeps rejections = record {
    in_analyse_pre = λ b h. h;
    in_pre = λ b h. h;
    in_handle = λ b h. h;
    in_post = λ b h.
        if-keeps (Answers asked incoming true) b.allow_rapid_commit
          (upgrade_solicit rejections b.client_request b) b
          (upgrade_solicit-Answers rejections b.client_request b h) h;
    in_analyse_post = λ b h. h;
  }
