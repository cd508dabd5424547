-- ===== src/Server/Refusals.antt =====
-- dhcpkit/ipv6/server/message_handler.py: requests that the server refuses before it handles them: those
-- for another server, and those that came by unicast and should not have.
use mathlib.Core.Option.{some-injective}
use dhcpkit.Prelude.{
  ◌≡◌, refl, sym, ap, ◌∙◌, not, true, List, [], ◌∷◌, ◌++◌, All, Option, none, some, Bool-cases, inl,
  inr, if◌then◌else◌, ◌≢◌,
}
use dhcpkit.Duid.{Duid}
use dhcpkit.Leaf
use dhcpkit.Element.{leaf, Message}
use dhcpkit.Element.Access.{get_option_of_type, options_of, Duid-discrete, holds-no}
use dhcpkit.Bundle.{Bundle, response, set_response}
use dhcpkit.Handler.{
  with_message, HandlerError, done, raised, for_other_server, ◌>>=◌, Handler, run_phase, analyse,
}
use dhcpkit.Handler.Basic.{check_server_id, is_other_server, server_id_class}
use dhcpkit.Filter.{append_handlers}
use dhcpkit.Statistics.{StatisticsSet, count_each, count_for_other_server, count_message_in}
use dhcpkit.Server.{
  MessageHandler, get_setup_handlers, get_handlers, process, recover, conclude, handle_request,
  handle_by, handle_some, handle, message_type, count_response,
}

-- The analyses of a handler only look at the bundle.
abbrev pub OnlyLooks : Handler → Type 0
OnlyLooks h = ((b : Bundle) → h.analyse_pre b ≡ b) × ((b : Bundle) → h.analyse_post b ≡ b)

analyse_pre-OnlyLooks :
    (hs : List Handler) (b : Bundle) → All OnlyLooks hs → analyse (λ h. h.analyse_pre) hs b ≡ b
unfolding analyse
analyse_pre-OnlyLooks [] b h = refl
analyse_pre-OnlyLooks (x ∷ xs) b ((p, q), hs) =
    ap (analyse (λ h. h.analyse_pre) xs) (p b) ∙ analyse_pre-OnlyLooks xs b hs

analyse_post-OnlyLooks :
    (hs : List Handler) (b : Bundle) → All OnlyLooks hs → analyse (λ h. h.analyse_post) hs b ≡ b
unfolding analyse
analyse_post-OnlyLooks [] b h = refl
analyse_post-OnlyLooks (x ∷ xs) b ((p, q), hs) =
    ap (analyse (λ h. h.analyse_post) xs) (q b) ∙ analyse_post-OnlyLooks xs b hs

-- An exception before the response is made.
process-raised :
    (hs : List Handler) (b c : Bundle) (e : HandlerError)
    → run_phase (λ h. h.pre) hs b ≡ raised e c
    → process hs b ≡ raised e c
unfolding process
process-raised hs b c e h = rw h refl

-- The handler whose pre raises the exception stands behind handlers whose pre does nothing.
pub run_phase-quiet :
    (xs ys : List Handler) (b : Bundle)
    → All (λ h. h.pre b ≡ done b) xs
    → run_phase (λ h. h.pre) (xs ++ ys) b ≡ run_phase (λ h. h.pre) ys b
unfolding run_phase
run_phase-quiet [] ys b q = refl
run_phase-quiet (x ∷ xs) ys b (q, qs) =
    ap (λ o. o >>= run_phase (λ h. h.pre) (xs ++ ys)) q ∙ run_phase-quiet xs ys b qs

is_other_server-ne :
    (duid d : Duid) → d ≢ duid → is_other_server duid (some (leaf (Leaf.server_id d))) ≡ true
is_other_server-ne duid d n = ap not (holds-no (Duid-discrete d duid) n)

check_server_id-other :
    (duid d : Duid) (asked : Message) (b : Bundle)
    → b.client_request ≡ some asked
    → get_option_of_type (server_id_class ∷ []) (options_of asked) ≡ some (leaf (Leaf.server_id d))
    → d ≢ duid
    → check_server_id duid b ≡ raised for_other_server b
unfolding check_server_id
check_server_id-other duid d asked b e f n =
    ap
      (λ o. with_message o b (λ a.
        if is_other_server duid (get_option_of_type (server_id_class ∷ []) (options_of a))
        then raised for_other_server b
        else done b))
      e
    ∙ rw (f, is_other_server-ne duid d n) refl

setup-other :
    (h : MessageHandler) (more : List Handler) (b : Bundle)
    → check_server_id h.server_id b ≡ raised for_other_server b
    → run_phase (λ x. x.pre) (get_setup_handlers h ++ more) b ≡ raised for_other_server b
unfolding run_phase get_setup_handlers
setup-other h more b e = elim (Bool-cases h.allow_rapid_commit) [
  | inl a ↦ simp (a, e)
  | inr a ↦ simp (a, e)
]

append_handlers-some :
    (xs hs : List Handler) (o : Option (List Handler))
    → append_handlers (some xs) o ≡ some hs
    → (ys : List Handler) × (hs ≡ xs ++ ys)
append_handlers-some xs hs none e = cc
append_handlers-some xs hs (some ys) e = (ys, sym (some-injective _ _ e))

-- The bundle as the handlers get it.
abbrev pub allowed : MessageHandler → Bundle → Bundle
allowed h b = record b { allow_rapid_commit = h.allow_rapid_commit }

abbrev pub counted_in : Message → StatisticsSet → StatisticsSet
counted_in asked s = count_each (count_message_in (message_type asked)) s

pub conclude-OnlyLooks :
    (hs : List Handler) (c : Bundle) (t : StatisticsSet)
    → All OnlyLooks hs
    → conclude hs (c, t) ≡ done (c, count_response (response c.responses) t)
unfolding conclude
conclude-OnlyLooks hs c t k =
    ap (λ d. done (d, count_response (response d.responses) t)) (analyse_post-OnlyLooks hs c k)

-- An exception in the first phase goes to the branches of `recover`.
pub handle-raised :
    (h : MessageHandler) (asked : Message) (hs : List Handler) (b c : Bundle) (s : StatisticsSet)
    (e : HandlerError)
    → b.client_request ≡ some asked
    → get_handlers h (allowed h b) ≡ some hs
    → All OnlyLooks hs
    → run_phase (λ x. x.pre) hs (allowed h b) ≡ raised e c
    → handle h b s ≡ (recover h.server_id asked (raised e c) (counted_in asked s) >>= conclude hs)
unfolding handle handle_some handle_by handle_request
handle-raised h asked hs b c s e r g k p =
    ap (λ o. handle_some h o b s) r
    ∙ ap (λ o. handle_by o h.server_id asked (allowed h b) (counted_in asked s)) g
    ∙ ap (λ o. recover h.server_id asked o (counted_in asked s) >>= conclude hs)
        (ap (process hs) (analyse_pre-OnlyLooks hs (allowed h b) k)
          ∙ process-raised hs (allowed h b) c e p)

-- A request whose first server identifier has another DUID than the server, given to handlers whose
-- analyses do not change the bundle: handle returns the bundle without a response, and besides the
-- incoming message it counts one message for another server and nothing else.
pub handle-other_server :
    (h : MessageHandler) (asked : Message) (d : Duid) (hs : List Handler) (b : Bundle)
    (s : StatisticsSet)
    → b.client_request ≡ some asked
    → get_option_of_type (server_id_class ∷ []) (options_of asked) ≡ some (leaf (Leaf.server_id d))
    → d ≢ h.server_id
    → get_handlers h (allowed h b) ≡ some hs
    → All OnlyLooks hs
    → handle h b s
      ≡ done (
        set_response none (allowed h b),
        count_each count_for_other_server (count_each (count_message_in (message_type asked)) s),
      )
unfolding get_handlers recover set_response count_response
handle-other_server h asked d hs b s r f n g k =
    let (more, same) = append_handlers-some (get_setup_handlers h) hs _ g in
    let refuses : run_phase (λ x. x.pre) hs (allowed h b) ≡ raised for_other_server (allowed h b) =
      ap (λ xs. run_phase (λ x. x.pre) xs (allowed h b)) same
      ∙ setup-other h more (allowed h b)
          (check_server_id-other h.server_id d asked (allowed h b) r f n) in
    handle-raised h asked hs b (allowed h b) s for_other_server r g k refuses
    ∙ conclude-OnlyLooks hs (set_response none (allowed h b))
        (count_each count_for_other_server (counted_in asked s)) k
