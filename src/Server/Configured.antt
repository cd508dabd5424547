-- ===== src/Server/Configured.antt =====
-- dhcpkit/ipv6/server/message_handler.py: the handlers of a request keep what `Server.Answers` says when
-- those that the configuration and the extensions add do.
use dhcpkit.Prelude.{
  Bool, true, false, List, [], ◌∷◌, ◌++◌, All, Option, none, some, Bool-cases, inl, inr,
}
use dhcpkit.Element.{Message}
use dhcpkit.Bundle.{Bundle}
use dhcpkit.Handler.{Handler}
use dhcpkit.Handler.Ensures.{Keeps}
use dhcpkit.Filter.{
  Filter, filter, Filters, no_filters, and_filter, append_handlers, get_matched, get_all_handlers,
}
use dhcpkit.Filter
use dhcpkit.Server.{MessageHandler, get_setup_handlers, get_cleanup_handlers, get_handlers}
use dhcpkit.Server.Answers.{Answers}
use dhcpkit.Server.Keeping.{
  server_id_handler-Keeps, client_id_handler-Keeps, interface_id_handler-Keeps,
  rapid_commit_handler-Keeps, reject-Keeps,
}
use dhcpkit.Server.Leftover.{unanswered_ia_handler-Keeps, add_missing_status_handler-Keeps}

-- All handlers that a filter can add.
abbrev mutual
  pub AllIn {κ} : (Handler → Type κ) → Filter → Type κ
  AllIn P (filter match sub_filters sub_handlers) = AllInEach P sub_filters × All P sub_handlers

  pub AllInEach {κ} : (Handler → Type κ) → Filters → Type κ
  AllInEach P no_filters = Unit
  AllInEach P (and_filter f fs) = AllIn P f × AllInEach P fs

abbrev pub AllSome {κ} : (Handler → Type κ) → Option (List Handler) → Type κ
AllSome P none = Unit
AllSome P (some hs) = All P hs

All-append {ℓ κ} :
    {A : Type ℓ} (P : A → Type κ) (xs ys : List A) → All P xs → All P ys → All P (xs ++ ys)
All-append P [] ys h k = k
All-append P (x ∷ xs) ys (h, hs) k = (h, All-append P xs ys hs k)

module _ (P : Handler → Type 0) where
  append_handlers-AllSome :
      (o q : Option (List Handler)) → AllSome P o → AllSome P q → AllSome P (append_handlers o q)
  append_handlers-AllSome (some hs) (some ks) h k = All-append P hs ks h k
  append_handlers-AllSome none q h k = tt
  append_handlers-AllSome (some hs) none h k = tt

  get_matched-AllSome :
      (m : Option Bool) (collected : Option (List Handler))
      → AllSome P collected
      → AllSome P (get_matched m collected)
  get_matched-AllSome none collected h = tt
  get_matched-AllSome (some true) collected h = h
  get_matched-AllSome (some false) collected h = tt

  mutual
    unfolding get_all_handlers

    get_handlers-AllSome :
        (b : Bundle) (f : Filter) → AllIn P f → AllSome P (Filter.get_handlers b f)
    get_handlers-AllSome b (filter match fs hs) (ps, qs) =
        get_matched-AllSome (match b) (append_handlers (get_all_handlers b fs) (some hs)) (
          append_handlers-AllSome (get_all_handlers b fs) (some hs)
            (get_all_handlers-AllSome b fs ps) qs)

    get_all_handlers-AllSome :
        (b : Bundle) (fs : Filters) → AllInEach P fs → AllSome P (get_all_handlers b fs)
    get_all_handlers-AllSome b no_filters h = tt
    get_all_handlers-AllSome b (and_filter f fs) (h, hs) =
        append_handlers-AllSome (Filter.get_handlers b f) (get_all_handlers b fs)
          (get_handlers-AllSome b f h) (get_all_handlers-AllSome b fs hs)

-- The handlers that the configuration and the extensions add.
pub record Configured (P : Handler → Type 0) (h : MessageHandler) : Type 0 where
  pub in_filters : AllInEach P h.sub_filters
  pub in_sub_handlers : All P h.sub_handlers
  pub in_setup : All P h.extension_setup_handlers
  pub in_cleanup : All P h.extension_cleanup_handlers

module _ (asked : Message) (incoming : List Message) where
  setup-Keeps :
      (h : MessageHandler)
      → Configured (Keeps (Answers asked incoming)) h
      → All (Keeps (Answers asked incoming)) (get_setup_handlers h)
  unfolding get_setup_handlers
  setup-Keeps h c = elim (Bool-cases h.allow_rapid_commit) [
    | inl e ↦ simp e (
      rapid_commit_handler-Keeps h.rapid_commit_rejections,
      (
        server_id_handler-Keeps h.server_id,
        (client_id_handler-Keeps, (interface_id_handler-Keeps, c.in_setup)),
      ),
    )
    | inr e ↦ simp e (
      server_id_handler-Keeps h.server_id,
      (client_id_handler-Keeps, (interface_id_handler-Keeps, c.in_setup)),
    )
  ]

  cleanup-Keeps :
      (h : MessageHandler)
      → Configured (Keeps (Answers asked incoming)) h
      → All (Keeps (Answers asked incoming)) (get_cleanup_handlers h)
  unfolding get_cleanup_handlers
  cleanup-Keeps h c = (
    reject-Keeps,
    (
      unanswered_ia_handler-Keeps true,
      All-append (Keeps (Answers asked incoming)) h.extension_cleanup_handlers _ c.in_cleanup
          (add_missing_status_handler-Keeps, tt),
    ),
  )

  pub get_handlers-Keeps :
      (h : MessageHandler) (b : Bundle)
      → Configured (Keeps (Answers asked incoming)) h
      → AllSome (Keeps (Answers asked incoming)) (get_handlers h b)
  unfolding get_handlers
  get_handlers-Keeps h b c =
      let keeps = Keeps (Answers asked incoming) in
      append_handlers-AllSome keeps (some (get_setup_handlers h)) _ (setup-Keeps h c) (
        append_handlers-AllSome keeps (get_all_handlers b h.sub_filters)
          (some (h.sub_handlers ++ get_cleanup_handlers h))
          (get_all_handlers-AllSome keeps b h.sub_filters c.in_filters)
          (All-append keeps h.sub_handlers (get_cleanup_handlers h) c.in_sub_handlers
            (cleanup-Keeps h c)))
