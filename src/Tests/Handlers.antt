-- ===== src/Tests/Handlers.antt =====
-- The handlers: the theorems at examples.
use dhcpkit.Prelude.{◌≡◌, refl, true, false, [], ◌∷◌}
use dhcpkit.Leaf
use dhcpkit.Element.{
  leaf, ia_na_option, ia_ta_option, ia_pd_option, Options, nil, cons, solicit, advertise,
  OptionClass,
}
use dhcpkit.Element.Contains.{is_class}
use dhcpkit.Element.Access.{get_options_of_type, join}
use dhcpkit.Bundle.{get_unhandled_options}
use dhcpkit.Handler.{done}
use dhcpkit.Handler.Status.{status, status_class}
use dhcpkit.Handler.Basic.{client_id_class, copy_options, overwrite_options}
use dhcpkit.Handler.Unanswered.{unanswered_ia, unanswered_ia_pd}
use dhcpkit.Handler.Replaced.{copy_options-replaces, overwrite_options-replaces}
use dhcpkit.Handler.Complete.{keys_of, responding, unanswered_ia-keys, unanswered_ia_pd-keys}
use dhcpkit.Tests.Data.{solicit_message, solicit_options}
use dhcpkit.Tests.Server.{bundle, bundle_request}

abbrev two_statuses : Options
two_statuses =
    cons (status 3 [])
      (cons (status 3 []) (cons (leaf (Leaf.preference 7)) (cons (status 2 []) nil)))

abbrev apart_statuses : Options
apart_statuses =
    cons (status 3 [])
      (cons (leaf (Leaf.preference 7)) (cons (status 4 []) (cons (leaf (Leaf.preference 8)) nil)))

copy_options-replaces_example :
    (get_options_of_type
        (client_id_class ∷ [])
        (copy_options client_id_class solicit_options two_statuses)
      ≡ get_options_of_type (client_id_class ∷ []) solicit_options)
    × ((d : OptionClass)
        → is_class d client_id_class ≡ false
        → get_options_of_type (d ∷ []) (copy_options client_id_class solicit_options two_statuses)
          ≡ get_options_of_type (d ∷ []) two_statuses)
copy_options-replaces_example = copy_options-replaces client_id_class solicit_options two_statuses

overwrite_options-replaces_example :
    (get_options_of_type (status_class ∷ []) (overwrite_options (status 0 []) two_statuses)
      ≡ cons (status 0 []) nil)
    × ((d : OptionClass)
        → is_class d status_class ≡ false
        → get_options_of_type (d ∷ []) (overwrite_options (status 0 []) two_statuses)
          ≡ get_options_of_type (d ∷ []) two_statuses)
overwrite_options-replaces_example = overwrite_options-replaces (status 0 []) two_statuses

unanswered_ia-keys_example :
    (qs : Options) × (unanswered_ia true
        (responding advertise (241 ∷ 53 ∷ 9 ∷ []) [] bundle two_statuses)
      ≡ done (responding advertise (241 ∷ 53 ∷ 9 ∷ []) [] bundle (join two_statuses qs)))
    × (keys_of qs
        ≡ keys_of (get_unhandled_options (ia_na_option ∷ ia_ta_option ∷ []) solicit_message bundle))
unanswered_ia-keys_example =
    unanswered_ia-keys solicit advertise (241 ∷ 53 ∷ 9 ∷ []) (241 ∷ 53 ∷ 9 ∷ []) solicit_options
      two_statuses [] bundle refl bundle_request

unanswered_ia_pd-keys_example :
    (qs : Options) × (unanswered_ia_pd true
        (responding advertise (241 ∷ 53 ∷ 9 ∷ []) [] bundle two_statuses)
      ≡ done (responding advertise (241 ∷ 53 ∷ 9 ∷ []) [] bundle (join two_statuses qs)))
    × (keys_of qs ≡ keys_of (get_unhandled_options (ia_pd_option ∷ []) solicit_message bundle))
unanswered_ia_pd-keys_example =
    unanswered_ia_pd-keys solicit advertise (241 ∷ 53 ∷ 9 ∷ []) (241 ∷ 53 ∷ 9 ∷ []) solicit_options
      two_statuses [] bundle refl bundle_request
