-- ===== src/Tests/Elements.antt =====
-- The theorems on options, messages and DUIDs at work, and runs of the definitions.
use dhcpkit.Prelude.{true, All, ◌≡◌, ◌≢◌, ◌≤◌, ◌↔◌, refl, List, [], ◌∷◌, ◌++◌, none, some, arith}
use dhcpkit.Wire.{value_error, pack, Bytes, pad, ok, err, out_of_fuel}
use dhcpkit.Address.{is_multicast, is_loopback, is_link_local}
use dhcpkit.Element.Validate.{
  validate_message, validate_client_server, validate_ia_na, validate_ia_address, unique_iaids,
}
use dhcpkit.Element.Validated.{validate-parse-save}
use dhcpkit.Element.Contains.{Occurrence, validate_contains}
use dhcpkit.Element.Tables.{in_client_server, in_any_message}
use dhcpkit.Element.Iaids.{Distinct, iaids, unique_iaids_iff}
use dhcpkit.Element.Occurrences.{AllHaveEntry, Occurs, validate_contains_iff}
use dhcpkit.Leaf
use dhcpkit.Element.{leaf, cons, Message, client_server, solicit, option_registry}
use dhcpkit.Element.Parse.{parse, parse_option, determine_option_class}
use dhcpkit.Element.Save.{save_message, save_client_server, save_ia_address, save_ia_na}
use dhcpkit.Element.Load.{load_option, load_leaf_option}
use dhcpkit.Element.Proper.{IsProper}
use dhcpkit.Leaf.Load.{load_leaf, load_preference}
use dhcpkit.Leaf.Save.{
  save_leaf, save_client_id, save_rapid_commit, save_status_code, save_option_request,
}
use dhcpkit.Header.{parse_option_header}
use dhcpkit.Duid.{validate_duid, save_duid, parse_duid}
use dhcpkit.Duid.RoundTrip.{parse_duid-save}
use dhcpkit.Leaf.Saves.{save_leaf-validated}
use dhcpkit.Leaf.Validate.{
  validate_elapsed_time, validate_client_id, validate_status_code, validate_option_request,
  validate_leaf, validate_vendor_specific_information,
}
use dhcpkit.Utf8.{IsText, is_utf8}
use dhcpkit.Element.RoundTrip.{parse-save, parse-save_within}
use dhcpkit.Element.Total.{parse-ne-out_of_fuel, parse_option_bounds}
use dhcpkit.Tests.Data.{client_duid, solicit_options, solicit_message, solicit_bytes}

save_solicit : save_message solicit_message ≡ ok solicit_bytes
unfolding save_message save_client_server save_leaf save_client_id save_duid save_rapid_commit
    save_status_code save_ia_address save_ia_na save_option_request pad pack
save_solicit = refl

ok-IsText : IsText (79 ∷ 75 ∷ [])
unfolding is_utf8
ok-IsText = refl

solicit-IsProper : IsProper solicit_message
solicit-IsProper =
    (refl, ((tt, tt), ((tt, tt), ((refl, ((refl, ((ok-IsText, tt), tt)), tt)), ((tt, tt), tt)))))

parse-save_example : parse solicit_bytes none ≡ ok (82, solicit_message)
parse-save_example = parse-save solicit_message solicit-IsProper save_solicit

parse-save_within_example :
    parse (solicit_bytes ++ (0 ∷ 1 ∷ [])) (some 82) ≡ ok (82, solicit_message)
parse-save_within_example =
    parse-save_within solicit_message (0 ∷ 1 ∷ []) solicit-IsProper save_solicit

-- An option that says it is longer than the buffer.
parse-ne-out_of_fuel_example : parse (1 ∷ 0 ∷ 0 ∷ 0 ∷ 0 ∷ 1 ∷ 0 ∷ 9 ∷ []) none ≢ err out_of_fuel
parse-ne-out_of_fuel_example = parse-ne-out_of_fuel (1 ∷ 0 ∷ 0 ∷ 0 ∷ 0 ∷ 1 ∷ 0 ∷ 9 ∷ []) none

parse_preference :
    parse_option 8 (0 ∷ 7 ∷ 0 ∷ 1 ∷ 255 ∷ 0 ∷ 0 ∷ []) none ≡ ok (5, leaf (Leaf.preference 255))
unfolding parse_option determine_option_class load_option option_registry load_leaf_option load_leaf
    load_preference parse_option_header
parse_preference = refl

parse_option_bounds_example : (4 ≤ 5) × (5 ≤ 7)
parse_option_bounds_example =
    parse_option_bounds (0 ∷ 7 ∷ 0 ∷ 1 ∷ 255 ∷ 0 ∷ 0 ∷ []) 8 5 (leaf (Leaf.preference 255))
      (omega arith) parse_preference

abbrev vendor_leaf : Leaf.Leaf
vendor_leaf = Leaf.vendor_specific_information 9 ((1, 97 ∷ 98 ∷ []) ∷ [])

vendor-validate : validate_leaf vendor_leaf ≡ ok tt
unfolding validate_leaf validate_vendor_specific_information
vendor-validate = refl

save_leaf-validated_example :
    save_leaf vendor_leaf ≡ ok (0 ∷ 17 ∷ 0 ∷ 10 ∷ 0 ∷ 0 ∷ 0 ∷ 9 ∷ 0 ∷ 1 ∷ 0 ∷ 2 ∷ 97 ∷ 98 ∷ [])
save_leaf-validated_example = save_leaf-validated vendor_leaf tt vendor-validate (omega arith)

client_duid_bytes : save_duid client_duid ≡ ok (0 ∷ 3 ∷ 0 ∷ 1 ∷ 0 ∷ 36 ∷ 54 ∷ 239 ∷ 29 ∷ 137 ∷ [])
unfolding save_duid pack
client_duid_bytes = refl

parse_duid-save_example :
    parse_duid (0 ∷ 3 ∷ 0 ∷ 1 ∷ 0 ∷ 36 ∷ 54 ∷ 239 ∷ 29 ∷ 137 ∷ 7 ∷ []) (some 10)
    ≡ ok (10, client_duid)
parse_duid-save_example = parse_duid-save client_duid (7 ∷ []) tt client_duid_bytes

-- A Solicit that may be sent has an elapsed time.
abbrev pub valid_solicit : Message
valid_solicit =
    client_server solicit (241 ∷ 53 ∷ 9 ∷ []) (cons (leaf (Leaf.elapsed_time 0)) solicit_options)

pub valid_solicit-validate : validate_message valid_solicit ≡ ok tt
unfolding validate_message validate_client_server validate_contains validate_leaf
    validate_elapsed_time validate_client_id validate_duid validate_ia_na validate_ia_address
    is_link_local is_loopback is_multicast validate_status_code validate_option_request unique_iaids
valid_solicit-validate = refl

pub valid_solicit-IsProper : IsProper valid_solicit
valid_solicit-IsProper = (refl, ((tt, tt), solicit-IsProper.1))

validate-parse-save_example :
    (b : Bytes) × (save_message valid_solicit ≡ ok b) × (parse b none ≡ ok (88, valid_solicit))
validate-parse-save_example =
    validate-parse-save valid_solicit valid_solicit-IsProper valid_solicit-validate (omega arith)

abbrev solicit_table : List Occurrence
solicit_table = in_client_server solicit ++ in_any_message

validate_contains_iff_example :
    (validate_contains solicit_table solicit_options ≡ ok tt)
    ↔ (AllHaveEntry solicit_table solicit_options × All (Occurs solicit_options) solicit_table)
validate_contains_iff_example = validate_contains_iff solicit_table solicit_options

-- Without an elapsed time it is refused.
solicit_refused : validate_contains solicit_table solicit_options ≡ err value_error
unfolding validate_contains
solicit_refused = refl

unique_iaids_iff_example :
    (unique_iaids [] solicit_options ≡ true) ↔ Distinct (iaids solicit_options)
unique_iaids_iff_example = unique_iaids_iff solicit_options
