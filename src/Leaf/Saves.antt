-- ===== src/Leaf/Saves.antt =====
-- `validate` and `save` of the options without nested options: what passes `validate` can be saved.
use dhcpkit.Duid.Saves.{save_duid-validated}
use dhcpkit.Wire.Codes.{length-codes, codes-AllFit}
use dhcpkit.Prelude.{
  and_inv, ℕ, true, lt→ltb, ◌^◌, ◌<◌, ◌≡◌, refl, List, [], ◌∷◌, ◌++◌, length, map, all, ltb, ◌&&◌,
  arith, length-append,
}
use dhcpkit.Wire.{Bytes, ok, u16, pack}
use dhcpkit.Wire.Laws.{encode, pack-encode, require_inv, require-ok}
use dhcpkit.Duid.RoundTrip
use dhcpkit.Header.{head_of}
use dhcpkit.Extension.Saves.{save_extension-validated}
use dhcpkit.Leaf
use dhcpkit.Leaf.Body.{strings, options, body, IsProper}
use dhcpkit.Leaf.Validate.{
  short, validate_leaf, validate_unknown, validate_client_id, validate_server_id,
  validate_option_request, validate_preference, validate_elapsed_time, validate_authentication,
  validate_status_code, validate_user_class, validate_vendor_class,
  validate_vendor_specific_information, validate_reconfigure_message,
}
use dhcpkit.Leaf.Save.{
  save_strings, save_vendor_options, save_leaf, save_unknown, save_client_id, save_server_id,
  save_option_request, save_preference, save_elapsed_time, save_authentication, save_server_unicast,
  save_status_code, save_rapid_commit, save_user_class, save_vendor_class,
  save_vendor_specific_information, save_interface_id, save_reconfigure_message,
  save_reconfigure_accept,
}

save_strings-short : (ss : List Bytes) → all short ss ≡ true → save_strings ss ≡ ok (strings ss)
unfolding save_strings pack
save_strings-short [] h = refl
save_strings-short (s ∷ ss) h =
    let (fit, more) = and_inv (short s) _ h in rw (fit, save_strings-short ss more) refl

save_vendor_options-short :
    (os : List (ℕ × Bytes))
    → all (λ o. ltb o.0 65536 && short o.1) os ≡ true
    → save_vendor_options os ≡ ok (options os)
unfolding save_vendor_options pack
save_vendor_options-short [] h = refl
save_vendor_options-short ((c, s) ∷ os) h =
    let (fit, more) = and_inv (ltb c 65536 && short s) _ h in
    let (code, here) = and_inv (ltb c 65536) _ fit in
    rw (code, here, save_vendor_options-short os more) refl

save_option_request-short :
    (os : List ℕ)
    → all (λ c. ltb c 65536) os ≡ true
    → length (encode (map u16 os)) < 65536
    → save_option_request os ≡ ok (head_of 6 (length (encode (map u16 os))) ++ encode (map u16 os))
unfolding save_option_request
save_option_request-short os h fit =
    rw
      (
        length-codes os,
        pack-encode (u16 6 ∷ u16 (length (encode (map u16 os))) ∷ []) (omega arith, (fit, tt)),
        pack-encode (map u16 os) (codes-AllFit os h),
      )
      refl

-- An option without nested options whose values are well-formed, that validate accepts and whose
-- data is shorter than 65536 bytes is saved: as the head, with the type code and that length, and
-- the data.
pub save_leaf-validated :
    (l : Leaf.Leaf)
    → IsProper l
    → validate_leaf l ≡ ok tt
    → length (body l) < 65536
    → save_leaf l ≡ ok (head_of (Leaf.type_of l) (length (body l)) ++ body l)
unfolding save_leaf save_unknown save_client_id save_server_id save_option_request save_preference
    save_elapsed_time save_authentication save_server_unicast save_status_code save_rapid_commit
    save_user_class save_vendor_class save_vendor_specific_information save_interface_id
    save_reconfigure_message save_reconfigure_accept validate_leaf validate_unknown
    validate_client_id validate_server_id validate_option_request validate_preference
    validate_elapsed_time validate_authentication validate_user_class validate_vendor_class
    validate_vendor_specific_information validate_reconfigure_message validate_status_code pack
save_leaf-validated (Leaf.unknown t d) p v fit = ground arith
save_leaf-validated (Leaf.client_id d) p v fit =
    rw (save_duid-validated d p v) (rw (lt→ltb (length (RoundTrip.image d)) 65536 fit) refl)
save_leaf-validated (Leaf.server_id d) p v fit =
    rw (save_duid-validated d p v) (rw (lt→ltb (length (RoundTrip.image d)) 65536 fit) refl)
save_leaf-validated (Leaf.option_request os) p v fit =
    save_option_request-short os (require-ok _ v) fit
save_leaf-validated (Leaf.preference n) p v fit = ground arith
save_leaf-validated (Leaf.elapsed_time t) p v fit = ground arith
save_leaf-validated (Leaf.authentication n a r d i) p v fit =
    ground (arith, p, length-append {0} d i)
save_leaf-validated (Leaf.server_unicast a) p v fit = ground (arith, p)
save_leaf-validated (Leaf.status_code c m) p v fit = ground arith
save_leaf-validated Leaf.rapid_commit p v fit = refl
save_leaf-validated (Leaf.user_class cs) p v fit =
    rw (save_strings-short cs (require-ok (all short cs) v))
      (rw (lt→ltb (length (strings cs)) 65536 fit) refl)
save_leaf-validated (Leaf.vendor_class n cs) p v fit =
    let (number, checked) = require_inv (ltb n (2 ^ 32)) _ v in
    let all_short = require-ok (all short cs) checked in
    rw (save_strings-short cs all_short, number) (ground arith)
save_leaf-validated (Leaf.vendor_specific_information n os) p v fit =
    let (number, checked) = require_inv (ltb n (2 ^ 32)) _ v in
    let all_short = require-ok (all (λ o. ltb o.0 (2 ^ 16) && short o.1) os) checked in
    rw (save_vendor_options-short os all_short, number) (ground arith)
save_leaf-validated (Leaf.interface_id i) p v fit = ground arith
save_leaf-validated (Leaf.reconfigure_message t) p v fit = ground arith
save_leaf-validated Leaf.reconfigure_accept p v fit = refl
save_leaf-validated (Leaf.extension x) p v fit = save_extension-validated x p v fit
