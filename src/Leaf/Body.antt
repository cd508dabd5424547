-- ===== src/Leaf/Body.antt =====
-- The data that `save` writes behind the head of an option without nested options.
use dhcpkit.Header.Frames.{IsFramed, written-IsFramed}
use dhcpkit.Wire.Codes.{length-codes}
use dhcpkit.Prelude.{
  ℕ, ◌+◌, ◌*◌, ◌≡◌, sym, subst, List, [], ◌∷◌, ◌++◌, length, map, arith, length-append,
}
use dhcpkit.Wire.{Bytes, ok, u8, u16, u32, pack}
use dhcpkit.Wire.Laws.{encode, pack_inv, pack_append_inv, >>=-eq-ok}
use dhcpkit.Address.{IsAddress}
use dhcpkit.Utf8.{IsText}
use dhcpkit.Duid.{save_duid}
use dhcpkit.Duid.RoundTrip
use dhcpkit.Extension.Body
use dhcpkit.Leaf
use dhcpkit.Leaf.Save.{
  save_strings, save_vendor_options, save_leaf, save_unknown, save_client_id, save_server_id,
  save_option_request, save_preference, save_elapsed_time, save_authentication, save_server_unicast,
  save_status_code, save_rapid_commit, save_user_class, save_vendor_class,
  save_vendor_specific_information, save_interface_id, save_reconfigure_message,
  save_reconfigure_accept,
}

abbrev pub strings : List Bytes → Bytes
strings [] = []
strings (s ∷ ss) = (encode (u16 (length s) ∷ []) ++ s) ++ strings ss

abbrev pub options : List (ℕ × Bytes) → Bytes
options [] = []
options ((code, s) ∷ ss) = (encode (u16 code ∷ u16 (length s) ∷ []) ++ s) ++ options ss

abbrev pub body : Leaf.Leaf → Bytes
body (Leaf.unknown t d) = d
body (Leaf.client_id d) = RoundTrip.image d
body (Leaf.server_id d) = RoundTrip.image d
body (Leaf.option_request os) = encode (map u16 os)
body (Leaf.preference p) = p ∷ []
body (Leaf.elapsed_time t) = encode (u16 t ∷ [])
body (Leaf.authentication p a r d i) = p ∷ a ∷ r ∷ (d ++ i)
body (Leaf.server_unicast a) = a
body (Leaf.status_code c m) = encode (u16 c ∷ []) ++ m
body Leaf.rapid_commit = []
body (Leaf.user_class cs) = strings cs
body (Leaf.vendor_class n cs) = encode (u32 n ∷ []) ++ strings cs
body (Leaf.vendor_specific_information n os) = encode (u32 n ∷ []) ++ options os
body (Leaf.interface_id i) = i
body (Leaf.reconfigure_message t) = t ∷ []
body Leaf.reconfigure_accept = []
body (Leaf.extension x) = Body.body x

-- What the values must be beside what their Python types say: an address has sixteen bytes, a text
-- is one, and the fields that `save` copies without their length have the length that `load_from`
-- expects.
abbrev pub IsProper : Leaf.Leaf → Type 0
IsProper (Leaf.client_id d) = RoundTrip.IsProper d
IsProper (Leaf.server_id d) = RoundTrip.IsProper d
IsProper (Leaf.authentication p a r d i) = length d ≡ 8
IsProper (Leaf.server_unicast a) = IsAddress a
IsProper (Leaf.status_code c m) = IsText m
IsProper (Leaf.extension x) = Body.IsProper x
IsProper _ = Unit

save_strings-strings : (ss : List Bytes) {b : Bytes} → save_strings ss ≡ ok b → b ≡ strings ss
unfolding save_strings
save_strings-strings [] h = cc
save_strings-strings (s ∷ ss) h =
    let (head, packed, h₁) = >>=-eq-ok (pack (u16 (length s) ∷ [])) _ h in
    let (more, saved, h₂) = >>=-eq-ok (save_strings ss) _ h₁ in
    let written = (pack_inv (u16 (length s) ∷ []) packed).1 in cc (save_strings-strings ss saved)

save_vendor_options-options :
    (ss : List (ℕ × Bytes)) {b : Bytes} → save_vendor_options ss ≡ ok b → b ≡ options ss
unfolding save_vendor_options
save_vendor_options-options [] h = cc
save_vendor_options-options ((code, s) ∷ ss) h =
    let (head, packed, h₁) = >>=-eq-ok (pack (u16 code ∷ u16 (length s) ∷ [])) _ h in
    let (more, saved, h₂) = >>=-eq-ok (save_vendor_options ss) _ h₁ in
    let written = (pack_inv (u16 code ∷ u16 (length s) ∷ []) packed).1 in
    cc (save_vendor_options-options ss saved)

-- What `save` writes is a head, and the data behind it.
pub save_leaf-IsFramed :
    (l : Leaf.Leaf) {b : Bytes}
    → IsProper l
    → save_leaf l ≡ ok b
    → IsFramed (Leaf.type_of l) (body l) b
unfolding save_leaf save_unknown save_client_id save_server_id save_option_request save_preference
    save_elapsed_time save_authentication save_server_unicast save_status_code save_rapid_commit
    save_user_class save_vendor_class save_vendor_specific_information save_interface_id
    save_reconfigure_message save_reconfigure_accept
save_leaf-IsFramed (Leaf.unknown t d) p h =
    let (fit, written) = pack_append_inv (u16 t ∷ u16 (length d) ∷ []) d h in (fit.1.0, written)
save_leaf-IsFramed (Leaf.client_id d) {b} p h =
    let (saved, e, h₁) = >>=-eq-ok (save_duid d) _ h in
    let (fit, written) = pack_append_inv (u16 1 ∷ u16 (length saved) ∷ []) saved h₁ in
    subst (λ x. IsFramed 1 x b) (RoundTrip.save_duid-image d e) (fit.1.0, written)
save_leaf-IsFramed (Leaf.server_id d) {b} p h =
    let (saved, e, h₁) = >>=-eq-ok (save_duid d) _ h in
    let (fit, written) = pack_append_inv (u16 2 ∷ u16 (length saved) ∷ []) saved h₁ in
    subst (λ x. IsFramed 2 x b) (RoundTrip.save_duid-image d e) (fit.1.0, written)
save_leaf-IsFramed (Leaf.option_request os) {b} p h =
    let (head, e, h₁) = >>=-eq-ok (pack (u16 6 ∷ u16 (length os * 2) ∷ [])) _ h in
    let (codes, e₂, h₂) = >>=-eq-ok (pack (map u16 os)) _ h₁ in
    let (fit, written) = pack_inv (u16 6 ∷ u16 (length os * 2) ∷ []) e in
    written-IsFramed 6 (length os * 2) (encode (map u16 os)) (length-codes os) fit.1.0
      (cc (written, (pack_inv (map u16 os) e₂).1))
save_leaf-IsFramed (Leaf.preference n) p h =
    let (fit, written) = pack_inv (u16 7 ∷ u16 1 ∷ u8 n ∷ []) h in (omega arith, written)
save_leaf-IsFramed (Leaf.elapsed_time t) p h =
    let (fit, written) = pack_inv (u16 8 ∷ u16 2 ∷ u16 t ∷ []) h in (omega arith, written)
save_leaf-IsFramed (Leaf.authentication n a r d i) p h =
    let (fit, written) =
      pack_append_inv (u16 11 ∷ u16 (length i + 11) ∷ u8 n ∷ u8 a ∷ u8 r ∷ []) (d ++ i) h in
    written-IsFramed 11 (length i + 11) (n ∷ a ∷ r ∷ (d ++ i))
      (omega (arith, p, length-append {0} d i)) fit.1.0 written
save_leaf-IsFramed (Leaf.server_unicast a) p h =
    let (fit, written) = pack_append_inv (u16 12 ∷ u16 16 ∷ []) a h in
    written-IsFramed 12 16 a (sym p) fit.1.0 written
save_leaf-IsFramed (Leaf.status_code c m) p h =
    let (fit, written) = pack_append_inv (u16 13 ∷ u16 (length m + 2) ∷ u16 c ∷ []) m h in
    written-IsFramed 13 (length m + 2) (encode (u16 c ∷ []) ++ m) (omega arith) fit.1.0 written
save_leaf-IsFramed Leaf.rapid_commit p h =
    let (fit, written) = pack_inv (u16 14 ∷ u16 0 ∷ []) h in (omega arith, written)
save_leaf-IsFramed (Leaf.user_class cs) {b} p h =
    let (saved, e, h₁) = >>=-eq-ok (save_strings cs) _ h in
    let (fit, written) = pack_append_inv (u16 15 ∷ u16 (length saved) ∷ []) saved h₁ in
    subst (λ x. IsFramed 15 x b) (save_strings-strings cs e) (fit.1.0, written)
save_leaf-IsFramed (Leaf.vendor_class n cs) {b} p h =
    let (saved, e, h₁) = >>=-eq-ok (save_strings cs) _ h in
    let (fit, written) = pack_append_inv (u16 16 ∷ u16 (length saved + 4) ∷ u32 n ∷ []) saved h₁ in
    subst (λ x. IsFramed 16 (encode (u32 n ∷ []) ++ x) b) (save_strings-strings cs e)
      (written-IsFramed 16 (length saved + 4) (encode (u32 n ∷ []) ++ saved) (omega arith) fit.1.0
        written)
save_leaf-IsFramed (Leaf.vendor_specific_information n os) {b} p h =
    let (saved, e, h₁) = >>=-eq-ok (save_vendor_options os) _ h in
    let (fit, written) = pack_append_inv (u16 17 ∷ u16 (length saved + 4) ∷ u32 n ∷ []) saved h₁ in
    subst (λ x. IsFramed 17 (encode (u32 n ∷ []) ++ x) b) (save_vendor_options-options os e)
      (written-IsFramed 17 (length saved + 4) (encode (u32 n ∷ []) ++ saved) (omega arith) fit.1.0
        written)
save_leaf-IsFramed (Leaf.interface_id i) p h =
    let (fit, written) = pack_append_inv (u16 18 ∷ u16 (length i) ∷ []) i h in (fit.1.0, written)
save_leaf-IsFramed (Leaf.reconfigure_message t) p h =
    let (fit, written) = pack_inv (u16 19 ∷ u16 1 ∷ u8 t ∷ []) h in (omega arith, written)
save_leaf-IsFramed Leaf.reconfigure_accept p h =
    let (fit, written) = pack_inv (u16 20 ∷ u16 0 ∷ []) h in (omega arith, written)
save_leaf-IsFramed (Leaf.extension x) p h = Body.save_extension-IsFramed x p h
