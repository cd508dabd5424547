-- ===== src/Element/Sizes.antt =====
-- What `save` writes for an element with nested elements is longer than those.
use dhcpkit.Prelude.{ℕ, ◌+◌, ◌≤◌, ◌≡◌, ap, [], ◌∷◌, ◌++◌, length, arith, length-append}
use dhcpkit.Wire.{Bytes, Result, ok, u8, u16, u32, raw, pack}
use dhcpkit.Wire.Laws.{encode, pack_inv, pack_append_inv, >>=-eq-ok}
use dhcpkit.Address.{Address}
use dhcpkit.Element.{ClientServerClass, RelayClass, client_server_type, relay_type}
use dhcpkit.Element.Save.{
  append_byte, save_ia_na, save_ia_ta, save_ia_address, save_ia_pd, save_ia_prefix,
  save_relay_message, save_unknown_message, save_client_server, save_relay_server,
}
use dhcpkit.Element.Classes.{append_byte_inv}

module _ (saved : Bytes) {b : Bytes} where
  pub length-save_ia_na :
      (iaid : Bytes) (t1 t2 : ℕ) → save_ia_na iaid t1 t2 saved ≡ ok b → length saved + 4 ≤ length b
  unfolding save_ia_na
  length-save_ia_na iaid t1 t2 h =
      let fields = u16 3 ∷ u16 (length saved + 12) ∷ raw 4 iaid ∷ u32 t1 ∷ u32 t2 ∷ [] in
      let (fit, written) = pack_append_inv fields saved h in
      omega (arith, ap length written, length-append {0} (encode fields) saved)

  pub length-save_ia_pd :
      (iaid : Bytes) (t1 t2 : ℕ) → save_ia_pd iaid t1 t2 saved ≡ ok b → length saved + 4 ≤ length b
  unfolding save_ia_pd
  length-save_ia_pd iaid t1 t2 h =
      let fields = u16 25 ∷ u16 (length saved + 12) ∷ raw 4 iaid ∷ u32 t1 ∷ u32 t2 ∷ [] in
      let (fit, written) = pack_append_inv fields saved h in
      omega (arith, ap length written, length-append {0} (encode fields) saved)

  pub length-save_ia_ta :
      (iaid : Bytes) → save_ia_ta iaid saved ≡ ok b → length saved + 4 ≤ length b
  unfolding save_ia_ta
  length-save_ia_ta iaid h =
      let fields = u16 4 ∷ u16 (length saved + 4) ∷ raw 4 iaid ∷ [] in
      let (fit, written) = pack_append_inv fields saved h in
      omega (arith, ap length written, length-append {0} (encode fields) saved)

  pub length-save_ia_address :
      (a : Address) (p v : ℕ) → save_ia_address a p v saved ≡ ok b → length saved + 4 ≤ length b
  unfolding save_ia_address
  length-save_ia_address a p v h =
      let fields = u16 5 ∷ u16 (length saved + 24) ∷ [] in
      let (head, e₁, h₁) = >>=-eq-ok (pack fields) _ h in
      let (lifetimes, e₂, h₂) = >>=-eq-ok (pack (u32 p ∷ u32 v ∷ [])) _ h₁ in
      let behind = lifetimes ++ saved in
      let written : b ≡ encode fields ++ (a ++ behind) = cc ((pack_inv fields e₁).1) in
      omega
        (arith, ap length written, length-append {0} a behind, length-append {0} lifetimes saved)

  pub length-save_ia_prefix :
      (a : Address) (l p v : ℕ) → save_ia_prefix a l p v saved ≡ ok b → length saved + 4 ≤ length b
  unfolding save_ia_prefix
  length-save_ia_prefix a l p v h =
      let fields = u16 26 ∷ u16 (length saved + 25) ∷ u32 p ∷ u32 v ∷ u8 l ∷ [] in
      let (fit, written) = pack_append_inv fields (a ++ saved) h in
      omega (arith, ap length written, length-append {0} a saved)

  pub length-save_relay_message : save_relay_message saved ≡ ok b → length saved + 4 ≤ length b
  unfolding save_relay_message
  length-save_relay_message h =
      let (fit, written) = pack_append_inv (u16 9 ∷ u16 (length saved) ∷ []) saved h in
      omega (arith, ap length written)

  pub save_client_server_inv :
      (c : ClientServerClass) (i : Bytes)
      → save_client_server c i (ok saved) ≡ ok b
      → b ≡ client_server_type c ∷ (i ++ saved)
  unfolding save_client_server
  save_client_server_inv c i h =
      let (head, e₁, h₁) = >>=-eq-ok (append_byte (client_server_type c)) _ h in
      cc (append_byte_inv (client_server_type c) e₁)

  pub save_relay_server_inv :
      (c : RelayClass) (h : ℕ) (l p : Address)
      → save_relay_server c h l p (ok saved) ≡ ok b
      → b ≡ relay_type c ∷ h ∷ (l ++ (p ++ saved))
  unfolding save_relay_server
  save_relay_server_inv c h l p e =
      let (head, e₁, h₁) = >>=-eq-ok (append_byte (relay_type c)) _ e in
      let (hops, e₂, h₂) = >>=-eq-ok (append_byte h) _ h₁ in
      cc (append_byte_inv (relay_type c) e₁, append_byte_inv h e₂)

pub save_unknown_message_inv :
    (t : ℕ) (d : Bytes) {b : Bytes} → save_unknown_message t d ≡ ok b → b ≡ t ∷ d
unfolding save_unknown_message
save_unknown_message_inv t d h =
    let (head, e₁, h₁) = >>=-eq-ok (append_byte t) _ h in cc (append_byte_inv t e₁)

-- A message that is saved has its options saved.
pub saved_options_client_server :
    (c : ClientServerClass) (i : Bytes) (options : Result Bytes) {b : Bytes}
    → save_client_server c i options ≡ ok b
    → (saved : Bytes) × (options ≡ ok saved)
unfolding save_client_server
saved_options_client_server c i options h =
    let (head, e₁, h₁) = >>=-eq-ok (append_byte (client_server_type c)) _ h in
    let (saved, e₂, h₂) = >>=-eq-ok options _ h₁ in (saved, e₂)

pub saved_options_relay_server :
    (c : RelayClass) (h : ℕ) (l p : Address) (options : Result Bytes) {b : Bytes}
    → save_relay_server c h l p options ≡ ok b
    → (saved : Bytes) × (options ≡ ok saved)
unfolding save_relay_server
saved_options_relay_server c h l p options e =
    let (head, e₁, h₁) = >>=-eq-ok (append_byte (relay_type c)) _ e in
    let (hops, e₂, h₂) = >>=-eq-ok (append_byte h) _ h₁ in
    let (saved, e₃, h₃) = >>=-eq-ok options _ h₂ in (saved, e₃)
