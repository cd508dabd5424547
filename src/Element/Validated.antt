-- ===== src/Element/Validated.antt =====
-- Messages and options: what passes `validate` can be saved, and is then read back.
use dhcpkit.Prelude.{
  ℕ, ◌<◌, ◌^◌, ◌≡◌, refl, none, List, [], ◌∷◌, ◌++◌, length, ltb, arith, ltb→lt, lt→ltb,
  length-append, ◌==◌, true, not, ◌||◌,
}
use dhcpkit.Wire.{Bytes, ok, ◌>>◌}
use dhcpkit.Wire.Laws.{require_inv, require-ok, >>=-eq-ok}
use dhcpkit.Address.{
  Address, is_network, is_multicast, is_link_local, is_loopback, is_multicast_network,
  is_link_local_network, is_loopback_network,
}
use dhcpkit.Header.{head_of}
use dhcpkit.Leaf
use dhcpkit.Leaf.Body.{body}
use dhcpkit.Leaf.Saves.{save_leaf-validated}
use dhcpkit.Element.{
  DhcpOption, leaf, ia_na, ia_ta, ia_address, ia_pd, ia_prefix, relay_message, Options, nil, cons,
  Message, unknown_message, client_server, relay_server, ClientServerClass, RelayClass,
  client_server_type, relay_type, solicit, advertise, request, confirm, renew, rebind, reply,
  release, decline, reconfigure, information_request, relay_forward, relay_reply,
}
use dhcpkit.Element.Proper.{IsProperOption, IsProperOptions, IsProper}
use dhcpkit.Element.Parse.{parse}
use dhcpkit.Element.RoundTrip.{parse-save}
use dhcpkit.Element.Save.{
  append_byte, save_unknown_message, save_client_server, save_relay_server, save_option,
  save_options, save_message,
}
use dhcpkit.Element.Contains.{Occurrence, validate_contains}
use dhcpkit.Element.Validate.{
  validate_ia_na, validate_ia_ta, validate_ia_address, validate_ia_pd, validate_ia_prefix,
  validate_unknown_message, validate_client_server, validate_relay_server, validate_option,
  validate_options, validate_message,
}
use dhcpkit.Element.Writes
use dhcpkit.Element.Writes.{option_size, options_size, message_size, Saves}

client_server_type_lt : (c : ClientServerClass) → client_server_type c < 256
client_server_type_lt solicit = omega arith
client_server_type_lt advertise = omega arith
client_server_type_lt request = omega arith
client_server_type_lt confirm = omega arith
client_server_type_lt renew = omega arith
client_server_type_lt rebind = omega arith
client_server_type_lt reply = omega arith
client_server_type_lt release = omega arith
client_server_type_lt decline = omega arith
client_server_type_lt reconfigure = omega arith
client_server_type_lt information_request = omega arith

relay_type_lt : (c : RelayClass) → relay_type c < 256
relay_type_lt relay_forward = omega arith
relay_type_lt relay_reply = omega arith

append_byte-ok : (n : ℕ) → n < 256 → append_byte n ≡ ok (n ∷ [])
append_byte-ok n h = rw (lt→ltb n 256 h) refl

-- The length of a prefix is at most that of an address.
is_network_le : (a : Address) (l : ℕ) → is_network a l ≡ true → l < 256
unfolding is_network
is_network_le a l h = ground arith

-- The options pass their own checks where they pass all of them.
nested_inv :
    (table : List Occurrence) (os : Options)
    → (validate_contains table os >> validate_options os) ≡ ok tt
    → validate_options os ≡ ok tt
nested_inv table os v = let (u, e, rest) = >>=-eq-ok (validate_contains table os) _ v in rest

mutual
  unfolding save_option save_unknown_message save_client_server save_relay_server validate_option
      validate_ia_na validate_ia_ta validate_ia_address validate_ia_pd validate_ia_prefix
      validate_unknown_message validate_client_server validate_relay_server

  save_option-Saves :
      (o : DhcpOption)
      → IsProperOption o
      → validate_option o ≡ ok tt
      → option_size o < 65540
      → Saves (save_option o) (option_size o)
  save_option-Saves (leaf l) p v fit = (
    head_of (Leaf.type_of l) (length (body l)) ++ body l,
    save_leaf-validated l p.0 v (omega arith),
    omega arith,
  )
  save_option-Saves (ia_na i t1 t2 os) p v fit =
      let (four, v₁) = require_inv (length i == 4) _ v in
      let (h₁, v₂) = require_inv (ltb t1 (2 ^ 32)) _ v₁ in
      let (h₂, v₃) = require_inv (ltb t2 (2 ^ 32)) _ v₂ in
      let (ob, e, n) = save_options-Saves os p.1 (nested_inv _ os v₃) (omega arith) in
      let (b, saved, m) =
        Writes.save_ia_na-Saves ob i t1 t2 (ltb→lt t1 _ h₁) (ltb→lt t2 _ h₂) (omega arith) in
      (b, rw e saved, omega arith)
  save_option-Saves (ia_ta i os) p v fit =
      let (four, v₁) = require_inv (length i == 4) _ v in
      let (ob, e, n) = save_options-Saves os p.1 (nested_inv _ os v₁) (omega arith) in
      let (b, saved, m) = Writes.save_ia_ta-Saves ob i (omega arith) in (b, rw e saved, omega arith)
  save_option-Saves (ia_address a r w os) p v fit =
      let (routable, v₁) =
        require_inv (not (is_link_local a || (is_loopback a || is_multicast a))) _ v in
      let (h₁, v₂) = require_inv (ltb r (2 ^ 32)) _ v₁ in
      let (h₂, v₃) = require_inv (ltb w (2 ^ 32)) _ v₂ in
      let (ob, e, n) = save_options-Saves os p.1 (nested_inv _ os v₃) (omega arith) in
      let (b, saved, m) =
        Writes.save_ia_address-Saves ob a r w p.0 (ltb→lt r _ h₁) (ltb→lt w _ h₂) (omega arith) in
      (b, rw e saved, omega arith)
  save_option-Saves (ia_pd i t1 t2 os) p v fit =
      let (four, v₁) = require_inv (length i == 4) _ v in
      let (h₁, v₂) = require_inv (ltb t1 (2 ^ 32)) _ v₁ in
      let (h₂, v₃) = require_inv (ltb t2 (2 ^ 32)) _ v₂ in
      let (ob, e, n) = save_options-Saves os p.1 (nested_inv _ os v₃) (omega arith) in
      let (b, saved, m) =
        Writes.save_ia_pd-Saves ob i t1 t2 (ltb→lt t1 _ h₁) (ltb→lt t2 _ h₂) (omega arith) in
      (b, rw e saved, omega arith)
  save_option-Saves (ia_prefix a l r w os) p v fit =
      let (h₁, v₁) = require_inv (ltb r (2 ^ 32)) _ v in
      let (h₂, v₂) = require_inv (ltb w (2 ^ 32)) _ v₁ in
      let (routable, v₃) =
        require_inv
          (not (is_link_local_network a l || (is_loopback_network a l || is_multicast_network a l)))
          _ v₂ in
      let (ob, e, n) = save_options-Saves os p.2 (nested_inv _ os v₃) (omega arith) in
      let (b, saved, m) =
        Writes.save_ia_prefix-Saves ob a l r w p.0 (is_network_le a l p.1) (ltb→lt r _ h₁)
          (ltb→lt w _ h₂) (omega arith) in
      (b, rw e saved, omega arith)
  save_option-Saves (relay_message m) p v fit =
      let (mb, e, n) = save_message-Saves m p v (omega arith) in
      let (b, saved, k) = Writes.save_relay_message-Saves mb (omega arith) in
      (b, rw e saved, omega arith)

  save_options-Saves :
      (os : Options)
      → IsProperOptions os
      → validate_options os ≡ ok tt
      → options_size os < 65536
      → Saves (save_options os) (options_size os)
  save_options-Saves nil p v fit = ([], refl, refl)
  save_options-Saves (cons o os) p v fit =
      let (u, v₁, v₂) = >>=-eq-ok (validate_option o) _ v in
      let (bo, e₁, n₁) = save_option-Saves o p.0 v₁ (omega arith) in
      let (bs, e₂, n₂) = save_options-Saves os p.1 v₂ (omega arith) in
      (bo ++ bs, rw (e₁, e₂) refl, omega (arith, length-append {0} bo bs))

  save_message-Saves :
      (m : Message)
      → IsProper m
      → validate_message m ≡ ok tt
      → message_size m < 65536
      → Saves (save_message m) (message_size m)
  save_message-Saves (unknown_message t d) p v fit =
      (t ∷ d, rw (append_byte-ok t (ltb→lt t _ (require-ok (ltb t (2 ^ 8)) v))) refl, omega arith)
  save_message-Saves (client_server c i os) p v fit =
      let (three, v₁) = require_inv (length i == 3) _ v in
      let (u, checked, unique) = >>=-eq-ok _ _ v₁ in
      let (ob, e, n) = save_options-Saves os p.1 (nested_inv _ os checked) (omega arith) in
      (
        client_server_type c ∷ (i ++ ob),
        rw (append_byte-ok (client_server_type c) (client_server_type_lt c), e) refl,
        omega (arith, p.0, length-append {0} i ob),
      )
  save_message-Saves (relay_server c h l q os) p v fit =
      let (hops, v₁) = require_inv (ltb h (2 ^ 8)) _ v in
      let (link, v₂) = require_inv (not (is_multicast l)) _ v₁ in
      let (peer, v₃) = require_inv (not (is_multicast q)) _ v₂ in
      let (ob, e, n) = save_options-Saves os p.2 (nested_inv _ os v₃) (omega arith) in
      (
        relay_type c ∷ h ∷ (l ++ (q ++ ob)),
        rw (append_byte-ok (relay_type c) (relay_type_lt c), append_byte-ok h (ltb→lt h _ hops), e)
            refl,
        omega (arith, p.0, p.1, length-append {0} l (q ++ ob), length-append {0} q ob),
      )

-- A well-formed message (fields of a fixed length have it, texts are UTF-8, a prefix is a network,
-- the subnet-ID of a prefix exclusion has 1 to 16 bytes, unknown elements have type codes without a
-- class) that validate accepts and that takes less than 65536 bytes is saved, and parse reads
-- exactly that message back from the bytes, whose number is the size of the message.
pub validate-parse-save :
    (m : Message)
    → IsProper m
    → validate_message m ≡ ok tt
    → message_size m < 65536
    → (b : Bytes) × (save_message m ≡ ok b) × (parse b none ≡ ok (message_size m, m))
validate-parse-save m p v fit =
    let (b, saved, n) = save_message-Saves m p v fit in (b, saved, rw (← n) (parse-save m p saved))
