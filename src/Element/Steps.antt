-- ===== src/Element/Steps.antt =====
-- One round of the parsers of options and messages, and sizes of what `save` writes.
use dhcpkit.Prelude.{ℕ, suc, ◌+◌, ◌<◌, ◌≤◌, ◌≡◌, refl, ap, ◌∙◌, Option, none, ◌++◌, length, arith}
use dhcpkit.Wire.{Bytes, Result, ok, ◌>>=◌, first, from_u16}
use dhcpkit.Wire.Laws.{>>=-eq-ok, from_parts16}
use dhcpkit.Header.{head_of, parse_option_header}
use dhcpkit.Extension
use dhcpkit.Extension.{ExtensionClass}
use dhcpkit.Leaf
use dhcpkit.Leaf.Body
use dhcpkit.Leaf.Save.{save_leaf}
use dhcpkit.Leaf.RoundTrip.{load_leaf-body}
use dhcpkit.Leaf.{Leaf}
use dhcpkit.Element.{
  DhcpOption, extension_class, leaf, ia_na, ia_ta, ia_address, ia_pd, ia_prefix, relay_message,
  Message, unknown_message, client_server, relay_server, OptionClass, leaf_class, MessageClass,
  client_server_class, relay_class, option_registry, message_registry, ClientServerClass,
  RelayClass, solicit, relay_forward, client_server_type, relay_type,
}
use dhcpkit.Element.Load.{load_option, load_message, load_leaf_option}
use dhcpkit.Element.Parse.{
  determine_option_class, determine_message_class, parse_option, parse_options, parse_message,
}
use dhcpkit.Element.Save.{save_option, save_options, save_message}
use dhcpkit.Element.Sizes
use dhcpkit.Element.Proper.{IsRegistered, IsProperOption}

option_registry-extension :
    (c : ExtensionClass) → option_registry (Extension.type_of_class c) ≡ extension_class c
unfolding option_registry
option_registry-extension Extension.sip_servers_option = refl
option_registry-extension _ = refl

-- The class of an option that is no UnknownOption is found by its type code.
pub option_registry-type_of :
    (l : Leaf) → IsRegistered l → option_registry (Leaf.type_of l) ≡ leaf_class (Leaf.class_of l)
unfolding option_registry
option_registry-type_of (Leaf.unknown t d) h = h
option_registry-type_of (Leaf.extension x) h = option_registry-extension (Extension.class_of x)
option_registry-type_of _ h = refl

pub message_registry-client_server :
    (c : ClientServerClass) → message_registry (client_server_type c) ≡ client_server_class c
unfolding message_registry
message_registry-client_server solicit = refl
message_registry-client_server _ = refl

pub message_registry-relay : (c : RelayClass) → message_registry (relay_type c) ≡ relay_class c
unfolding message_registry
message_registry-relay relay_forward = refl
message_registry-relay _ = refl

-- A head that is accepted has the type code of the class.
head_type :
    (t : ℕ) (view : Bytes) (len : Option ℕ) (low high : ℕ) {r : ℕ × ℕ}
    → parse_option_header t view len low high ≡ ok r
    → from_u16 view ≡ ok t
unfolding parse_option_header
head_type t view len low high h = ground arith

pub headed :
    (t low high : ℕ) (view : Bytes) (k : ℕ × ℕ → Result (ℕ × DhcpOption)) {r : ℕ × DhcpOption}
    → (parse_option_header t view none low high >>= k) ≡ ok r
    → from_u16 view ≡ ok t
headed t low high view k h =
    let (head, e, h₁) = >>=-eq-ok (parse_option_header t view none low high) k h in
    head_type t view none low high e

-- One round of `Option.parse`.
pub parse_option_step :
    (c : OptionClass) (t fuel : ℕ) (view : Bytes) (len : Option ℕ) {r : ℕ × DhcpOption}
    → from_u16 view ≡ ok t
    → option_registry t ≡ c
    → load_option c (parse_options fuel) (parse_message fuel) view len ≡ ok r
    → parse_option (suc fuel) view len ≡ ok r
unfolding parse_option determine_option_class
parse_option_step c t fuel view len read found loaded = rw (read, found, loaded)

pub parse_message_step :
    (c : MessageClass) (t fuel : ℕ) (view : Bytes) (len : Option ℕ) {r : ℕ × Message}
    → first view ≡ ok t
    → message_registry t ≡ c
    → load_message c (parse_options fuel) view len ≡ ok r
    → parse_message (suc fuel) view len ≡ ok r
unfolding parse_message determine_message_class
parse_message_step c t fuel view len read found loaded = rw (read, found, loaded)

-- Every option takes four bytes at least.
pub saved_long :
    (o : DhcpOption) {b : Bytes} → IsProperOption o → save_option o ≡ ok b → 4 ≤ length b
unfolding save_option
saved_long (leaf l) p h = omega (arith, ap length (Body.save_leaf-IsFramed l p.0 h).1)
saved_long (ia_na i t1 t2 os) p h =
    let (ob, e, h₁) = >>=-eq-ok (save_options os) _ h in
    omega (arith, Sizes.length-save_ia_na ob i t1 t2 h₁)
saved_long (ia_ta i os) p h =
    let (ob, e, h₁) = >>=-eq-ok (save_options os) _ h in
    omega (arith, Sizes.length-save_ia_ta ob i h₁)
saved_long (ia_address a r v os) p h =
    let (ob, e, h₁) = >>=-eq-ok (save_options os) _ h in
    omega (arith, Sizes.length-save_ia_address ob a r v h₁)
saved_long (ia_pd i t1 t2 os) p h =
    let (ob, e, h₁) = >>=-eq-ok (save_options os) _ h in
    omega (arith, Sizes.length-save_ia_pd ob i t1 t2 h₁)
saved_long (ia_prefix a l r v os) p h =
    let (ob, e, h₁) = >>=-eq-ok (save_options os) _ h in
    omega (arith, Sizes.length-save_ia_prefix ob a l r v h₁)
saved_long (relay_message m) p h =
    let (ob, e, h₁) = >>=-eq-ok (save_message m) _ h in
    omega (arith, Sizes.length-save_relay_message ob h₁)

-- A saved message is not empty.
pub saved_message_long : (m : Message) {b : Bytes} → save_message m ≡ ok b → 0 < length b
unfolding save_message
saved_message_long (unknown_message t d) h =
    omega (arith, ap length (Sizes.save_unknown_message_inv t d h))
saved_message_long (client_server c i os) h =
    let (ob, e) = Sizes.saved_options_client_server c i (save_options os) h in
    omega (arith, ap length (Sizes.save_client_server_inv ob c i (rw e at h)))
saved_message_long (relay_server c k l p os) h =
    let (ob, e) = Sizes.saved_options_relay_server c k l p (save_options os) h in
    omega (arith, ap length (Sizes.save_relay_server_inv ob c k l p (rw e at h)))

-- An option without nested options, parsed back.
pub parse_leaf-save :
    (l : Leaf) (fuel : ℕ) (rest : Bytes) {b : Bytes}
    → Body.IsProper l
    → IsRegistered l
    → save_leaf l ≡ ok b
    → parse_option (suc fuel) (b ++ rest) none ≡ ok (length b, leaf l)
unfolding load_option load_leaf_option
parse_leaf-save l fuel rest {b} p r h =
    let (fit, written) = Body.save_leaf-IsFramed l p h in
    let data_bytes = Body.body l in
    let view = head_of (Leaf.type_of l) (length data_bytes) ++ (data_bytes ++ rest) in
    let loaded : load_leaf_option (Leaf.class_of l) view none ≡ ok (4 + length data_bytes, leaf l) =
      rw (load_leaf-body l rest p fit) in
    rw written (
      parse_option_step (leaf_class (Leaf.class_of l)) (Leaf.type_of l) fuel view none
        (rw from_parts16) (option_registry-type_of l r) loaded
      ∙ ap (λ n. ok (n, leaf l)) (omega arith))
