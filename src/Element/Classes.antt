-- ===== src/Element/Classes.antt =====
-- Each class with nested elements: what its `save` writes its `load_from` reads back, if the parser
-- of the nested elements does so.
use dhcpkit.Prelude.{
  ℕ, suc, ◌+◌, ◌-◌, ◌<◌, ◌≤◌, ◌≡◌, refl, ap, sym, ◌∙◌, true, Option, none, some, [], ◌∷◌, ◌++◌,
  length, take, drop, arith, length-append, append_assoc, take-append, drop-append_add, ==_refl,
}
use dhcpkit.Wire.{Bytes, ok, u8, u16, u32, raw, pad, pack}
use dhcpkit.Wire.Laws.{encode, pack_inv, pack_append_inv, >>=-eq-ok, from_parts32}
use dhcpkit.Address.{Address, IsAddress, is_network, ipv6_address-ok}
use dhcpkit.Header.{available, head_of, max_u16, parse_option_header-head}
use dhcpkit.Element.{
  Options, Message, ia_na, ia_ta, ia_address, ia_pd, ia_prefix, relay_message, ClientServerClass,
  RelayClass, client_server, relay_server, unknown_message, client_server_type, relay_type,
}
use dhcpkit.Element.Load.{
  OptionLoop, MessageParser, load_ia_na, load_ia_ta, load_ia_address, load_ia_pd, load_ia_prefix,
  load_relay_message, load_unknown_message, load_client_server, load_relay_server,
}
use dhcpkit.Element.Save.{
  append_byte, save_ia_na, save_ia_ta, save_ia_address, save_ia_pd, save_ia_prefix,
  save_relay_message, save_unknown_message, save_client_server, save_relay_server,
}

four : (bs : Bytes) → length bs ≡ 4 → (a b c d : ℕ) × (bs ≡ a ∷ b ∷ c ∷ d ∷ [])
four [] h = absurd (omega arith)
four (a ∷ []) h = absurd (omega arith)
four (a ∷ b ∷ []) h = absurd (omega arith)
four (a ∷ b ∷ c ∷ []) h = absurd (omega arith)
four (a ∷ b ∷ c ∷ d ∷ []) h = (a, b, c, d, refl)
four (a ∷ b ∷ c ∷ d ∷ e ∷ bs) h = absurd (omega arith)

three : (bs : Bytes) → length bs ≡ 3 → (a b c : ℕ) × (bs ≡ a ∷ b ∷ c ∷ [])
three [] h = absurd (omega arith)
three (a ∷ []) h = absurd (omega arith)
three (a ∷ b ∷ []) h = absurd (omega arith)
three (a ∷ b ∷ c ∷ []) h = (a, b, c, refl)
three (a ∷ b ∷ c ∷ d ∷ bs) h = absurd (omega arith)

pub append_byte_inv : (n : ℕ) {b : Bytes} → append_byte n ≡ ok b → b ≡ n ∷ []
append_byte_inv n h = ground arith

-- The loop reads `options` where `saved` stands.
abbrev pub Reads : OptionLoop → Options → Bytes → Bytes → Type 0
Reads loop options saved rest =
    (view : Bytes) (start stop : ℕ)
    → drop start view ≡ saved ++ rest
    → stop ≡ start + length saved
    → loop view stop start ≡ ok (options, stop)

room : (data_bytes rest : Bytes) → length data_bytes ≤ length (data_bytes ++ rest)
room data_bytes rest = omega (arith, length-append {0} data_bytes rest)

take_address : (a tail : Bytes) → IsAddress a → take 16 (a ++ tail) ≡ a
take_address a tail p = ap (λ (k : ℕ). take k (a ++ tail)) (sym p) ∙ take-append a tail

past_address : (a tail : Bytes) (k : ℕ) → IsAddress a → drop (16 + k) (a ++ tail) ≡ drop k tail
past_address a tail k p =
    ap (λ (j : ℕ). drop (j + k) (a ++ tail)) (sym p) ∙ drop-append_add k a tail

module _ (loop : OptionLoop) (options : Options) (saved rest : Bytes)
    (reads : Reads loop options saved rest) where
  pub load_ia_na-save :
      (iaid : Bytes) (t1 t2 : ℕ) {b : Bytes}
      → length iaid ≡ 4
      → save_ia_na iaid t1 t2 saved ≡ ok b
      → load_ia_na loop (b ++ rest) none ≡ ok (length b, ia_na iaid t1 t2 options)
  unfolding save_ia_na load_ia_na pad
  load_ia_na-save iaid t1 t2 p h =
      let (i, j, k, l, e) = four iaid p in
      let n = length saved + 12 in
      let (fit, written) =
        pack_append_inv (u16 3 ∷ u16 n ∷ raw 4 iaid ∷ u32 t1 ∷ u32 t2 ∷ []) saved h in
      let data_bytes = i ∷ j ∷ k ∷ l ∷ (encode (u32 t1 ∷ u32 t2 ∷ []) ++ saved) in
      rw
        (
          written,
          e,
          parse_option_header-head 3 n 12 max_u16 (data_bytes ++ rest) (omega arith) (omega arith)
              (omega (arith, length-append {0} saved rest)),
          from_parts32 t1,
          from_parts32 t2,
          reads (head_of 3 n ++ (data_bytes ++ rest)) 16 (n + 4) refl (omega arith),
          ==_refl,
        )
        (ap (λ m. ok (m, ia_na (i ∷ j ∷ k ∷ l ∷ []) t1 t2 options)) (omega arith))

  pub load_ia_pd-save :
      (iaid : Bytes) (t1 t2 : ℕ) {b : Bytes}
      → length iaid ≡ 4
      → save_ia_pd iaid t1 t2 saved ≡ ok b
      → load_ia_pd loop (b ++ rest) none ≡ ok (length b, ia_pd iaid t1 t2 options)
  unfolding save_ia_pd load_ia_pd pad
  load_ia_pd-save iaid t1 t2 p h =
      let (i, j, k, l, e) = four iaid p in
      let n = length saved + 12 in
      let (fit, written) =
        pack_append_inv (u16 25 ∷ u16 n ∷ raw 4 iaid ∷ u32 t1 ∷ u32 t2 ∷ []) saved h in
      let data_bytes = i ∷ j ∷ k ∷ l ∷ (encode (u32 t1 ∷ u32 t2 ∷ []) ++ saved) in
      rw
        (
          written,
          e,
          parse_option_header-head 25 n 12 max_u16 (data_bytes ++ rest) (omega arith) (omega arith)
              (omega (arith, length-append {0} saved rest)),
          from_parts32 t1,
          from_parts32 t2,
          reads (head_of 25 n ++ (data_bytes ++ rest)) 16 (n + 4) refl (omega arith),
          ==_refl,
        )
        (ap (λ m. ok (m, ia_pd (i ∷ j ∷ k ∷ l ∷ []) t1 t2 options)) (omega arith))

  pub load_ia_ta-save :
      (iaid : Bytes) {b : Bytes}
      → length iaid ≡ 4
      → save_ia_ta iaid saved ≡ ok b
      → load_ia_ta loop (b ++ rest) none ≡ ok (length b, ia_ta iaid options)
  unfolding save_ia_ta load_ia_ta pad
  load_ia_ta-save iaid p h =
      let (i, j, k, l, e) = four iaid p in
      let n = length saved + 4 in
      let (fit, written) = pack_append_inv (u16 4 ∷ u16 n ∷ raw 4 iaid ∷ []) saved h in
      let data_bytes = i ∷ j ∷ k ∷ l ∷ saved in
      rw
        (
          written,
          e,
          parse_option_header-head 4 n 4 max_u16 (data_bytes ++ rest) (omega arith) (omega arith)
              (omega (arith, length-append {0} saved rest)),
          reads (head_of 4 n ++ (data_bytes ++ rest)) 8 (n + 4) refl (omega arith),
          ==_refl,
        )
        (ap (λ m. ok (m, ia_ta (i ∷ j ∷ k ∷ l ∷ []) options)) (omega arith))

  pub load_ia_address-save :
      (a : Address) (preferred valid : ℕ) {b : Bytes}
      → IsAddress a
      → save_ia_address a preferred valid saved ≡ ok b
      → load_ia_address loop (b ++ rest) none ≡ ok (length b, ia_address a preferred valid options)
  unfolding save_ia_address load_ia_address
  load_ia_address-save a preferred valid {b} p h =
      let n = length saved + 24 in
      let (head, e₁, h₁) = >>=-eq-ok (pack (u16 5 ∷ u16 n ∷ [])) _ h in
      let (fit, head_written) = pack_inv (u16 5 ∷ u16 n ∷ []) e₁ in
      let (lifetimes, e₂, h₂) = >>=-eq-ok (pack (u32 preferred ∷ u32 valid ∷ [])) _ h₁ in
      let lifetimes_written = (pack_inv (u32 preferred ∷ u32 valid ∷ []) e₂).1 in
      let behind = encode (u32 preferred ∷ u32 valid ∷ []) ++ saved in
      let written : b ≡ head_of 5 n ++ (a ++ behind) = cc in
      let tail = behind ++ rest in
      let total = length-append a behind in
      rw
        (
          written,
          append_assoc a behind rest,
          parse_option_header-head 5 n 24 max_u16 (a ++ tail) (omega arith) (omega arith)
              (omega (arith, p, length-append {0} a tail, length-append {0} saved rest)),
          take_address a tail p,
          ipv6_address-ok a p,
          past_address a tail 0 p,
          past_address a tail 4 p,
          from_parts32 preferred,
          from_parts32 valid,
          reads (head_of 5 n ++ (a ++ tail)) 28 (n + 4) (past_address a tail 8 p) (omega arith),
          ==_refl,
        )
        (ap (λ m. ok (m, ia_address a preferred valid options)) (omega (arith, p, total)))

  pub load_ia_prefix-save :
      (a : Address) (len preferred valid : ℕ) {b : Bytes}
      → IsAddress a
      → is_network a len ≡ true
      → save_ia_prefix a len preferred valid saved ≡ ok b
      → load_ia_prefix loop (b ++ rest) none
        ≡ ok (length b, ia_prefix a len preferred valid options)
  unfolding save_ia_prefix load_ia_prefix
  load_ia_prefix-save a len preferred valid p network h =
      let n = length saved + 25 in
      let (fit, written) =
        pack_append_inv (u16 26 ∷ u16 n ∷ u32 preferred ∷ u32 valid ∷ u8 len ∷ []) (a ++ saved) h in
      let tail = saved ++ rest in
      let data_bytes = encode (u32 preferred ∷ u32 valid ∷ u8 len ∷ []) ++ (a ++ tail) in
      rw
        (
          written,
          append_assoc a saved rest,
          parse_option_header-head 26 n 25 max_u16 data_bytes (omega arith) (omega arith)
              (omega (arith, p, length-append {0} a tail, length-append {0} saved rest)),
          from_parts32 preferred,
          from_parts32 valid,
          take_address a tail p,
          ipv6_address-ok a p,
          network,
          reads (head_of 26 n ++ data_bytes) 29 (n + 4) (past_address a tail 0 p) (omega arith),
          ==_refl,
        )
        (ap (λ m. ok (m, ia_prefix a len preferred valid options))
          (omega (arith, p, length-append {0} a saved)))

  pub load_client_server-save :
      (c : ClientServerClass) (transaction_id : Bytes) (len : Option ℕ) {b : Bytes}
      → length transaction_id ≡ 3
      → save_client_server c transaction_id (ok saved) ≡ ok b
      → available len (b ++ rest) ≡ length b
      → load_client_server c loop (b ++ rest) len
        ≡ ok (length b, client_server c transaction_id options)
  unfolding save_client_server load_client_server
  load_client_server-save c transaction_id len {b} p h whole =
      let (head, e₁, h₁) = >>=-eq-ok (append_byte (client_server_type c)) _ h in
      let (i, j, k, e) = three transaction_id p in
      let view = client_server_type c ∷ i ∷ j ∷ k ∷ saved in
      let written : b ≡ view = cc (append_byte_inv (client_server_type c) e₁) in
      rw (whole, written, e, ==_refl, reads (view ++ rest) 4 (length view) refl (omega arith)) refl

  pub load_relay_server-save :
      (c : RelayClass) (hop_count : ℕ) (link peer : Address) (len : Option ℕ) {b : Bytes}
      → IsAddress link
      → IsAddress peer
      → save_relay_server c hop_count link peer (ok saved) ≡ ok b
      → available len (b ++ rest) ≡ length b
      → load_relay_server c loop (b ++ rest) len
        ≡ ok (length b, relay_server c hop_count link peer options)
  unfolding save_relay_server load_relay_server
  load_relay_server-save c hop_count link peer len {b} p q h whole =
      let (head, e₁, h₁) = >>=-eq-ok (append_byte (relay_type c)) _ h in
      let (hops, e₂, h₂) = >>=-eq-ok (append_byte hop_count) _ h₁ in
      let view = relay_type c ∷ hop_count ∷ (link ++ (peer ++ saved)) in
      let written : b ≡ view =
        cc (append_byte_inv (relay_type c) e₁, append_byte_inv hop_count e₂) in
      let tail = saved ++ rest in
      let behind : drop 32 (link ++ (peer ++ tail)) ≡ tail =
        past_address link (peer ++ tail) 16 p ∙ past_address peer tail 0 q in
      rw
        (
          whole,
          written,
          append_assoc link (peer ++ saved) rest,
          append_assoc peer saved rest,
          take_address link (peer ++ tail) p,
          ipv6_address-ok link p,
          past_address link (peer ++ tail) 0 p,
          take_address peer tail q,
          ipv6_address-ok peer q,
          reads (relay_type c ∷ hop_count ∷ (link ++ (peer ++ tail))) 34 (length view) behind (
              omega (
                arith,
                p,
                q,
                length-append {0} link (peer ++ saved),
                length-append {0} peer saved,
              )),
        )
        refl

pub load_relay_message-save :
    (parse : MessageParser) (m : Message) (saved rest : Bytes) {b : Bytes}
    → 0 < length saved
    → parse (saved ++ rest) (some (length saved)) ≡ ok (length saved, m)
    → save_relay_message saved ≡ ok b
    → load_relay_message parse (b ++ rest) none ≡ ok (length b, relay_message m)
unfolding save_relay_message load_relay_message
load_relay_message-save parse m saved rest nonempty reads h =
    let n = length saved in
    let (fit, written) = pack_append_inv (u16 9 ∷ u16 n ∷ []) saved h in
    rw
      (
        written,
        parse_option_header-head 9 n 1 max_u16 (saved ++ rest) (omega arith) (omega arith)
            (room saved rest),
        reads,
        ==_refl,
      )
      (ap (λ k. ok (k, relay_message m)) (omega arith))

pub load_unknown_message-save :
    (t : ℕ) (d rest : Bytes) (len : Option ℕ) {b : Bytes}
    → save_unknown_message t d ≡ ok b
    → available len (b ++ rest) ≡ length b
    → load_unknown_message (b ++ rest) len ≡ ok (length b, unknown_message t d)
unfolding save_unknown_message load_unknown_message
load_unknown_message-save t d rest len {b} h whole =
    let (head, e₁, h₁) = >>=-eq-ok (append_byte t) _ h in
    let written : b ≡ t ∷ d = cc (append_byte_inv t e₁) in
    let left : suc (length d) - 1 ≡ length d = omega arith in
    rw (whole, written, left, take-append d rest)
      (ap (λ k. ok (k, unknown_message t d)) (omega arith))
