-- ===== src/Element/RoundTrip.antt =====
-- Messages and options: what `save` writes, `parse` reads back.
use dhcpkit.Prelude.{
  ℕ, zero, suc, ◌+◌, ◌<◌, ◌≡◌, refl, ap, Option, none, some, [], ◌++◌, length, drop, arith,
  length-append, append_assoc, append-nil, lt→ltb, le→ltb, drop_past,
}
use dhcpkit.Wire.{Bytes, ok}
use dhcpkit.Wire.Laws.{>>=-eq-ok}
use dhcpkit.Header.{available, max_u16, available-some}
use dhcpkit.Element.{
  DhcpOption, leaf, ia_na, ia_ta, ia_address, ia_pd, ia_prefix, relay_message, Options, nil, cons,
  Message, unknown_message, client_server, relay_server, ia_na_option, ia_ta_option,
  ia_address_option, ia_pd_option, ia_prefix_option, relay_message_option, unknown_class,
  client_server_class, relay_class, option_registry, client_server_type, relay_type,
}
use dhcpkit.Element.Load.{
  load_option, load_message, load_leaf_option, load_ia_na, load_ia_ta, load_ia_address, load_ia_pd,
  load_ia_prefix, load_relay_message,
}
use dhcpkit.Element.Parse.{parse_option, parse_options, parse_message, parse}
use dhcpkit.Element.Save.{save_option, save_options, save_message}
use dhcpkit.Element.Classes
use dhcpkit.Element.Classes.{Reads}
use dhcpkit.Element.Sizes
use dhcpkit.Element.Proper.{IsProperOption, IsProperOptions, IsProper}
use dhcpkit.Element.Steps.{
  message_registry-client_server, message_registry-relay, headed, parse_option_step,
  parse_message_step, saved_long, saved_message_long, parse_leaf-save,
}

-- By induction on the element, with fuel for each of its bytes.
mutual
  unfolding parse_options save_option load_option load_message load_leaf_option load_ia_na
      load_ia_ta load_ia_address load_ia_pd load_ia_prefix load_relay_message option_registry

  parse_option-save :
      (o : DhcpOption) (fuel : ℕ) (rest : Bytes) {b : Bytes}
      → IsProperOption o
      → save_option o ≡ ok b
      → length b < fuel
      → parse_option fuel (b ++ rest) none ≡ ok (length b, o)
  parse_option-save o zero rest p h bound = absurd (omega arith)
  parse_option-save (leaf l) (suc fuel) rest {b} p h bound = parse_leaf-save l fuel rest p.0 p.1 h
  parse_option-save (ia_na i t1 t2 os) (suc fuel) rest {b} p h bound =
      let (ob, e, h₁) = >>=-eq-ok (save_options os) _ h in
      let reads =
        parse_options-save os fuel rest p.1 e
          (omega (arith, Sizes.length-save_ia_na ob i t1 t2 h₁)) in
      let loaded = Classes.load_ia_na-save (parse_options fuel) os ob rest reads i t1 t2 p.0 h₁ in
      parse_option_step ia_na_option 3 fuel (b ++ rest) none
        (headed 3 12 max_u16 (b ++ rest) _ loaded) refl loaded
  parse_option-save (ia_ta i os) (suc fuel) rest {b} p h bound =
      let (ob, e, h₁) = >>=-eq-ok (save_options os) _ h in
      let reads =
        parse_options-save os fuel rest p.1 e (omega (arith, Sizes.length-save_ia_ta ob i h₁)) in
      let loaded = Classes.load_ia_ta-save (parse_options fuel) os ob rest reads i p.0 h₁ in
      parse_option_step ia_ta_option 4 fuel (b ++ rest) none
        (headed 4 4 max_u16 (b ++ rest) _ loaded) refl loaded
  parse_option-save (ia_address a r v os) (suc fuel) rest {b} p h bound =
      let (ob, e, h₁) = >>=-eq-ok (save_options os) _ h in
      let reads =
        parse_options-save os fuel rest p.1 e
          (omega (arith, Sizes.length-save_ia_address ob a r v h₁)) in
      let loaded =
        Classes.load_ia_address-save (parse_options fuel) os ob rest reads a r v p.0 h₁ in
      parse_option_step ia_address_option 5 fuel (b ++ rest) none
        (headed 5 24 max_u16 (b ++ rest) _ loaded) refl loaded
  parse_option-save (ia_pd i t1 t2 os) (suc fuel) rest {b} p h bound =
      let (ob, e, h₁) = >>=-eq-ok (save_options os) _ h in
      let reads =
        parse_options-save os fuel rest p.1 e
          (omega (arith, Sizes.length-save_ia_pd ob i t1 t2 h₁)) in
      let loaded = Classes.load_ia_pd-save (parse_options fuel) os ob rest reads i t1 t2 p.0 h₁ in
      parse_option_step ia_pd_option 25 fuel (b ++ rest) none
        (headed 25 12 max_u16 (b ++ rest) _ loaded) refl loaded
  parse_option-save (ia_prefix a l r v os) (suc fuel) rest {b} p h bound =
      let (ob, e, h₁) = >>=-eq-ok (save_options os) _ h in
      let reads =
        parse_options-save os fuel rest p.2 e
          (omega (arith, Sizes.length-save_ia_prefix ob a l r v h₁)) in
      let loaded =
        Classes.load_ia_prefix-save (parse_options fuel) os ob rest reads a l r v p.0 p.1 h₁ in
      parse_option_step ia_prefix_option 26 fuel (b ++ rest) none
        (headed 26 25 max_u16 (b ++ rest) _ loaded) refl loaded
  parse_option-save (relay_message m) (suc fuel) rest {b} p h bound =
      let (mb, e, h₁) = >>=-eq-ok (save_message m) _ h in
      let reads =
        parse_message-save m fuel (some (length mb)) rest p e
          (omega (arith, Sizes.length-save_relay_message mb h₁))
          (available-some (length mb) (mb ++ rest) (saved_message_long m e)) in
      let loaded =
        Classes.load_relay_message-save (parse_message fuel) m mb rest (saved_message_long m e)
          reads h₁ in
      parse_option_step relay_message_option 9 fuel (b ++ rest) none
        (headed 9 1 max_u16 (b ++ rest) _ loaded) refl loaded

  parse_options-save :
      (os : Options) (fuel : ℕ) (rest : Bytes) {b : Bytes}
      → IsProperOptions os
      → save_options os ≡ ok b
      → length b + 1 < fuel
      → Reads (parse_options fuel) os b rest
  parse_options-save os zero rest p h bound view start stop e s = absurd (omega arith)
  parse_options-save nil (suc fuel) rest {b} p h bound view start stop e s =
      let empty : b ≡ [] = cc in
      let none_left : length b ≡ 0 = ap length empty in
      rw (le→ltb start stop (omega arith)) (ap (λ n. ok (nil, n)) (omega arith))
  parse_options-save (cons o os) (suc fuel) rest {b} p h bound view start stop e s =
      let (bo, e₁, h₁) = >>=-eq-ok (save_option o) _ h in
      let (bs, e₂, h₂) = >>=-eq-ok (save_options os) _ h₁ in
      let written : b ≡ bo ++ bs = cc in
      let total : length b ≡ length bo + length bs = rw written (length-append bo bs) in
      let long = saved_long o p.0 e₁ in
      let here : drop start view ≡ bo ++ (bs ++ rest) = rw (written, append_assoc) at e in
      let first_option = parse_option-save o fuel (bs ++ rest) p.0 e₁ (omega arith) in
      let others =
        parse_options-save os fuel rest p.1 e₂ (omega arith) view (start + length bo) stop
          (drop_past view bo (bs ++ rest) start here) (omega arith) in
      rw (lt→ltb start stop (omega arith), here, first_option, others)

  parse_message-save :
      (m : Message) (fuel : ℕ) (len : Option ℕ) (rest : Bytes) {b : Bytes}
      → IsProper m
      → save_message m ≡ ok b
      → length b < fuel
      → available len (b ++ rest) ≡ length b
      → parse_message fuel (b ++ rest) len ≡ ok (length b, m)
  parse_message-save m zero len rest p h bound whole = absurd (omega arith)
  parse_message-save (unknown_message t d) (suc fuel) len rest {b} p h bound whole =
      parse_message_step unknown_class t fuel (b ++ rest) len
        (rw (Sizes.save_unknown_message_inv t d h)) p
        (Classes.load_unknown_message-save t d rest len h whole)
  parse_message-save (client_server c i os) (suc fuel) len rest {b} p h bound whole =
      let (ob, e) = Sizes.saved_options_client_server c i (save_options os) h in
      let h₁ = rw e at h in
      let written = Sizes.save_client_server_inv ob c i h₁ in
      let reads =
        parse_options-save os fuel rest p.1 e
          (omega (arith, p.0, ap length written, length-append {0} i ob)) in
      parse_message_step (client_server_class c) (client_server_type c) fuel (b ++ rest) len
        (rw written) (message_registry-client_server c)
        (Classes.load_client_server-save (parse_options fuel) os ob rest reads c i len p.0 h₁ whole)
  parse_message-save (relay_server c k l r os) (suc fuel) len rest {b} p h bound whole =
      let (ob, e) = Sizes.saved_options_relay_server c k l r (save_options os) h in
      let h₁ = rw e at h in
      let written = Sizes.save_relay_server_inv ob c k l r h₁ in
      let total = length-append l (r ++ ob) in
      let reads =
        parse_options-save os fuel rest p.2 e
          (omega (arith, p.0, p.1, ap length written, total, length-append {0} r ob)) in
      parse_message_step (relay_class c) (relay_type c) fuel (b ++ rest) len (rw written)
        (message_registry-relay c)
        (Classes.load_relay_server-save (parse_options fuel) os ob rest reads c k l r len p.0 p.1 h₁
          whole)

-- A well-formed message (fields of a fixed length have it, texts are UTF-8, a prefix is a network,
-- the subnet-ID of a prefix exclusion has 1 to 16 bytes, unknown elements have type codes without a
-- class) that save writes is what parse reads back from those bytes without a length, and parse
-- uses all of them.
pub parse-save :
    (m : Message) {b : Bytes} → IsProper m → save_message m ≡ ok b → parse b none ≡ ok (length b, m)
unfolding parse
parse-save m {b} p h =
    let whole = parse_message-save m (length b + 3) none [] p h (omega arith) (rw append-nil) in
    rw append-nil at whole

-- A well-formed message (fields of a fixed length have it, texts are UTF-8, a prefix is a network,
-- the subnet-ID of a prefix exclusion has 1 to 16 bytes, unknown elements have type codes without a
-- class) that save writes is what parse reads back from those bytes when it is given their number
-- as the length, whatever bytes follow.
pub parse-save_within :
    (m : Message) (rest : Bytes) {b : Bytes}
    → IsProper m
    → save_message m ≡ ok b
    → parse (b ++ rest) (some (length b)) ≡ ok (length b, m)
unfolding parse
parse-save_within m rest {b} p h =
    parse_message-save m (length (b ++ rest) + 3) (some (length b)) rest p h
      (omega (arith, length-append {0} b rest))
      (available-some (length b) (b ++ rest) (saved_message_long m h))
