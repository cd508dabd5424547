-- ===== src/Element/Total.antt =====
-- Parsing ends on every input: the fuel of `parse` is enough. An option uses four bytes at least and
-- no more than the buffer has.
use dhcpkit.Prelude.{
  ℕ, zero, suc, ◌+◌, ◌-◌, ◌<◌, ◌≤◌, ◌≡◌, ◌≢◌, Option, none, some, length, drop, arith, ltb, ◌==◌,
  ==_iff, Bool-cases, inl, inr, length-drop,
}
use dhcpkit.Wire.{Bytes, ok, err, out_of_fuel, slice}
use dhcpkit.Wire.Ends.{
  Ends, returns, Any, Ends-ne-out_of_fuel, Ends-ok, Ends-bind, Ends-require, Ends-first,
  Ends-from_u16, Ends-from_u32,
}
use dhcpkit.Address.{is_network}
use dhcpkit.Header.{available, max_u16}
use dhcpkit.Header.Ends.{Ends-header, Ends-ipv6_address}
use dhcpkit.Leaf.Ends.{Within, Ends-load_leaf}
use dhcpkit.Leaf.{LeafClass}
use dhcpkit.Element.{
  DhcpOption, OptionClass, leaf_class, ia_na_option, ia_ta_option, ia_address_option, ia_pd_option,
  ia_prefix_option, relay_message_option, MessageClass, unknown_class, client_server_class,
  relay_class, ClientServerClass, RelayClass, client_server_type,
}
use dhcpkit.Element.Load.{
  OptionLoop, MessageParser, load_option, load_message, load_leaf_option, load_ia_na, load_ia_ta,
  load_ia_address, load_ia_pd, load_ia_prefix, load_relay_message, load_unknown_message,
  load_client_server, load_relay_server,
}
use dhcpkit.Element.Parse.{
  determine_option_class, determine_message_class, parse_option, parse_options, parse_message,
  parse,
}

-- The loop ends where it has the fuel, and never goes back.
abbrev LoopEnds : OptionLoop → ℕ → Type 0
LoopEnds loop fuel =
    (view : Bytes) (stop start : ℕ)
    → length view - start + 1 < fuel
    → Ends (λ r. start ≤ r.1) (loop view stop start)

abbrev ParserEnds : MessageParser → ℕ → Type 0
ParserEnds parser fuel =
    (view : Bytes) (len : Option ℕ) → length view + 1 < fuel → Ends Any (parser view len)

module _ (loop : OptionLoop) (parser : MessageParser) (fuel : ℕ) (loop_ends : LoopEnds loop fuel)
    (parser_ends : ParserEnds parser fuel) (view : Bytes) (len : Option ℕ)
    (enough : length view ≤ fuel) where
  Ends-load_ia_na : Ends (Within len view) (load_ia_na loop view len)
  unfolding load_ia_na
  Ends-load_ia_na = Ends-bind (Ends-header 3 view len 12 max_u16) λ (o, n) p.
      Ends-bind (Ends-from_u32 (drop (o + 4) view)) λ _ _.
        Ends-bind (Ends-from_u32 (drop (o + 8) view)) λ _ _.
          Ends-bind (loop_ends view (n + o) (o + 12) (omega arith)) λ (os, stop) q.
            Ends-bind (Ends-require (stop == n + o))
              λ _ e. let reached = (==_iff stop (n + o)).0 e in returns (omega arith)

  Ends-load_ia_pd : Ends (Within len view) (load_ia_pd loop view len)
  unfolding load_ia_pd
  Ends-load_ia_pd = Ends-bind (Ends-header 25 view len 12 max_u16) λ (o, n) p.
      Ends-bind (Ends-from_u32 (drop (o + 4) view)) λ _ _.
        Ends-bind (Ends-from_u32 (drop (o + 8) view)) λ _ _.
          Ends-bind (loop_ends view (n + o) (o + 12) (omega arith)) λ (os, stop) q.
            Ends-bind (Ends-require (stop == n + o))
              λ _ e. let reached = (==_iff stop (n + o)).0 e in returns (omega arith)

  Ends-load_ia_ta : Ends (Within len view) (load_ia_ta loop view len)
  unfolding load_ia_ta
  Ends-load_ia_ta = Ends-bind (Ends-header 4 view len 4 max_u16) λ (o, n) p.
      Ends-bind (loop_ends view (n + o) (o + 4) (omega arith)) λ (os, stop) q.
        Ends-bind (Ends-require (stop == n + o))
          λ _ e. let reached = (==_iff stop (n + o)).0 e in returns (omega arith)

  Ends-load_ia_address : Ends (Within len view) (load_ia_address loop view len)
  unfolding load_ia_address
  Ends-load_ia_address = Ends-bind (Ends-header 5 view len 24 max_u16) λ (o, n) p.
      Ends-bind (Ends-ipv6_address (slice view o 16)) λ _ _.
        Ends-bind (Ends-from_u32 (drop (o + 16) view)) λ _ _.
          Ends-bind (Ends-from_u32 (drop (o + 20) view)) λ _ _.
            Ends-bind (loop_ends view (n + o) (o + 24) (omega arith)) λ (os, stop) q.
              Ends-bind (Ends-require (stop == n + o))
                λ _ e. let reached = (==_iff stop (n + o)).0 e in returns (omega arith)

  Ends-load_ia_prefix : Ends (Within len view) (load_ia_prefix loop view len)
  unfolding load_ia_prefix
  Ends-load_ia_prefix = Ends-bind (Ends-header 26 view len 25 max_u16) λ (o, n) p.
      Ends-bind (Ends-from_u32 (drop o view)) λ _ _.
        Ends-bind (Ends-from_u32 (drop (o + 4) view)) λ _ _.
          Ends-bind (Ends-first (drop (o + 8) view)) λ l _.
            Ends-bind (Ends-ipv6_address (slice view (o + 9) 16)) λ a _.
              Ends-bind (Ends-require (is_network a l)) λ _ _.
                Ends-bind (loop_ends view (n + o) (o + 25) (omega arith)) λ (os, stop) q.
                  Ends-bind (Ends-require (stop == n + o))
                    λ _ e. let reached = (==_iff stop (n + o)).0 e in returns (omega arith)

  Ends-load_relay_message : Ends (Within len view) (load_relay_message parser view len)
  unfolding load_relay_message
  Ends-load_relay_message = Ends-bind (Ends-header 9 view len 1 max_u16) λ (o, n) p.
      Ends-bind (parser_ends (drop o view) (some n) (omega (arith, length-drop o view)))
        λ (k, m) _. Ends-bind (Ends-require (k == n)) λ _ _. returns (omega arith)

  Ends-load_leaf_option : (c : LeafClass) → Ends (Within len view) (load_leaf_option c view len)
  unfolding load_leaf_option
  Ends-load_leaf_option c = Ends-bind (Ends-load_leaf c view len) λ (k, l) p. returns (omega arith)

  Ends-load_option : (c : OptionClass) → Ends (Within len view) (load_option c loop parser view len)
  unfolding load_option
  Ends-load_option (leaf_class c) = Ends-load_leaf_option c
  Ends-load_option ia_na_option = Ends-load_ia_na
  Ends-load_option ia_ta_option = Ends-load_ia_ta
  Ends-load_option ia_address_option = Ends-load_ia_address
  Ends-load_option ia_pd_option = Ends-load_ia_pd
  Ends-load_option ia_prefix_option = Ends-load_ia_prefix
  Ends-load_option relay_message_option = Ends-load_relay_message

module _ (loop : OptionLoop) (fuel : ℕ) (loop_ends : LoopEnds loop fuel) (view : Bytes)
    (len : Option ℕ) (enough : length view < fuel) where
  Ends-load_client_server : (c : ClientServerClass) → Ends Any (load_client_server c loop view len)
  unfolding load_client_server
  Ends-load_client_server c = Ends-bind (Ends-first view) λ t p.
      Ends-bind (Ends-require (t == client_server_type c))
        λ _ _. Ends-bind (loop_ends view (available len view) 4 (omega arith)) λ _ _. returns tt

  Ends-load_relay_server : (c : RelayClass) → Ends Any (load_relay_server c loop view len)
  unfolding load_relay_server
  Ends-load_relay_server c = Ends-bind (Ends-first view) λ t p.
      Ends-bind (Ends-first (drop 1 view)) λ h _.
        Ends-bind (Ends-ipv6_address (slice view 2 16)) λ l _.
          Ends-bind (Ends-ipv6_address (slice view 18 16)) λ r _.
            Ends-bind (loop_ends view (available len view) 34 (omega arith)) λ _ _. returns tt

  Ends-load_message : (c : MessageClass) → Ends Any (load_message c loop view len)
  unfolding load_message load_unknown_message
  Ends-load_message unknown_class = Ends-bind (Ends-first view) λ t p. returns tt
  Ends-load_message (client_server_class c) = Ends-load_client_server c
  Ends-load_message (relay_class c) = Ends-load_relay_server c

Ends-determine_option_class : (view : Bytes) → Ends Any (determine_option_class view)
unfolding determine_option_class
Ends-determine_option_class view = Ends-bind (Ends-from_u16 view) λ t p. returns tt

Ends-determine_message_class : (view : Bytes) → Ends Any (determine_message_class view)
unfolding determine_message_class
Ends-determine_message_class view = Ends-bind (Ends-first view) λ t p. returns tt

-- By induction on the fuel.
mutual
  unfolding parse_option

  Ends-parse_option :
      (fuel : ℕ) (view : Bytes) (len : Option ℕ)
      → length view < fuel
      → Ends (Within len view) (parse_option fuel view len)
  Ends-parse_option zero view len h = absurd (omega arith)
  Ends-parse_option (suc fuel) view len h = Ends-bind (Ends-determine_option_class view) λ c _.
      Ends-load_option (parse_options fuel) (parse_message fuel) fuel (Ends-parse_options fuel)
        (Ends-parse_message fuel) view len (omega arith) c

  Ends-parse_options : (fuel : ℕ) → LoopEnds (parse_options fuel) fuel
  Ends-parse_options zero view stop start h = absurd (omega arith)
  Ends-parse_options (suc fuel) view stop start h = elim (Bool-cases (ltb start stop)) [
    | inl more ↦ rw more (
        Ends-bind
          (Ends-parse_option fuel (drop start view) none (omega (arith, length-drop start view)))
          λ (k, o) p.
            Ends-bind
              (Ends-parse_options fuel view stop (start + k)
                (omega (arith, length-drop start view, p)))
              λ _ q. returns (omega arith))
    | inr done ↦ rw done (returns (omega arith))
  ]

  Ends-parse_message : (fuel : ℕ) → ParserEnds (parse_message fuel) fuel
  Ends-parse_message zero view len h = absurd (omega arith)
  Ends-parse_message (suc fuel) view len h = Ends-bind (Ends-determine_message_class view) λ c _.
      Ends-load_message (parse_options fuel) fuel (Ends-parse_options fuel) view len (omega arith) c

-- For every buffer and length, parse returns a message or raises one of the exceptions of the code;
-- its fuel never runs out, so that the nested loops end.
pub parse-ne-out_of_fuel : (view : Bytes) (len : Option ℕ) → parse view len ≢ err out_of_fuel
unfolding parse
parse-ne-out_of_fuel view len =
    Ends-ne-out_of_fuel (Ends-parse_message (length view + 3) view len (omega arith))

-- With more fuel than the buffer has bytes, an option that is parsed without a length takes at
-- least four bytes and no more than the buffer has.
pub parse_option_bounds :
    (view : Bytes) (fuel used : ℕ) (o : DhcpOption)
    → length view < fuel
    → parse_option fuel view none ≡ ok (used, o)
    → (4 ≤ used) × (used ≤ length view)
parse_option_bounds view fuel used o h e = Ends-ok (Ends-parse_option fuel view none h) e
