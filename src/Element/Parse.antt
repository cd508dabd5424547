-- ===== src/Element/Parse.antt =====
-- `Option.parse`, the loops over options and `Message.parse`. A nested parser gets a shorter view,
-- and so a unit of fuel less; `Element.Total` proves that the fuel of `parse` is enough.
use dhcpkit.Prelude.{ℕ, zero, suc, ◌+◌, Option, none, ltb, length, drop, if◌then◌else◌}
use dhcpkit.Wire.{Bytes, Result, ok, err, out_of_fuel, ◌>>=◌, byte_at, unpack_u16}
use dhcpkit.Element.{
  DhcpOption, Options, nil, cons, Message, option_registry, message_registry, OptionClass,
  MessageClass,
}
use dhcpkit.Element.Load.{load_option, load_message}

-- Option.determine_class
unfoldable pub determine_option_class : Bytes → Result OptionClass
determine_option_class view = do option_type ← unpack_u16 view 0; ok (option_registry option_type)

-- Message.determine_class
unfoldable pub determine_message_class : Bytes → Result MessageClass
determine_message_class view = do message_type ← byte_at view 0; ok (message_registry message_type)

unfoldable mutual
  pub parse_option : ℕ → Bytes → Option ℕ → Result (ℕ × DhcpOption)
  parse_option zero view len = err out_of_fuel
  parse_option (suc fuel) view len = do
    c ← determine_option_class view
    load_option c (parse_options fuel) (parse_message fuel) view len

  -- while max_offset > my_offset: Option.parse(buffer, offset=offset + my_offset)
  pub parse_options : ℕ → Bytes → ℕ → ℕ → Result (Options × ℕ)
  parse_options zero view max_offset my_offset = err out_of_fuel
  parse_options (suc fuel) view max_offset my_offset =
      let more = do
        (used_buffer, option) ← parse_option fuel (drop my_offset view) none
        (options, stop) ← parse_options fuel view max_offset (my_offset + used_buffer)
        ok (cons option options, stop)
      in if ltb my_offset max_offset then more else ok (nil, my_offset)

  pub parse_message : ℕ → Bytes → Option ℕ → Result (ℕ × Message)
  parse_message zero view len = err out_of_fuel
  parse_message (suc fuel) view len = do
    c ← determine_message_class view
    load_message c (parse_options fuel) view len

-- Message.parse(buffer, offset, length)
unfoldable pub parse : Bytes → Option ℕ → Result (ℕ × Message)
parse view len = parse_message (length view + 3) view len
