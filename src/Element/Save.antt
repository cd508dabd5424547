-- ===== src/Element/Save.antt =====
-- `save` of the options with nested options, of RelayMessageOption and of the messages. The bytes of
-- the nested elements are arguments of the functions for each class; the block at the end ties the
-- knot.
use dhcpkit.Prelude.{ℕ, ◌+◌, [], ◌∷◌, ◌++◌, length, ltb, if◌then◌else◌}
use dhcpkit.Wire.{Bytes, Result, ok, err, value_error, ◌>>=◌, u8, u16, u32, raw, pack}
use dhcpkit.Address.{Address}
use dhcpkit.Leaf.Save.{save_leaf}
use dhcpkit.Element.{
  DhcpOption, leaf, ia_na, ia_ta, ia_address, ia_pd, ia_prefix, relay_message, Options, nil, cons,
  Message, unknown_message, client_server, relay_server, ClientServerClass, RelayClass,
  client_server_type, relay_type,
}

-- buffer.append(n), which raises a ValueError for what is no byte.
abbrev pub append_byte : ℕ → Result Bytes
append_byte n = if ltb n 256 then ok (n ∷ []) else err value_error

unfoldable pub save_ia_na : Bytes → ℕ → ℕ → Bytes → Result Bytes
save_ia_na iaid t1 t2 options_buffer = do
  head ← pack (u16 3 ∷ u16 (length options_buffer + 12) ∷ raw 4 iaid ∷ u32 t1 ∷ u32 t2 ∷ [])
  ok (head ++ options_buffer)

unfoldable pub save_ia_ta : Bytes → Bytes → Result Bytes
save_ia_ta iaid options_buffer = do
  head ← pack (u16 4 ∷ u16 (length options_buffer + 4) ∷ raw 4 iaid ∷ [])
  ok (head ++ options_buffer)

unfoldable pub save_ia_address : Address → ℕ → ℕ → Bytes → Result Bytes
save_ia_address address preferred_lifetime valid_lifetime options_buffer = do
  head ← pack (u16 5 ∷ u16 (length options_buffer + 24) ∷ [])
  lifetimes ← pack (u32 preferred_lifetime ∷ u32 valid_lifetime ∷ [])
  ok (head ++ (address ++ (lifetimes ++ options_buffer)))

unfoldable pub save_ia_pd : Bytes → ℕ → ℕ → Bytes → Result Bytes
save_ia_pd iaid t1 t2 options_buffer = do
  head ← pack (u16 25 ∷ u16 (length options_buffer + 12) ∷ raw 4 iaid ∷ u32 t1 ∷ u32 t2 ∷ [])
  ok (head ++ options_buffer)

unfoldable pub save_ia_prefix : Address → ℕ → ℕ → ℕ → Bytes → Result Bytes
save_ia_prefix network_address prefixlen preferred_lifetime valid_lifetime options_buffer = do
  head ← pack (
      u16 26
      ∷ u16 (length options_buffer + 25)
      ∷ u32 preferred_lifetime
      ∷ u32 valid_lifetime
      ∷ u8 prefixlen
      ∷ [])
  ok (head ++ (network_address ++ options_buffer))

unfoldable pub save_relay_message : Bytes → Result Bytes
save_relay_message message = do
  head ← pack (u16 9 ∷ u16 (length message) ∷ [])
  ok (head ++ message)

unfoldable pub save_unknown_message : ℕ → Bytes → Result Bytes
save_unknown_message message_type message_data = do
  head ← append_byte message_type
  ok (head ++ message_data)

unfoldable pub save_client_server : ClientServerClass → Bytes → Result Bytes → Result Bytes
save_client_server c transaction_id saved_options = do
  head ← append_byte (client_server_type c)
  options_buffer ← saved_options
  ok (head ++ (transaction_id ++ options_buffer))

unfoldable pub save_relay_server : RelayClass → ℕ → Address → Address → Result Bytes → Result Bytes
save_relay_server c hop_count link_address peer_address saved_options = do
  head ← append_byte (relay_type c)
  hops ← append_byte hop_count
  options_buffer ← saved_options
  ok (head ++ (hops ++ (link_address ++ (peer_address ++ options_buffer))))

unfoldable mutual
  pub save_option : DhcpOption → Result Bytes
  save_option (leaf l) = save_leaf l
  save_option (ia_na iaid t1 t2 os) = do b ← save_options os; save_ia_na iaid t1 t2 b
  save_option (ia_ta iaid os) = do b ← save_options os; save_ia_ta iaid b
  save_option (ia_address a p v os) = do b ← save_options os; save_ia_address a p v b
  save_option (ia_pd iaid t1 t2 os) = do b ← save_options os; save_ia_pd iaid t1 t2 b
  save_option (ia_prefix a l p v os) = do b ← save_options os; save_ia_prefix a l p v b
  save_option (relay_message m) = do b ← save_message m; save_relay_message b

  -- for option in self.options: options_buffer.extend(option.save())
  pub save_options : Options → Result Bytes
  save_options nil = ok []
  save_options (cons o os) = do b ← save_option o; bs ← save_options os; ok (b ++ bs)

  pub save_message : Message → Result Bytes
  save_message (unknown_message t d) = save_unknown_message t d
  save_message (client_server c i os) = save_client_server c i (save_options os)
  save_message (relay_server c h l p os) = save_relay_server c h l p (save_options os)
