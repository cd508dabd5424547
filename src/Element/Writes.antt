-- ===== src/Element/Writes.antt =====
-- `save` of the options with nested options: what is saved, and in how many bytes.
use dhcpkit.Prelude.{ℕ, ◌+◌, ◌<◌, ◌≡◌, refl, [], ◌∷◌, ◌++◌, length, arith, length-append}
use dhcpkit.Wire.{Bytes, Result, ok, u8, u16, u32, raw, pad}
use dhcpkit.Wire.Laws.{encode, pack-encode, length-pad}
use dhcpkit.Address.{Address, IsAddress}
use dhcpkit.Leaf.Body.{body}
use dhcpkit.Element.{
  DhcpOption, leaf, ia_na, ia_ta, ia_address, ia_pd, ia_prefix, relay_message, Options, nil, cons,
  Message, unknown_message, client_server, relay_server,
}
use dhcpkit.Element.Save.{
  save_ia_na, save_ia_ta, save_ia_address, save_ia_pd, save_ia_prefix, save_relay_message,
}

-- The number of bytes on the wire.
abbrev mutual
  pub option_size : DhcpOption → ℕ
  option_size (leaf l) = 4 + length (body l)
  option_size (ia_na i t1 t2 os) = 16 + options_size os
  option_size (ia_ta i os) = 8 + options_size os
  option_size (ia_address a p v os) = 28 + options_size os
  option_size (ia_pd i t1 t2 os) = 16 + options_size os
  option_size (ia_prefix a l p v os) = 29 + options_size os
  option_size (relay_message m) = 4 + message_size m

  pub options_size : Options → ℕ
  options_size nil = 0
  options_size (cons o os) = option_size o + options_size os

  pub message_size : Message → ℕ
  message_size (unknown_message t d) = 1 + length d
  message_size (client_server c i os) = 4 + options_size os
  message_size (relay_server c h l p os) = 34 + options_size os

-- It is saved, in `n` bytes.
abbrev pub Saves : Result Bytes → ℕ → Type 0
Saves r n = (b : Bytes) × (r ≡ ok b) × (length b ≡ n)

module _ (ob : Bytes) where
  pub save_ia_na-Saves :
      (iaid : Bytes) (t1 t2 : ℕ)
      → t1 < 4294967296
      → t2 < 4294967296
      → length ob + 12 < 65536
      → Saves (save_ia_na iaid t1 t2 ob) (16 + length ob)
  unfolding save_ia_na
  save_ia_na-Saves iaid t1 t2 h₁ h₂ fit =
      let fields = u16 3 ∷ u16 (length ob + 12) ∷ raw 4 iaid ∷ u32 t1 ∷ u32 t2 ∷ [] in
      (
        encode fields ++ ob,
        rw (pack-encode fields (omega arith, (fit, (tt, (h₁, (h₂, tt)))))) refl,
        omega (
          arith,
          length-pad 4 iaid,
          length-append {0} (pad 4 iaid) (encode (u32 t1 ∷ u32 t2 ∷ [])),
          length-append {0} (encode fields) ob,
        ),
      )

  pub save_ia_pd-Saves :
      (iaid : Bytes) (t1 t2 : ℕ)
      → t1 < 4294967296
      → t2 < 4294967296
      → length ob + 12 < 65536
      → Saves (save_ia_pd iaid t1 t2 ob) (16 + length ob)
  unfolding save_ia_pd
  save_ia_pd-Saves iaid t1 t2 h₁ h₂ fit =
      let fields = u16 25 ∷ u16 (length ob + 12) ∷ raw 4 iaid ∷ u32 t1 ∷ u32 t2 ∷ [] in
      (
        encode fields ++ ob,
        rw (pack-encode fields (omega arith, (fit, (tt, (h₁, (h₂, tt)))))) refl,
        omega (
          arith,
          length-pad 4 iaid,
          length-append {0} (pad 4 iaid) (encode (u32 t1 ∷ u32 t2 ∷ [])),
          length-append {0} (encode fields) ob,
        ),
      )

  pub save_ia_ta-Saves :
      (iaid : Bytes) → length ob + 4 < 65536 → Saves (save_ia_ta iaid ob) (8 + length ob)
  unfolding save_ia_ta
  save_ia_ta-Saves iaid fit =
      let fields = u16 4 ∷ u16 (length ob + 4) ∷ raw 4 iaid ∷ [] in
      (
        encode fields ++ ob,
        rw (pack-encode fields (omega arith, (fit, (tt, tt)))) refl,
        omega (
          arith,
          length-pad 4 iaid,
          length-append {0} (pad 4 iaid) [],
          length-append {0} (encode fields) ob,
        ),
      )

  pub save_ia_address-Saves :
      (a : Address) (p v : ℕ)
      → IsAddress a
      → p < 4294967296
      → v < 4294967296
      → length ob + 24 < 65536
      → Saves (save_ia_address a p v ob) (28 + length ob)
  unfolding save_ia_address
  save_ia_address-Saves a p v is h₁ h₂ fit =
      let head = u16 5 ∷ u16 (length ob + 24) ∷ [] in
      let lifetimes = u32 p ∷ u32 v ∷ [] in
      (
        encode head ++ (a ++ (encode lifetimes ++ ob)),
        rw (pack-encode head (omega arith, (fit, tt)), pack-encode lifetimes (h₁, (h₂, tt))) refl,
        omega (arith, is, length-append {0} a (encode lifetimes ++ ob)),
      )

  pub save_ia_prefix-Saves :
      (a : Address) (l p v : ℕ)
      → IsAddress a
      → l < 256
      → p < 4294967296
      → v < 4294967296
      → length ob + 25 < 65536
      → Saves (save_ia_prefix a l p v ob) (29 + length ob)
  unfolding save_ia_prefix
  save_ia_prefix-Saves a l p v is h₀ h₁ h₂ fit =
      let fields = u16 26 ∷ u16 (length ob + 25) ∷ u32 p ∷ u32 v ∷ u8 l ∷ [] in
      (
        encode fields ++ (a ++ ob),
        rw (pack-encode fields (omega arith, (fit, (h₁, (h₂, (h₀, tt)))))) refl,
        omega (arith, is, length-append {0} a ob),
      )

  pub save_relay_message-Saves : length ob < 65536 → Saves (save_relay_message ob) (4 + length ob)
  unfolding save_relay_message
  save_relay_message-Saves fit =
      let fields = u16 9 ∷ u16 (length ob) ∷ [] in
      (encode fields ++ ob, rw (pack-encode fields (omega arith, (fit, tt))) refl, omega arith)
