-- ===== src/Leaf/Ends.antt =====
-- The parsers of options without nested options end on every input, and use the four bytes of the
-- head at least and what the buffer has at most.
use dhcpkit.Wire.Codes.{Ends-unpack_u16s}
use dhcpkit.Prelude.{
  ℕ, zero, suc, ◌+◌, ◌-◌, ◌/◌, ◌%◌, ◌<◌, ◌≤◌, Option, some, drop, arith, leb, ltb, ◌==◌, leb→le,
  ltb→lt, ==_iff, Bool-cases, inl, inr,
}
use dhcpkit.Wire.{Bytes, Result, slice}
use dhcpkit.Wire.Ends.{
  Ends, returns, Ends-bind, Ends-require, Ends-first, Ends-from_u16, Ends-from_u32,
}
use dhcpkit.Header.{available, max_u16}
use dhcpkit.Extension.{ExtensionClass}
use dhcpkit.Extension.Ends.{Ends-load_extension}
use dhcpkit.Leaf
use dhcpkit.Leaf.{LeafClass}
use dhcpkit.Duid.Ends.{Ends-parse_duid}
use dhcpkit.Header.Ends.{Ends-header, Ends-ipv6_address, Ends-decode}
use dhcpkit.Leaf.Load.{
  load_leaf, load_unknown, load_client_id, load_server_id, load_option_request, load_preference,
  load_elapsed_time, load_authentication, load_server_unicast, load_status_code, load_rapid_commit,
  load_user_class, load_vendor_class, load_vendor_specific_information, load_interface_id,
  load_reconfigure_message, load_reconfigure_accept, load_extension_option, load_strings,
  load_vendor_options,
}

abbrev pub Within {ℓ} : {A : Type ℓ} → Option ℕ → Bytes → ℕ × A → Type 0
Within len view r = (4 ≤ r.0) × (r.0 ≤ available len view)

-- Each round adds two to the offset, so as many rounds as bytes to go are enough.
Ends-load_strings :
    (fuel : ℕ) (view : Bytes) (stop start : ℕ)
    → stop - start < fuel
    → Ends (λ r. start ≤ r.1) (load_strings fuel view stop start)
unfolding load_strings
Ends-load_strings zero view stop start h = absurd (omega arith)
Ends-load_strings (suc fuel) view stop start h = elim (Bool-cases (ltb start stop)) [
  | inl more ↦ rw more (
      Ends-bind (Ends-from_u16 (drop start view)) λ n _.
        Ends-bind
          (Ends-load_strings fuel view stop (start + 2 + n) (omega (arith, ltb→lt start stop more)))
          λ r p. returns (omega arith))
  | inr done ↦ rw done (returns (omega arith))
]

Ends-load_vendor_options :
    (fuel : ℕ) (view : Bytes) (stop start : ℕ)
    → stop - start < fuel
    → Ends (λ r. start ≤ r.1) (load_vendor_options fuel view stop start)
unfolding load_vendor_options
Ends-load_vendor_options zero view stop start h = absurd (omega arith)
Ends-load_vendor_options (suc fuel) view stop start h = elim (Bool-cases (ltb start stop)) [
  | inl more ↦ rw more (
      Ends-bind (Ends-from_u16 (drop start view)) λ c _.
        Ends-bind (Ends-from_u16 (drop (start + 2) view)) λ n _.
          Ends-bind
            (Ends-load_vendor_options fuel view stop (start + 4 + n)
              (omega (arith, ltb→lt start stop more)))
            λ r p. returns (omega arith))
  | inr done ↦ rw done (returns (omega arith))
]

abbrev EndsWithin : (Bytes → Option ℕ → Result (ℕ × Leaf.Leaf)) → Type 0
EndsWithin load = (view : Bytes) (len : Option ℕ) → Ends (Within len view) (load view len)

Ends-load_unknown : EndsWithin load_unknown
unfolding load_unknown
Ends-load_unknown view len = Ends-bind (Ends-from_u16 view) λ t _.
    Ends-bind (Ends-from_u16 (drop 2 view)) λ n _.
      Ends-bind (Ends-require (leb (4 + n) (available len view)))
        λ _ p. returns (omega arith, leb→le _ _ p)

Ends-load_client_id : EndsWithin load_client_id
unfolding load_client_id
Ends-load_client_id view len =
    Ends-bind (Ends-header 1 view len 2 max_u16)
      λ (o, n) p. Ends-bind (Ends-parse_duid (drop o view) (some n)) λ r q. returns (omega arith)

Ends-load_server_id : EndsWithin load_server_id
unfolding load_server_id
Ends-load_server_id view len =
    Ends-bind (Ends-header 2 view len 2 max_u16)
      λ (o, n) p. Ends-bind (Ends-parse_duid (drop o view) (some n)) λ r q. returns (omega arith)

Ends-load_option_request : EndsWithin load_option_request
unfolding load_option_request
Ends-load_option_request view len = Ends-bind (Ends-header 6 view len 0 max_u16) λ (o, n) p.
    Ends-bind (Ends-require (n % 2 == 0))
      λ _ _. Ends-bind (Ends-unpack_u16s (n / 2) (drop o view)) λ r q. returns (omega arith)

Ends-load_preference : EndsWithin load_preference
unfolding load_preference
Ends-load_preference view len =
    Ends-bind (Ends-header 7 view len 1 1)
      λ (o, n) p. Ends-bind (Ends-first (drop o view)) λ r q. returns (omega arith)

Ends-load_elapsed_time : EndsWithin load_elapsed_time
unfolding load_elapsed_time
Ends-load_elapsed_time view len =
    Ends-bind (Ends-header 8 view len 2 2)
      λ (o, n) p. Ends-bind (Ends-from_u16 (drop o view)) λ r q. returns (omega arith)

Ends-load_authentication : EndsWithin load_authentication
unfolding load_authentication
Ends-load_authentication view len = Ends-bind (Ends-header 11 view len 11 max_u16) λ (o, n) p.
    Ends-bind (Ends-first (drop o view)) λ _ _.
      Ends-bind (Ends-first (drop (o + 1) view))
        λ _ _. Ends-bind (Ends-first (drop (o + 2) view)) λ _ _. returns (omega arith)

Ends-load_server_unicast : EndsWithin load_server_unicast
unfolding load_server_unicast
Ends-load_server_unicast view len =
    Ends-bind (Ends-header 12 view len 16 16)
      λ (o, n) p. Ends-bind (Ends-ipv6_address (slice view o 16)) λ r q. returns (omega arith)

Ends-load_status_code : EndsWithin load_status_code
unfolding load_status_code
Ends-load_status_code view len = Ends-bind (Ends-header 13 view len 2 max_u16) λ (o, n) p.
    Ends-bind (Ends-from_u16 (drop o view))
      λ _ _. Ends-bind (Ends-decode (slice view (o + 2) (n - 2))) λ r q. returns (omega arith)

Ends-load_rapid_commit : EndsWithin load_rapid_commit
unfolding load_rapid_commit
Ends-load_rapid_commit view len =
    Ends-bind (Ends-header 14 view len 0 0) λ (o, n) p. returns (omega arith)

Ends-load_user_class : EndsWithin load_user_class
unfolding load_user_class
Ends-load_user_class view len = Ends-bind (Ends-header 15 view len 0 max_u16) λ (o, n) p.
    Ends-bind (Ends-load_strings (suc (n + o)) view (n + o) o (omega arith)) λ (r, stop) q.
      Ends-bind (Ends-require (stop == n + o))
        λ _ e. let reached = (==_iff stop (n + o)).0 e in returns (omega arith)

Ends-load_vendor_class : EndsWithin load_vendor_class
unfolding load_vendor_class
Ends-load_vendor_class view len = Ends-bind (Ends-header 16 view len 4 max_u16) λ (o, n) p.
    Ends-bind (Ends-from_u32 (drop o view)) λ _ _.
      Ends-bind (Ends-load_strings (suc (n + o)) view (n + o) (o + 4) (omega arith)) λ (r, stop) q.
        Ends-bind (Ends-require (stop == n + o))
          λ _ e. let reached = (==_iff stop (n + o)).0 e in returns (omega arith)

Ends-load_vendor_specific_information : EndsWithin load_vendor_specific_information
unfolding load_vendor_specific_information
Ends-load_vendor_specific_information view len =
    Ends-bind (Ends-header 17 view len 4 max_u16) λ (o, n) p.
      Ends-bind (Ends-from_u32 (drop o view)) λ _ _.
        Ends-bind (Ends-load_vendor_options (suc (n + o)) view (n + o) (o + 4) (omega arith))
          λ (r, stop) q.
            Ends-bind (Ends-require (stop == n + o))
              λ _ e. let reached = (==_iff stop (n + o)).0 e in returns (omega arith)

Ends-load_interface_id : EndsWithin load_interface_id
unfolding load_interface_id
Ends-load_interface_id view len =
    Ends-bind (Ends-header 18 view len 0 max_u16) λ (o, n) p. returns (omega arith)

Ends-load_reconfigure_message : EndsWithin load_reconfigure_message
unfolding load_reconfigure_message
Ends-load_reconfigure_message view len =
    Ends-bind (Ends-header 19 view len 1 1)
      λ (o, n) p. Ends-bind (Ends-first (drop o view)) λ r q. returns (omega arith)

Ends-load_reconfigure_accept : EndsWithin load_reconfigure_accept
unfolding load_reconfigure_accept
Ends-load_reconfigure_accept view len =
    Ends-bind (Ends-header 20 view len 0 0) λ (o, n) p. returns (omega arith)

Ends-load_extension_option : (c : ExtensionClass) → EndsWithin (load_extension_option c)
unfolding load_extension_option
Ends-load_extension_option c view len = Ends-bind (Ends-load_extension c view len) λ r p. returns p

pub Ends-load_leaf :
    (c : LeafClass) (view : Bytes) (len : Option ℕ) → Ends (Within len view) (load_leaf c view len)
unfolding load_leaf
Ends-load_leaf Leaf.unknown_option = Ends-load_unknown
Ends-load_leaf Leaf.client_id_option = Ends-load_client_id
Ends-load_leaf Leaf.server_id_option = Ends-load_server_id
Ends-load_leaf Leaf.option_request_option = Ends-load_option_request
Ends-load_leaf Leaf.preference_option = Ends-load_preference
Ends-load_leaf Leaf.elapsed_time_option = Ends-load_elapsed_time
Ends-load_leaf Leaf.authentication_option = Ends-load_authentication
Ends-load_leaf Leaf.server_unicast_option = Ends-load_server_unicast
Ends-load_leaf Leaf.status_code_option = Ends-load_status_code
Ends-load_leaf Leaf.rapid_commit_option = Ends-load_rapid_commit
Ends-load_leaf Leaf.user_class_option = Ends-load_user_class
Ends-load_leaf Leaf.vendor_class_option = Ends-load_vendor_class
Ends-load_leaf Leaf.vendor_specific_information_option = Ends-load_vendor_specific_information
Ends-load_leaf Leaf.interface_id_option = Ends-load_interface_id
Ends-load_leaf Leaf.reconfigure_message_option = Ends-load_reconfigure_message
Ends-load_leaf Leaf.reconfigure_accept_option = Ends-load_reconfigure_accept
Ends-load_leaf (Leaf.extension_option c) = Ends-load_extension_option c
