-- ===== src/Extension/Ends.antt =====
-- dhcpkit/ipv6/extensions: the parsers of options without nested options end on every input, and use
-- the four bytes of the head at least and what the buffer has at most.
use dhcpkit.Prelude.{
  ℕ, suc, ◌+◌, ◌-◌, ◌/◌, ◌%◌, ◌≤◌, ◌≡◌, Option, some, List, drop, arith, ◌==◌, ==_iff,
}
use dhcpkit.Wire.{Bytes, Result}
use dhcpkit.Address.{Address}
use dhcpkit.Wire.Codes.{Ends-unpack_u16s}
use dhcpkit.Wire.Ends.{
  Ends, returns, Ends-bind, Ends-require, Ends-first, Ends-from_u16, Ends-from_u32,
}
use dhcpkit.Header.{available, max_u16}
use dhcpkit.Header.Ends.{Ends-header}
use dhcpkit.Duid.Ends.{Ends-parse_duid}
use dhcpkit.Extension
use dhcpkit.Extension.{Extension, ExtensionClass}
use dhcpkit.Extension.Addresses.{Ends-load_addresses, below_round, fits_one_round}
use dhcpkit.Extension.Load.{
  below, fits_one, load_addresses, load_extension, load_servers, load_remote_id, load_subscriber_id,
  load_echo_request, load_clt_time, load_client_link, load_relay_id, load_pd_exclude,
  load_link_layer_id, load_sol_max_rt, load_inf_max_rt,
}

abbrev EndsWithin : (Bytes → Option ℕ → Result (ℕ × Extension)) → Type 0
EndsWithin load =
    (view : Bytes) (len : Option ℕ)
    → Ends (λ r. (4 ≤ r.0) × (r.0 ≤ available len view)) (load view len)

-- The loop over an option whose length is a multiple of sixteen.
Ends-servers :
    (view : Bytes) (o n : ℕ)
    → n % 16 ≡ 0
    → Ends (λ r. (o ≤ r.1) × (r.1 ≤ n + o)) (load_addresses below (suc (n + o)) view (n + o) o)
Ends-servers view o n whole =
    Ends-load_addresses below (λ s. (n + o - s) % 16 ≡ 0) (suc (n + o)) view (n + o) o
      (below_round (n + o)) (omega arith) (omega arith) (omega (arith, whole))

Ends-load_servers : (t : ℕ) (option : List Address → Extension) → EndsWithin (load_servers t option)
unfolding load_servers
Ends-load_servers t option view len = Ends-bind (Ends-header t view len 0 max_u16) λ (o, n) p.
    Ends-bind (Ends-require (n % 16 == 0)) λ _ e.
      Ends-bind (Ends-servers view o n ((==_iff (n % 16) 0).0 e)) λ r q. returns (omega arith)

Ends-load_remote_id : EndsWithin load_remote_id
unfolding load_remote_id
Ends-load_remote_id view len =
    Ends-bind (Ends-header 37 view len 0 max_u16)
      λ (o, n) p. Ends-bind (Ends-from_u32 (drop o view)) λ _ _. returns (omega arith)

Ends-load_subscriber_id : EndsWithin load_subscriber_id
unfolding load_subscriber_id
Ends-load_subscriber_id view len =
    Ends-bind (Ends-header 38 view len 0 max_u16) λ (o, n) p. returns (omega arith)

Ends-load_echo_request : EndsWithin load_echo_request
unfolding load_echo_request
Ends-load_echo_request view len = Ends-bind (Ends-header 43 view len 0 max_u16) λ (o, n) p.
    Ends-bind (Ends-require (n % 2 == 0))
      λ _ _. Ends-bind (Ends-unpack_u16s (n / 2) (drop o view)) λ r q. returns (omega arith)

Ends-load_clt_time : EndsWithin load_clt_time
unfolding load_clt_time
Ends-load_clt_time view len =
    Ends-bind (Ends-header 46 view len 4 4)
      λ (o, n) p. Ends-bind (Ends-from_u32 (drop o view)) λ _ _. returns (omega arith)

Ends-load_client_link : EndsWithin load_client_link
unfolding load_client_link
Ends-load_client_link view len = Ends-bind (Ends-header 48 view len 0 max_u16) λ (o, n) p.
    Ends-bind
      (Ends-load_addresses fits_one (λ _. Unit {0}) (suc (n + o)) view (n + o) o
        (fits_one_round (n + o)) (omega arith) (omega arith) tt)
      λ (xs, stop) q. Ends-bind (Ends-require (stop == n + o)) λ _ e. returns (omega arith)

Ends-load_relay_id : EndsWithin load_relay_id
unfolding load_relay_id
Ends-load_relay_id view len =
    Ends-bind (Ends-header 53 view len 2 max_u16)
      λ (o, n) p. Ends-bind (Ends-parse_duid (drop o view) (some n)) λ r q. returns (omega arith)

Ends-load_pd_exclude : EndsWithin load_pd_exclude
unfolding load_pd_exclude
Ends-load_pd_exclude view len =
    Ends-bind (Ends-header 67 view len 2 17)
      λ (o, n) p. Ends-bind (Ends-first (drop o view)) λ _ _. returns (omega arith)

Ends-load_link_layer_id : EndsWithin load_link_layer_id
unfolding load_link_layer_id
Ends-load_link_layer_id view len =
    Ends-bind (Ends-header 79 view len 2 max_u16)
      λ (o, n) p. Ends-bind (Ends-from_u16 (drop o view)) λ _ _. returns (omega arith)

Ends-load_sol_max_rt : EndsWithin load_sol_max_rt
unfolding load_sol_max_rt
Ends-load_sol_max_rt view len = Ends-bind (Ends-header 82 view len 0 max_u16) λ (o, n) p.
    Ends-bind (Ends-require (n == 4)) λ _ e.
      let four = (==_iff n 4).0 e in
      Ends-bind (Ends-from_u32 (drop o view)) λ _ _. returns (omega arith)

Ends-load_inf_max_rt : EndsWithin load_inf_max_rt
unfolding load_inf_max_rt
Ends-load_inf_max_rt view len = Ends-bind (Ends-header 83 view len 0 max_u16) λ (o, n) p.
    Ends-bind (Ends-require (n == 4)) λ _ e.
      let four = (==_iff n 4).0 e in
      Ends-bind (Ends-from_u32 (drop o view)) λ _ _. returns (omega arith)

pub Ends-load_extension : (c : ExtensionClass) → EndsWithin (load_extension c)
unfolding load_extension
Ends-load_extension Extension.sip_servers_option = Ends-load_servers 22 Extension.sip_servers
Ends-load_extension Extension.dns_servers_option = Ends-load_servers 23 Extension.dns_servers
Ends-load_extension Extension.sntp_servers_option = Ends-load_servers 31 Extension.sntp_servers
Ends-load_extension Extension.remote_id_option = Ends-load_remote_id
Ends-load_extension Extension.subscriber_id_option = Ends-load_subscriber_id
Ends-load_extension Extension.echo_request_option = Ends-load_echo_request
Ends-load_extension Extension.clt_time_option = Ends-load_clt_time
Ends-load_extension Extension.client_link_option = Ends-load_client_link
Ends-load_extension Extension.relay_id_option = Ends-load_relay_id
Ends-load_extension Extension.pd_exclude_option = Ends-load_pd_exclude
Ends-load_extension Extension.link_layer_id_option = Ends-load_link_layer_id
Ends-load_extension Extension.sol_max_rt_option = Ends-load_sol_max_rt
Ends-load_extension Extension.inf_max_rt_option = Ends-load_inf_max_rt
