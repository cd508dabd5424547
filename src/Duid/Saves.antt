-- ===== src/Duid/Saves.antt =====
-- dhcpkit/ipv6/duids.py: a DUID that `validate` accepts is saved.
use dhcpkit.Prelude.{◌≡◌, arith}
use dhcpkit.Wire.{ok, pack}
use dhcpkit.Duid
use dhcpkit.Duid.{save_duid, validate_duid}
use dhcpkit.Duid.RoundTrip

pub save_duid-validated :
    (d : Duid.Duid)
    → RoundTrip.IsProper d
    → validate_duid d ≡ ok tt
    → save_duid d ≡ ok (RoundTrip.image d)
unfolding save_duid validate_duid pack
save_duid-validated (Duid.unknown t d) h v = ground (arith)
save_duid-validated (Duid.link_layer_time h t a) n v = ground arith
save_duid-validated (Duid.enterprise n i) h v = ground arith
save_duid-validated (Duid.link_layer h a) n v = ground arith
