-- ===== src/Forwarding/Refresh/Published.antt =====
-- What readers may rely on in a snapshot.
use high_performance_gaming.Common.{ℕ, ◌/◌, ◌≤◌, ◌≡◌, ◌≢◌, ◌⊎◌, arith, refl, true, false, some}
use high_performance_gaming.Net.Bytes.{ntohl}
use high_performance_gaming.Forwarding.{L2Snapshot}
use high_performance_gaming.Forwarding.Refresh.{
  Answers, ForwardingState, is_invalid_nat_wan, gateway_mac, fill_snapshot, refresh_l2,
}

-- A snapshot that is ready has a way out: the gateway's address or a usable WAN address. With the
-- former a gateway is configured; with the latter the prefix is one of 0 to 32 bits.
pub record IsPublished (s : L2Snapshot) : Type 0 where
  pub way_out : (s.ready ≡ false) ⊎ (s.gw_hw_valid ≡ true) ⊎ (s.wan_cfg_valid ≡ true)
  pub has_gateway : (s.gw_hw_valid ≡ false) ⊎ (s.default_gw_ip_configured ≡ true)
  pub wan_usable :
      (s.wan_cfg_valid ≡ false) ⊎ ((s.wan_ip_nbo ≢ 0) × (ntohl s.wan_ip_nbo / 16777216 ≢ 127))
  pub prefix_ok :
      (s.wan_cfg_valid ≡ false) ⊎ ((len : ℕ) × (s.wan_prefix_len ≡ some len) × (len ≤ 32))
  pub table_fits : s.arp_count ≤ 128

-- Whatever the system answers, the snapshot that a refresh shows is sound: ready only with a gateway
-- or a usable WAN address, and with a table of 128 rows at most. The one that readers had before is
-- left as it was.
pub refresh_l2-IsPublished :
    (f : ForwardingState) (a : Answers)
    → IsPublished (refresh_l2 f a).shown × ((refresh_l2 f a).hidden ≡ f.shown)
unfolding refresh_l2 fill_snapshot gateway_mac is_invalid_nat_wan
refresh_l2-IsPublished f a = (
  record {
    way_out = ground arith;
    has_gateway = ground arith;
    wan_usable = ground arith;
    prefix_ok = ground arith;
    table_fits = omega arith;
  },
  refl,
)
