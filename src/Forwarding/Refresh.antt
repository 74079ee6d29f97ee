-- ===== src/Forwarding/Refresh.antt =====
-- `ForwardingState_util` (src/ForwardingState_util.cpp): the two buffers and `refresh_l2`. What the
-- system answers, through `Network_util`, is an argument.
pub mod Published
use high_performance_gaming.Common.{
  ℕ, ◌/◌, Bool, true, false, not, ◌&&◌, ◌||◌, Option, none, some, min, leb, ltb, ◌==◌,
  if◌then◌else◌,
}
use high_performance_gaming.Net.Bytes.{ntohl}
use high_performance_gaming.Forwarding.{L2Snapshot, ArpEntry, arp_lookup}

-- `gateway` is `none` for the empty string, `some none` for one that `inet_pton` refuses; `wan_local`
-- is the WAN interface's address, if it has one that parses.
pub record Answers : Type 0 where
  pub lan_ok : Bool
  pub lan_hw : ℕ
  pub wan_ok : Bool
  pub wan_hw : ℕ
  pub prefix_len : Option ℕ
  pub wan_local : Option ℕ
  pub gateway : Option (Option ℕ)
  pub rows : ℕ → ArpEntry
  pub n : ℕ

-- The buffer that readers see, and the one that is written.
pub record ForwardingState : Type 0 where
  pub shown : L2Snapshot
  pub hidden : L2Snapshot

unfoldable pub is_invalid_nat_wan : ℕ → Bool
is_invalid_nat_wan a = (a == 0) || (ntohl a / 16777216 == 127)

unfoldable pub resolve_nat_wan_ip : Option ℕ → Option ℕ
resolve_nat_wan_ip none = none
resolve_nat_wan_ip (some a) = if is_invalid_nat_wan a then none else some a

abbrev pub or_zero : Option ℕ → ℕ
or_zero none = 0
or_zero (some a) = a

abbrev pub prefix_fits : Option ℕ → Bool
prefix_fits none = false
prefix_fits (some len) = leb len 32

abbrev pub is_configured : Option (Option ℕ) → Bool
is_configured none = false
is_configured (some gw) = true

-- The gateway's row of the table.
unfoldable pub gateway_mac : L2Snapshot → ℕ → Option (Option ℕ) → Option ℕ
gateway_mac table n none = none
gateway_mac table n (some none) = none
gateway_mac table n (some (some gw)) = arp_lookup n 0 table gw

abbrev pub is_found : Option ℕ → Bool
is_found none = false
is_found (some mac) = true

abbrev pub mac_or : ℕ → Option ℕ → ℕ
mac_or old none = old
mac_or old (some mac) = mac

-- The table has room for 128 rows, and `read_arp_table` fills no more.
unfoldable pub fill_snapshot : L2Snapshot → Answers → L2Snapshot
fill_snapshot snap a =
    let wan_ip = or_zero (resolve_nat_wan_ip a.wan_local) in
    let wan_valid =
      not (wan_ip == 0) && (not (is_invalid_nat_wan wan_ip) && prefix_fits a.prefix_len) in
    let gw = gateway_mac (record snap { arp = a.rows }) a.n a.gateway in
    let count = min a.n 128 in
    record {
      lan_hw = a.lan_hw;
      wan_hw = a.wan_hw;
      gw_hw = mac_or snap.gw_hw gw;
      wan_ip_nbo = wan_ip;
      wan_prefix_len = a.prefix_len;
      arp = λ i. if ltb i count then a.rows i else snap.arp i;
      arp_count = count;
      gw_hw_valid = is_found gw;
      wan_cfg_valid = wan_valid;
      default_gw_ip_configured = is_configured a.gateway;
      ready = a.lan_ok && (a.wan_ok && (is_found gw || wan_valid));
    }

-- The hidden buffer is filled, then shown.
unfoldable pub refresh_l2 : ForwardingState → Answers → ForwardingState
refresh_l2 f a = record { shown = fill_snapshot f.hidden a; hidden = f.shown }
