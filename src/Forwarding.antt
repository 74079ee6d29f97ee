-- ===== src/Forwarding.antt =====
-- The rewriting of Ethernet addresses in the pipeline (src/App.cpp) by the snapshot of
-- `ForwardingState_util`. A hardware address is a number, its first byte the least.
pub mod Addresses
pub mod NextHop
pub mod Refresh
use Prim.Native.Nat.{bit_and}
use high_performance_gaming.Common.{
  ℕ, zero, suc, ◌+◌, ◌-◌, ◌*◌, ◌/◌, ◌%◌, ◌^◌, Bool, true, false, not, ◌&&◌, ◌||◌, Option, none,
  some, ltb, leb, ◌==◌, if◌then◌else◌,
}
use high_performance_gaming.Net.Bytes.{Memory, u32_mod, store16, store32, ntohl}
use high_performance_gaming.Network.Subnet.{ipv4_in_subnet}
use high_performance_gaming.Net.Packet.{ParsedPacket, memory, with_memory, daddr}

pub record ArpEntry : Type 0 where
  pub ip_nbo : ℕ
  pub mac : ℕ

-- A prefix length below 0 is `none`.
pub record L2Snapshot : Type 0 where
  pub lan_hw : ℕ
  pub wan_hw : ℕ
  pub gw_hw : ℕ
  pub wan_ip_nbo : ℕ
  pub wan_prefix_len : Option ℕ
  pub arp : ℕ → ArpEntry
  pub arp_count : ℕ
  pub gw_hw_valid : Bool
  pub wan_cfg_valid : Bool
  pub default_gw_ip_configured : Bool
  pub ready : Bool

-- The loop over the table from entry `i` on, with `n` rounds left.
unfoldable pub arp_lookup : ℕ → ℕ → L2Snapshot → ℕ → Option ℕ
arp_lookup zero i s ip = none
arp_lookup (suc n) i s ip =
    let rest = arp_lookup n (i + 1) s ip in
    if (s.arp i).ip_nbo == ip then some (s.arp i).mac else rest

unfoldable pub resolve_mac_onlink : L2Snapshot → ℕ → Option ℕ
resolve_mac_onlink s dst_ip_nbo = arp_lookup s.arp_count 0 s dst_ip_nbo

-- Neither broadcast nor multicast.
unfoldable pub ipv4_needs_eth_rewrite_for_forward : ℕ → Bool
ipv4_needs_eth_rewrite_for_forward dst =
    let d = ntohl dst in if d == 0xffffffff then false else not (leb 224 (d / 16777216))

-- `std::memcpy` of six bytes
unfoldable pub store_mac : Memory → ℕ → ℕ → Memory
store_mac m at mac = store16 (store32 m at (mac % u32_mod)) (at + 4) (mac / u32_mod)

-- Where the next hop's address is found; `none` means that the frame is dropped.
unfoldable pub next_hop : L2Snapshot → ℕ → Option ℕ
next_hop s dst =
    if s.wan_cfg_valid && ipv4_in_subnet dst s.wan_prefix_len s.wan_ip_nbo
    then resolve_mac_onlink s dst
    else if not s.default_gw_ip_configured
    then none
    else if not s.gw_hw_valid
    then none
    else some s.gw_hw

-- The result of a step: whether it dealt with the packet, and the packet.
abbrev pub Stepped : Type 0
Stepped = Bool × ParsedPacket

unfoldable pub to_next_hop : ParsedPacket → ℕ → Memory → Option ℕ → Stepped
to_next_hop p eth m none = (true, with_memory p m)
to_next_hop p eth m (some mac) = (false, with_memory p (store_mac m eth mac))

unfoldable pub rewrite_to_wan : L2Snapshot → ParsedPacket → Option ℕ → Option ℕ → Stepped
rewrite_to_wan s p none ip = (false, p)
rewrite_to_wan s p (some eth) none = (false, p)
rewrite_to_wan s p (some eth) (some ip) =
    let dst = daddr (memory p) ip in
    if not (ipv4_needs_eth_rewrite_for_forward dst)
    then (false, p)
    else to_next_hop p eth (store_mac (memory p) (eth + 6) s.wan_hw) (next_hop s dst)

unfoldable pub step_eth_rewrite_lan_to_wan : Bool → L2Snapshot → ParsedPacket → Stepped
step_eth_rewrite_lan_to_wan enable_nat s p =
    if not enable_nat
    then (false, p)
    else if not s.ready
    then (false, p)
    else rewrite_to_wan s p p.eth p.ipv4

unfoldable pub to_device : L2Snapshot → ParsedPacket → ℕ → Option ℕ → Stepped
to_device s p eth none = (false, p)
to_device s p eth (some mac) =
    (false, with_memory p (store_mac (store_mac (memory p) (eth + 6) s.lan_hw) eth mac))

unfoldable pub rewrite_to_lan : L2Snapshot → ParsedPacket → Option ℕ → Option ℕ → Stepped
rewrite_to_lan s p none ip = (false, p)
rewrite_to_lan s p (some eth) none = (false, p)
rewrite_to_lan s p (some eth) (some ip) =
    let dst = daddr (memory p) ip in
    if not (ipv4_needs_eth_rewrite_for_forward dst)
    then (false, p)
    else to_device s p eth (arp_lookup s.arp_count 0 s dst)

unfoldable pub step_eth_rewrite_wan_to_lan : Bool → L2Snapshot → ParsedPacket → Stepped
step_eth_rewrite_wan_to_lan enable_nat s p =
    if not enable_nat
    then (false, p)
    else if not s.ready
    then (false, p)
    else rewrite_to_lan s p p.eth p.ipv4
