-- ===== src/Tests/Subnets.antt =====
-- Pools, masks and a LAN interface.
use high_performance_gaming.Common.{ℕ, ◌<◌, ◌≤◌, ◌≡◌, arith, refl, true, false, Option, none, some}
use high_performance_gaming.Net.Bytes.{ntohl, ntohs}
use high_performance_gaming.Network.Subnet.{ipv4_in_subnet, infer_prefix_covering_pool, differ_from}
use high_performance_gaming.Network.Subnet.Covering.{infer_prefix-tight, infer_prefix-holds}
use high_performance_gaming.Network.LanSync.{
  synced, LanSettings, LanInterface, Lan, get_local_ip, set_iface_ipv4_and_prefix, after_set,
  check_lan, sync_pool, sync_ends, sync,
}
use high_performance_gaming.Network.LanSync.Gateway.{Outcome, sync-Outcome, sync-on_link}
use high_performance_gaming.DhcpEngine.Service.{set_router_ip}
use high_performance_gaming.Tests.Leases.{blank}

-- 192.168.1.100, 192.168.1.150 and 192.168.1.200, and 192.168.1.1
abbrev first : ℕ
first = 0x6401a8c0

abbrev middle : ℕ
middle = 0x9601a8c0

abbrev last : ℕ
last = 0xc801a8c0

abbrev router : ℕ
router = 0x0101a8c0

start_middle : ntohl first ≤ ntohl middle
unfolding ntohl ntohs
start_middle = omega arith

middle_end : ntohl middle ≤ ntohl last
unfolding ntohl ntohs
middle_end = omega arith

start_end : ntohl first ≤ ntohl last
start_end = omega (arith, start_middle, middle_end)

inferred : infer_prefix_covering_pool first last ≡ 24
unfolding infer_prefix_covering_pool differ_from ntohl ntohs
inferred = refl

longer : infer_prefix_covering_pool first last < 25
longer = omega (arith, inferred)

infer_prefix-tight_example : ipv4_in_subnet last (some 25) first ≡ false
infer_prefix-tight_example = infer_prefix-tight first last 25 start_end longer (omega arith)

infer_prefix-holds_example :
    (infer_prefix_covering_pool first last ≤ 32)
    × (ipv4_in_subnet middle (some (infer_prefix_covering_pool first last)) first ≡ true)
infer_prefix-holds_example = infer_prefix-holds first last middle start_middle middle_end

-- The kernel keeps the interface's address, and every call succeeds.
abbrev interface : LanInterface (Option ℕ)
interface = record {
  name_fits = true;
  socket = λ k. true;
  get_addr = λ k. k;
  set_addr = λ ip k. (true, some ip);
  set_netmask = λ mask k. (true, k);
  set_up = λ k. k;
}

abbrev settings : LanSettings
settings = record {
  dhcp_pool_start = some first;
  dhcp_pool_end = some last;
  router_ip = some router;
  apply_router_ip_to_lan = true;
}

abbrev before : Lan interface
before = record { kernel = none; effective_lan_gateway = 0; dhcp = blank }

sync-Outcome_example : Outcome interface settings before (sync interface settings before)
sync-Outcome_example = sync-Outcome interface settings before

abbrev after : Lan interface
after = record {
  kernel = some router;
  effective_lan_gateway = router;
  dhcp = set_router_ip blank router;
}

settled : sync interface settings before ≡ (synced, after)
unfolding sync sync_ends sync_pool check_lan after_set get_local_ip set_iface_ipv4_and_prefix
    infer_prefix_covering_pool differ_from ipv4_in_subnet ntohl ntohs
settled = refl

sync-on_link_example :
    ipv4_in_subnet middle (some (infer_prefix_covering_pool first last)) after.dhcp.router_ip ≡ true
sync-on_link_example =
    sync-on_link interface settings before after first last middle settled refl refl start_middle
      middle_end
