-- ===== src/Network/LanSync.antt =====
-- `NetworkConfig` (src/NetworkConfig.cpp): the LAN address that the DHCP server gives out as the
-- gateway. The texts of the configuration stand as what `parse_ip_str` makes of them.
pub mod Gateway
use high_performance_gaming.Common.{
  ℕ, ◌-◌, ◌*◌, ◌%◌, ◌^◌, ◌||◌, Bool, true, false, not, ltb, ◌==◌, if◌then◌else◌, Option, none, some,
}
use high_performance_gaming.Net.Bytes.{ntohl, u32_mod}
use high_performance_gaming.Network.Subnet.{ipv4_in_subnet, infer_prefix_covering_pool}
use high_performance_gaming.DhcpEngine.Pool.{DhcpEngine}
use high_performance_gaming.DhcpEngine.Service.{set_router_ip}

pub data SyncResult : Type 0 where
  synced bad_pool_start bad_pool_end pool_reversed bad_prefix bad_router_ip set_iface_failed
        router_outside_pool lan_outside_pool :
      SyncResult

pub record LanSettings : Type 0 where
  pub dhcp_pool_start : Option ℕ
  pub dhcp_pool_end : Option ℕ
  pub router_ip : Option ℕ
  pub apply_router_ip_to_lan : Bool

-- The calls that the LAN interface answers: whether a socket can be had, the address that SIOCGIFADDR
-- reads, and SIOCSIFADDR, SIOCSIFNETMASK and the raising of IFF_UP on the kernel's state. `name_fits`
-- says whether the interface's name is shorter than IFNAMSIZ.
pub record LanInterface (K : Type 0) : Type 0 where
  pub name_fits : Bool
  pub socket : K → Bool
  pub get_addr : K → Option ℕ
  pub set_addr : ℕ → K → Bool × K
  pub set_netmask : ℕ → K → Bool × K
  pub set_up : K → K

module _ {K : Type 0} (I : LanInterface K) where
  open I use {name_fits, socket, get_addr, set_addr, set_netmask, set_up}

  -- With `parse_ip_str`; an empty or unreadable text is `none`.
  unfoldable pub get_local_ip : K → Option ℕ
  get_local_ip k = if socket k then get_addr k else none

  abbrev pub after_netmask : Bool × K → Bool × K
  after_netmask (false, k) = (false, k)
  after_netmask (true, k) = (true, set_up k)

  abbrev pub after_addr : ℕ → Bool × K → Bool × K
  after_addr prefix_len (false, k) = (false, k)
  after_addr prefix_len (true, k) =
      after_netmask (set_netmask (ntohl (0xffffffff * 2 ^ (32 - prefix_len) % u32_mod)) k)

  -- For an address that `inet_pton` reads.
  unfoldable pub set_iface_ipv4_and_prefix : ℕ → ℕ → K → Bool × K
  set_iface_ipv4_and_prefix ipv4 prefix_len k =
      if (prefix_len == 0) || ltb 32 prefix_len
      then (false, k)
      else if not name_fits
      then (false, k)
      else if not (socket k)
      then (false, k)
      else after_addr prefix_len (set_addr ipv4 k)

  pub record Lan : Type 0 where
    pub kernel : K
    pub effective_lan_gateway : ℕ
    pub dhcp : DhcpEngine

  abbrev pub Synced : Type 0
  Synced = SyncResult × Lan

  -- The end of `sync`: `ok` says whether the kernel's address is in the pool's subnet.
  abbrev pub use_gateway : Bool → Option ℕ → Lan → Synced
  use_gateway ok none s = (lan_outside_pool, s)
  use_gateway false (some ip) s = (lan_outside_pool, s)
  use_gateway true (some ip) s =
      (synced, record s { effective_lan_gateway = ip; dhcp = set_router_ip s.dhcp ip })

  abbrev pub in_pool_subnet : ℕ → ℕ → Option ℕ → Bool
  in_pool_subnet prefix pool_start none = false
  in_pool_subnet prefix pool_start (some ip) = ipv4_in_subnet ip (some prefix) pool_start

  unfoldable pub after_set : ℕ → ℕ → Bool × K → Lan → Synced
  after_set prefix pool_start (false, k) s = (set_iface_failed, record s { kernel = k })
  after_set prefix pool_start (true, k) s =
      let kern = get_local_ip k in
      use_gateway (in_pool_subnet prefix pool_start kern) kern (record s { kernel = k })

  -- From the first reading of the kernel's address on.
  unfoldable pub check_lan : ℕ → ℕ → ℕ → Lan → Synced
  check_lan prefix pool_start router s =
      let kern = get_local_ip s.kernel in
      if in_pool_subnet prefix pool_start kern
      then use_gateway true kern s
      else if ipv4_in_subnet router (some prefix) pool_start
      then after_set prefix pool_start (set_iface_ipv4_and_prefix router prefix s.kernel) s
      else (router_outside_pool, s)

  unfoldable pub sync_pool : Bool → Option ℕ → ℕ → ℕ → Lan → Synced
  sync_pool apply none pool_start pool_end s = (bad_router_ip, s)
  sync_pool apply (some router) pool_start pool_end s =
      let prefix = infer_prefix_covering_pool pool_start pool_end in
      if apply
      then check_lan prefix pool_start router
          (record s { kernel = (set_iface_ipv4_and_prefix router prefix s.kernel).1 })
      else check_lan prefix pool_start router s

  unfoldable pub sync_ends : Bool → Option ℕ → Option ℕ → Option ℕ → Lan → Synced
  sync_ends apply router none pool_end s = (bad_pool_start, s)
  sync_ends apply router (some pool_start) none s = (bad_pool_end, s)
  sync_ends apply router (some pool_start) (some pool_end) s =
      if ltb (ntohl pool_end) (ntohl pool_start)
      then (pool_reversed, s)
      else if ltb 32 (infer_prefix_covering_pool pool_start pool_end)
      then (bad_prefix, s)
      else sync_pool apply router pool_start pool_end s

  unfoldable pub sync : LanSettings → Lan → Synced
  sync c s = sync_ends c.apply_router_ip_to_lan c.router_ip c.dhcp_pool_start c.dhcp_pool_end s

-- `refresh_dhcp_router`, and the callback of the DHCP thread (src/ControlPlane.cpp): the argument is
-- the kernel's address, parsed.
unfoldable pub refresh_dhcp_router : Option ℕ → DhcpEngine → DhcpEngine
refresh_dhcp_router none e = e
refresh_dhcp_router (some ip) e = if ip == e.router_ip then e else set_router_ip e ip
