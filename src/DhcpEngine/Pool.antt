-- ===== src/DhcpEngine/Pool.antt =====
-- The lease table: `init_pool`, `find_or_assign_lease` and `commit_lease`. Points in time and the
-- lease duration are numbers; a reading of `steady_clock::now` is an argument.
pub mod Invariant
pub mod Grant
use high_performance_gaming.Common.{
  ℕ, zero, suc, ◌+◌, ◌*◌, ◌-◌, ◌%◌, min, Bool, true, false, not, ◌&&◌, ◌||◌, Option, none, some,
  ltb, ◌==◌, if◌then◌else◌,
}
use high_performance_gaming.Common.Array.{update}
use high_performance_gaming.Net.Bytes.{Memory, u32_mod, ntohl}
use high_performance_gaming.RingBuffer.Spsc.{SpscRingBuffer}

-- A hardware address is the number that its six bytes make.
pub record DhcpLease : Type 0 where
  pub mac : ℕ
  pub ip : ℕ
  pub active : Bool
  pub lease_expiry : ℕ

pub record DhcpMessage : Type 0 where
  pub len : ℕ
  pub data_bytes : Memory

pub record DhcpEngine : Type 0 where
  pub request_queue : SpscRingBuffer DhcpMessage
  pub leases : ℕ → DhcpLease
  pub pool_count : ℕ
  pub router_ip : ℕ
  pub lease_duration : ℕ
  pub lan_if_mac : ℕ

abbrev pub max_pool_size : ℕ
max_pool_size = 253

pub data PoolResult : Type 0 where
  pool_ok end_before_start range_overflow pool_empty : PoolResult

-- The address `offset` places after `base_net`. `to_net` is the swap that `ntohl` is.
unfoldable pub pool_advance : ℕ → ℕ → ℕ
pool_advance base_net offset = ntohl ((ntohl base_net + offset) % u32_mod)

-- The loop of `init_pool` from slot `i` on, with `n` rounds left.
unfoldable pub clear_leases : ℕ → ℕ → ℕ → (ℕ → DhcpLease) → ℕ → DhcpLease
clear_leases zero i start_ip leases = leases
clear_leases (suc n) i start_ip leases =
    clear_leases n (i + 1) start_ip
      (update leases i (record (leases i) { ip = pool_advance start_ip i; active = false }))

unfoldable pub init_pool : DhcpEngine → ℕ → ℕ → PoolResult × DhcpEngine
init_pool e start_ip end_ip =
    let start_h = ntohl start_ip in
    let end_h = ntohl end_ip in
    let span = (end_h - start_h) + 1 in
    let count = min span max_pool_size in
    if ltb end_h start_h
    then (end_before_start, e)
    else if span == 0
    then (range_overflow, e)
    else if count == 0
    then (pool_empty, record e { pool_count = count })
    else (pool_ok, record e { pool_count = count; leases = clear_leases count 0 start_ip e.leases })

-- A loop over the pool: the first slot from `i` on that passes, among `n`.
unfoldable pub first_slot : (ℕ → Bool) → ℕ → ℕ → Option ℕ
first_slot test zero i = none
first_slot test (suc n) i = let rest = first_slot test n (i + 1) in if test i then some i else rest

abbrev pub is_own : DhcpEngine → ℕ → ℕ → Bool
is_own e mac i = (e.leases i).active && ((e.leases i).mac == mac)

abbrev pub is_free : DhcpEngine → ℕ → ℕ → Bool
is_free e now i = not (e.leases i).active || ltb (e.leases i).lease_expiry now

-- The slot is given to the device.
unfoldable pub assign : DhcpEngine → ℕ → ℕ → ℕ → DhcpEngine
assign e mac now i = record e {
  leases = update e.leases i (record {
    mac = mac;
    ip = (e.leases i).ip;
    active = true;
    lease_expiry = now + e.lease_duration;
  });
}

-- The address is 0 where the pool has none left.
unfoldable pub find_or_assign_lease : DhcpEngine → ℕ → ℕ → ℕ × DhcpEngine
find_or_assign_lease e mac now = elim (first_slot (is_own e mac) e.pool_count 0) [
  | some i ↦ ((e.leases i).ip, e)
  | none ↦ elim (first_slot (is_free e now) e.pool_count 0) [
    | some i ↦ ((e.leases i).ip, assign e mac now i)
    | none ↦ (0, e)
  ]
]

abbrev pub has_ip : DhcpEngine → ℕ → ℕ → Bool
has_ip e ip i = (e.leases i).ip == ip

-- The lease of the slot runs from now on.
unfoldable pub renew : DhcpEngine → ℕ → ℕ → DhcpEngine
renew e now i = record e {
  leases =
      update e.leases i
        (record (e.leases i) { active = true; lease_expiry = now + e.lease_duration });
}

unfoldable pub commit_lease : DhcpEngine → ℕ → ℕ → DhcpEngine
commit_lease e ip now = elim (first_slot (has_ip e ip) e.pool_count 0) [
  | some i ↦ renew e now i
  | none ↦ e
]
