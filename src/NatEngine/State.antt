-- ===== src/NatEngine/State.antt =====
-- The state of `NatEngine`: the two session tables with their reverse indices (include/NatEngine.hpp)
-- and the flow key of include/Processor.hpp. Each member function runs as one step.
use Prim.Native.Nat.{bit_xor}
use high_performance_gaming.Common.{
  ℕ, ◌+◌, ◌-◌, ◌*◌, ◌/◌, ◌%◌, Bool, false, ◌&&◌, Option, none, some, ltb, ◌==◌, if◌then◌else◌,
}
use high_performance_gaming.Common.Array.{update}
use high_performance_gaming.Net.Bytes.{u16_mod, u32_mod}

pub record FlowKey : Type 0 where
  pub saddr : ℕ
  pub daddr : ℕ
  pub sport : ℕ
  pub dport : ℕ

-- `operator==` by default: field by field
abbrev pub key_eq : FlowKey → FlowKey → Bool
key_eq a b =
    (a.saddr == b.saddr) && (a.daddr == b.daddr) && (a.sport == b.sport) && (a.dport == b.dport)

abbrev pub empty_key : FlowKey
empty_key = record { saddr = 0; daddr = 0; sport = 0; dport = 0 }

pub record NatSession : Type 0 where
  pub seq : ℕ
  pub internal_key : FlowKey
  pub external_port : ℕ
  pub last_active_tick : ℕ
  pub active : Bool

pub record IcmpEchoSession : Type 0 where
  pub seq : ℕ
  pub int_saddr : ℕ
  pub remote_daddr : ℕ
  pub int_id_nbo : ℕ
  pub ext_id_nbo : ℕ
  pub last_active_tick : ℕ
  pub active : Bool

abbrev pub max_sessions : ℕ
max_sessions = 65536

abbrev pub max_icmp_sessions : ℕ
max_icmp_sessions = 4096

-- A reverse index holds -1, `none` here, or a session's index; nothing else is stored in it.
abbrev pub Index : Type 0
Index = ℕ → Option ℕ

pub record NatEngine : Type 0 where
  pub sessions : ℕ → NatSession
  pub port_to_index : Index
  pub icmp_sessions : ℕ → IcmpEchoSession
  pub icmp_id_to_index : Index
  pub port_cursor : ℕ
  pub icmp_id_cursor : ℕ
  pub wan_ip_nbo : ℕ
  pub current_tick : ℕ

-- The constructor.
unfoldable pub new_engine : NatEngine
new_engine = record {
  sessions = λ i. record {
    seq = 0;
    internal_key = empty_key;
    external_port = 0;
    last_active_tick = 0;
    active = false;
  };
  port_to_index = λ i. none;
  icmp_sessions = λ i. record {
    seq = 0;
    int_saddr = 0;
    remote_daddr = 0;
    int_id_nbo = 0;
    ext_id_nbo = 0;
    last_active_tick = 0;
    active = false;
  };
  icmp_id_to_index = λ i. none;
  port_cursor = 10000;
  icmp_id_cursor = 25000;
  wan_ip_nbo = 0;
  current_tick = 0;
}

unfoldable pub set_wan_ip : NatEngine → ℕ → NatEngine
set_wan_ip e ip = record e { wan_ip_nbo = ip }

unfoldable pub tick : NatEngine → NatEngine
tick e = record e { current_tick = (e.current_tick + 1) % u32_mod }

-- `index[port].compare_exchange_strong(expect, -1)`
abbrev pub is_index : Option ℕ → ℕ → Bool
is_index none idx = false
is_index (some i) idx = i == idx

unfoldable pub release_index : Index → ℕ → ℕ → Index
release_index index port idx = if is_index (index port) idx then update index port none else index

-- `seq.fetch_add(1)` on an `atomic<uint32_t>`
abbrev pub bump : ℕ → ℕ
bump seq = (seq + 1) % u32_mod

-- A session is idle for more than 300 ticks, by the difference of `uint32_t`.
abbrev pub is_expired : ℕ → ℕ → Bool
is_expired now last = ltb 300 ((now + u32_mod - last) % u32_mod)

-- `cursor++; if (cursor > 60000) cursor = 10000;`
abbrev pub next_cursor : ℕ → ℕ
next_cursor c = let c' = (c + 1) % u16_mod in if ltb 60000 c' then 10000 else c'

-- One byte of FNV-1a: `h ^= p[i]; h *= 16777619U;`
abbrev pub fnv_byte : ℕ → ℕ → ℕ
fnv_byte h b = bit_xor h b * 16777619 % u32_mod

abbrev pub fnv_16 : ℕ → ℕ → ℕ
fnv_16 h v = fnv_byte (fnv_byte h (v % 256)) (v / 256 % 256)

abbrev pub fnv_32 : ℕ → ℕ → ℕ
fnv_32 h v = fnv_16 (fnv_16 h (v % 65536)) (v / 65536)

unfoldable pub hash_flow : FlowKey → ℕ
hash_flow k = fnv_16 (fnv_16 (fnv_32 (fnv_32 2166136261 k.saddr) k.daddr) k.sport) k.dport

unfoldable pub hash_icmp_flow : ℕ → ℕ → ℕ → ℕ
hash_icmp_flow sa da id_nbo = fnv_16 (fnv_32 (fnv_32 2166136261 sa) da) id_nbo
