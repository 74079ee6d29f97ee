-- ===== src/Tests/Leases.antt =====
-- Two devices and a pool of two addresses.
use high_performance_gaming.Common.{
  ℕ, ◌+◌, ◌-◌, ◌%◌, ◌≤◌, ◌<◌, ◌≡◌, ◌⊎◌, arith, refl, false, List, [], ◌∷◌, some, min,
}
use high_performance_gaming.Common.Array.{get_or}
use high_performance_gaming.Net.Bytes.{Memory, ntohl, ntohs, sum_words}
use high_performance_gaming.DhcpEngine.Pool.{
  DhcpEngine, init_pool, find_or_assign_lease, assign, first_slot, clear_leases, pool_advance,
  pool_ok, end_before_start, max_pool_size,
}
use high_performance_gaming.DhcpEngine.Pool.Invariant.{
  IsValid, init_pool-IsValid, init_pool-leases, find_or_assign_lease-IsValid,
}
use high_performance_gaming.DhcpEngine.Pool.Grant.{
  Holds, IsLive, find_or_assign_lease-Holds, find_or_assign_lease-keeps,
}
use high_performance_gaming.DhcpEngine.Options.{Cursor, scan_options}
use high_performance_gaming.DhcpEngine.Options.Scan.{
  DhcpOption, padding, option, encode, meaning, scan_options-ends, scan_options-encode,
}
use high_performance_gaming.DhcpEngine.Request.{respond, response, answer_discover}
use high_performance_gaming.DhcpEngine.Request.Checksum.{response-sum}
use high_performance_gaming.DhcpEngine.Request.Decision.{discover, request, discover-request}
use high_performance_gaming.DhcpEngine.Service.{Clock, process_background_tasks}
use high_performance_gaming.DhcpEngine.Service.Invariant.{process_background_tasks-IsValid}

abbrev pub blank : DhcpEngine
blank = record {
  request_queue = record {
    buffer = λ i. record { len = 0; data_bytes = λ j. 0 };
    head = 0;
    tail = 0;
  };
  leases = λ i. record { mac = 0; ip = 0; active = false; lease_expiry = 0 };
  pool_count = 0;
  router_ip = 0x0101a8c0;
  lease_duration = 100;
  lan_if_mac = 0x112233445566;
}

pub blank-IsValid : IsValid blank
blank-IsValid = record {
  count_ok = omega arith;
  one_address = λ i j hi hj h. absurd (omega arith);
  one_lease = λ i j hi hj ai aj h. absurd (omega arith);
}

-- 192.168.1.10 and 192.168.1.11
abbrev first_ip : ℕ
first_ip = 0x0a01a8c0

abbrev pool : DhcpEngine
pool = (init_pool blank first_ip 0x0b01a8c0).1

pool-IsValid : IsValid pool
pool-IsValid = init_pool-IsValid blank first_ip 0x0b01a8c0 blank-IsValid

init_pool-leases_example :
    let (result, e') = init_pool blank first_ip 0x0b01a8c0 in
    ((ntohl 0x0b01a8c0 < ntohl first_ip) × (result ≡ end_before_start) × (e' ≡ blank))
    ⊎ ((ntohl first_ip ≤ ntohl 0x0b01a8c0)
        × (result ≡ pool_ok)
        × (e'.pool_count ≡ min ((ntohl 0x0b01a8c0 - ntohl first_ip) + 1) max_pool_size)
        × ((i : ℕ)
            → i < e'.pool_count
            → (ntohl (e'.leases i).ip ≡ ntohl first_ip + i) × ((e'.leases i).active ≡ false)))
init_pool-leases_example = init_pool-leases blank first_ip 0x0b01a8c0

asked-IsValid : IsValid (find_or_assign_lease pool 7 50).1
asked-IsValid = find_or_assign_lease-IsValid pool 7 50 pool-IsValid

find_or_assign_lease-Holds_example :
    let (ip, e') = find_or_assign_lease pool 7 50 in
    Holds e' 7 ip ⊎ ((ip ≡ 0) × (e' ≡ pool) × ((i : ℕ) → i < pool.pool_count → IsLive pool 50 i))
find_or_assign_lease-Holds_example = find_or_assign_lease-Holds pool 7 50

-- Device 7 has the first address.
abbrev leased : DhcpEngine
leased = (find_or_assign_lease pool 7 50).1

leased-Holds : Holds leased 7 first_ip
unfolding find_or_assign_lease first_slot init_pool clear_leases pool_advance assign ntohl ntohs
leased-Holds = record {
  slot = 0;
  in_pool = omega arith;
  is_active = refl;
  of_device = refl;
  of_address = refl;
}

find_or_assign_lease-keeps_example : (find_or_assign_lease leased 8 60).1.leases 0 ≡ leased.leases 0
unfolding find_or_assign_lease first_slot init_pool clear_leases pool_advance assign ntohl ntohs
find_or_assign_lease-keeps_example = find_or_assign_lease-keeps leased 8 60 0 refl (omega arith)

discover-request_example :
    let (reply, e') = respond (respond pool 7 0 discover 50 50).1 7 0 (request first_ip) 60 61 in
    (reply ≡ some (5, first_ip)) × Holds e' 7 first_ip × IsValid e'
unfolding respond answer_discover find_or_assign_lease first_slot init_pool clear_leases
    pool_advance ntohl ntohs
discover-request_example =
    discover-request pool 7 first_ip discover (request first_ip) 0 50 50 0 60 61 pool-IsValid refl
      refl refl refl

-- A request for the first address, padded.
abbrev options : List DhcpOption
options =
    option 53 (3 ∷ [])
    ∷ padding
    ∷ option 12 (104 ∷ 105 ∷ [])
    ∷ option 50 (192 ∷ 168 ∷ 1 ∷ 10 ∷ [])
    ∷ []

abbrev option_bytes : Memory
option_bytes i = get_or (encode options) i 0

scan_options-ends_example : (last : Cursor) × (scan_options option_bytes 0 20 ≡ some last)
scan_options-ends_example = scan_options-ends option_bytes 0 20

scan_options-encode_example :
    (last : Cursor) × (scan_options option_bytes 0 20 ≡ some last)
    × ((last.msg_type, last.raw_requested_ip) ≡ meaning options (0, 0))
scan_options-encode_example =
    scan_options-encode option_bytes 0 20 options (ground arith) (ground arith) (omega arith)

response-sum_example : sum_words (response leased option_bytes 0 5 first_ip).bytes 14 10 % 65535 ≡ 0
response-sum_example = response-sum leased option_bytes 0 5 first_ip

abbrev clock : ℕ → Clock
clock k = record { now = 100 + k; now' = 101 + k }

process_background_tasks-IsValid_example : IsValid (process_background_tasks clock leased).1
process_background_tasks-IsValid_example =
    process_background_tasks-IsValid clock leased asked-IsValid
