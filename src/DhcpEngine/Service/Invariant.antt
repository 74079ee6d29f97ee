-- ===== src/DhcpEngine/Service/Invariant.antt =====
-- The pool stays valid under everything that the engine does.
use high_performance_gaming.Common.{
  ℕ, zero, suc, ◌+◌, ◌<◌, ◌≡◌, inl, inr, arith, true, Option, none, some, ◌==◌, if◌then◌else◌,
  Bool-cases, sym, ◌∙◌,
}
use high_performance_gaming.RingBuffer.Spsc
use high_performance_gaming.Net.Bytes.{Memory}
use high_performance_gaming.Net.Packet.{Span, ParsedPacket, parse, udp, is_valid_ipv4}
use high_performance_gaming.DhcpEngine.Pool.{
  DhcpEngine, DhcpMessage, first_slot, has_ip, renew, find_or_assign_lease, commit_lease,
}
use high_performance_gaming.DhcpEngine.Pool.Invariant.{
  IsValid, Searched, found, absent, first_slot-Searched, find_or_assign_lease-IsValid,
  init_pool-IsValid,
}
use high_performance_gaming.DhcpEngine.Pool.Grant.{find_or_assign_lease-Holds}
use high_performance_gaming.DhcpEngine.Options.{Cursor, scan_options}
use high_performance_gaming.DhcpEngine.Request.{
  answer_discover, answer_request, respond, send_response, handle_options, handle_dhcp_request,
  client_mac, is_request, Reply, dhcp_size,
}
use high_performance_gaming.DhcpEngine.Service.{
  reconfigure, Clock, Served, serve_one, serve, process_background_tasks, queue_room,
}
use high_performance_gaming.Net.Bytes.{load32}

renew-IsValid :
    (e : DhcpEngine) (now k : ℕ) → (e.leases k).active ≡ true → IsValid e → IsValid (renew e now k)
unfolding renew
renew-IsValid e now k act v = record {
  count_ok = v.count_ok;
  one_address = λ i j hi hj same. ground (arith, v.one_address i j);
  one_lease = λ i j hi hj ai aj same. ground (arith, v.one_lease i j, act);
}

-- Every slot with the address is active.
abbrev InUse : DhcpEngine → ℕ → Type 0
InUse e ip = (i : ℕ) → i < e.pool_count → (e.leases i).ip ≡ ip → (e.leases i).active ≡ true

commit_lease-IsValid :
    (e : DhcpEngine) (ip now : ℕ) → InUse e ip → IsValid e → IsValid (commit_lease e ip now)
unfolding commit_lease
commit_lease-IsValid e ip now used v =
    go (first_slot (has_ip e ip) e.pool_count 0) (first_slot-Searched (has_ip e ip) e.pool_count 0)
  where
    go :
        (r : Option ℕ)
        → Searched (has_ip e ip) e.pool_count 0 r
        → IsValid (elim r [ some i ↦ renew e now i | none ↦ e ])
    go _ (found k _ hk t) = renew-IsValid e now k (used k (omega arith) (ground (arith, t))) v
    go _ (absent a) = v

find-InUse :
    (e : DhcpEngine) (mac now : ℕ)
    → IsValid e
    → InUse (find_or_assign_lease e mac now).1 (find_or_assign_lease e mac now).0
find-InUse e mac now v i hi same = elim (find_or_assign_lease-Holds e mac now) [
  | inl held ↦
      let v' = find_or_assign_lease-IsValid e mac now v in
      let at = v'.one_address i held.slot hi held.in_pool (same ∙ sym held.of_address) in
      rw at held.is_active
  | inr (zero_ip, kept, busy) ↦ rw kept (ground (arith, busy i (rw kept at hi)))
]

discover-IsValid : (r : ℕ × DhcpEngine) → IsValid r.1 → IsValid (answer_discover r).1
unfolding answer_discover
discover-IsValid (ip, e) v = elim (Bool-cases (ip == 0)) [ inl b ↦ rw b v | inr b ↦ rw b v ]

request-IsValid :
    (ip now' : ℕ) (r : ℕ × DhcpEngine)
    → InUse r.1 r.0
    → IsValid r.1
    → IsValid (answer_request ip now' r).1
unfolding answer_request
request-IsValid ip now' (leased, e) used v = elim (Bool-cases (leased == ip)) [
  | inl b ↦ rw b (commit_lease-IsValid e leased now' used v)
  | inr b ↦ rw b v
]

respond-IsValid :
    (e : DhcpEngine) (mac ciaddr : ℕ) (c : Cursor) (now now' : ℕ)
    → IsValid e
    → IsValid (respond e mac ciaddr c now now').1
unfolding respond
respond-IsValid e mac ciaddr c now now' v =
    let v' = find_or_assign_lease-IsValid e mac now v in
    elim (Bool-cases (c.msg_type == 1)) [
      | inl b ↦ rw b (discover-IsValid _ v')
      | inr b ↦ elim (Bool-cases (c.msg_type == 3)) [
        | inl d ↦ rw (b, d) (request-IsValid _ now' _ (find-InUse e mac now v) v')
        | inr d ↦ rw (b, d) v
      ]
    ]

send_response-IsValid :
    (e : DhcpEngine) (m : Memory) (dhcp : ℕ) (r : Reply × DhcpEngine)
    → IsValid r.1
    → IsValid (send_response e m dhcp r).1
send_response-IsValid e m dhcp (none, e') v = v
send_response-IsValid e m dhcp (some (type, ip), e') v = v

options-IsValid :
    (e : DhcpEngine) (m : Memory) (dhcp : ℕ) (c : Option Cursor) (now now' : ℕ)
    → IsValid e
    → IsValid (handle_options e m dhcp c now now').1
unfolding handle_options
options-IsValid e m dhcp none now now' v = v
options-IsValid e m dhcp (some c) now now' v =
    send_response-IsValid e m dhcp _
      (respond-IsValid e (client_mac m dhcp) (load32 m (dhcp + 12)) c now now' v)

-- A message of any bytes leaves a valid pool valid.
pub handle_dhcp_request-IsValid :
    (e : DhcpEngine) (msg : DhcpMessage) (now now' : ℕ)
    → IsValid e
    → IsValid (handle_dhcp_request e msg now now').1
unfolding handle_dhcp_request
handle_dhcp_request-IsValid e msg now now' v =
    let m = msg.data_bytes in
    let parsed = parse (record { size = msg.len; bytes = m }) in
    let dhcp = parsed.l4_offset + 8 in
    elim (Bool-cases (is_valid_ipv4 parsed)) [
      | inr b ↦ rw b v
      | inl b ↦ rw b (go parsed dhcp (udp parsed))
    ]
  where
    go :
        (parsed : ParsedPacket) (dhcp : ℕ) (u : Option ℕ)
        → IsValid
            (elim u as (λ x. Option Span × DhcpEngine) [
              | none ↦ (none, e)
              | some l4 ↦
                  if is_request msg parsed l4
                  then handle_options e msg.data_bytes dhcp
                      (scan_options msg.data_bytes (dhcp + dhcp_size) msg.len)
                      now
                      now'
                  else (none, e)
            ]).1
    go parsed dhcp none = v
    go parsed dhcp (some l4) = elim (Bool-cases (is_request msg parsed l4)) [
      | inl b ↦ rw b (options-IsValid e msg.data_bytes dhcp _ now now' v)
      | inr b ↦ rw b v
    ]

serve_one-IsValid :
    (e : DhcpEngine) (msg : Option DhcpMessage) (clock : Clock) (rest : DhcpEngine → Served)
    → IsValid e
    → ((e' : DhcpEngine) → IsValid e' → IsValid (rest e').1)
    → IsValid (serve_one e msg clock rest).1
serve_one-IsValid e none clock rest v next = v
serve_one-IsValid e (some msg) clock rest v next =
    next _ (handle_dhcp_request-IsValid e msg clock.now clock.now' v)

serve-IsValid :
    (n k : ℕ) (clock : ℕ → Clock) (e : DhcpEngine) → IsValid e → IsValid (serve n k clock e).1
unfolding serve
serve-IsValid zero k clock e v = v
serve-IsValid (suc n) k clock e v =
    let popped = Spsc.pop queue_room e.request_queue in
    serve_one-IsValid (record e { request_queue = popped.1 }) popped.0 (clock k)
      (serve n (k + 1) clock)
      (record { count_ok = v.count_ok; one_address = v.one_address; one_lease = v.one_lease })
      (serve-IsValid n (k + 1) clock)

-- From a valid pool, whatever stands in the queue and whatever the clock reads, the background task
-- leaves the pool valid: no two leases for one device, and no address in two slots.
pub process_background_tasks-IsValid :
    (clock : ℕ → Clock) (e : DhcpEngine) → IsValid e → IsValid (process_background_tasks clock e).1
unfolding process_background_tasks
process_background_tasks-IsValid clock e v = serve-IsValid 32 0 clock e v

-- From a valid pool, a new range or lease duration, accepted or refused, leaves it valid.
pub reconfigure-IsValid :
    (e : DhcpEngine) (pool_start pool_end lease : ℕ)
    → IsValid e
    → IsValid (reconfigure e pool_start pool_end lease).1
unfolding reconfigure
reconfigure-IsValid e pool_start pool_end lease v =
    init_pool-IsValid (record e { lease_duration = lease }) pool_start pool_end
      (record { count_ok = v.count_ok; one_address = v.one_address; one_lease = v.one_lease })
