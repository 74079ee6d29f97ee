-- ===== src/NatEngine/Engine.antt =====
-- `NatEngine::process_outbound` and `process_inbound`: a packet's way through the translation.
pub mod Rewrite
pub mod RewriteEcho
pub mod HeaderSum
pub mod Outbound
pub mod Inbound
pub mod Frame
pub mod Invariant
pub mod Translation
pub mod RoundTrip
use Prim.Native.Nat.{bit_and}
use high_performance_gaming.Common.{
  ℕ, ◌+◌, Bool, true, false, not, ◌&&◌, Option, none, some, ltb, ◌==◌, if◌then◌else◌,
}
use high_performance_gaming.Net.Bytes.{Memory, load16, load32, store16, store32, ntohs}
use high_performance_gaming.Net.Packet.{
  ParsedPacket, memory, with_memory, udp, tcp, icmp_echo, frag_off, protocol, check_at, saddr_at,
  daddr_at, saddr, daddr,
}
use high_performance_gaming.NatEngine.Checksum.{update_checksum_16, update_checksum_32}
use high_performance_gaming.NatEngine.State.{FlowKey, NatEngine, max_sessions, max_icmp_sessions}
use high_performance_gaming.NatEngine.Sessions.{
  claim, refresh, resolve, Lookup, unresolved, refused, resolved,
}
use high_performance_gaming.NatEngine.Icmp.{
  claim_icmp, refresh_icmp, resolve_icmp, IcmpLookup, icmp_unresolved, icmp_refused, icmp_resolved,
}

-- The Boolean result, the engine and the packet.
abbrev pub Outcome : Type 0
Outcome = Bool × NatEngine × ParsedPacket

-- `if (*check_ptr != 0) { update_checksum_32(…); update_checksum_16(…); }`, then nothing else.
unfoldable pub adjust_transport : Memory → ℕ → ℕ → ℕ → ℕ → ℕ → Memory
adjust_transport m at_check at_addr at_port addr port =
    if load16 m at_check == 0
    then m
    else let m' =
        store16 m at_check (update_checksum_32 (load16 m at_check) (load32 m at_addr) addr) in
      store16 m' at_check (update_checksum_16 (load16 m' at_check) (load16 m' at_port) port)

-- Both checksums, then the address and the port are rewritten. `at_addr` and `at_port` point to the
-- source fields of an outgoing packet, to the destination fields of an incoming one.
unfoldable pub rewrite_transport : Memory → ℕ → ℕ → ℕ → ℕ → ℕ → ℕ → Memory
rewrite_transport m at_ip_check at_check at_addr at_port addr port =
    let m1 =
      store16 m at_ip_check (update_checksum_32 (load16 m at_ip_check) (load32 m at_addr) addr) in
    let m2 = adjust_transport m1 at_check at_addr at_port addr port in
    store16 (store32 m2 at_addr addr) at_port port

-- The same for an echo message, whose checksum does not cover the addresses.
unfoldable pub rewrite_icmp : Memory → ℕ → ℕ → ℕ → ℕ → ℕ → ℕ → Memory
rewrite_icmp m at_ip_check at_check at_addr at_id addr id =
    let old_id = load16 m at_id in
    let m1 =
      store16 m at_ip_check (update_checksum_32 (load16 m at_ip_check) (load32 m at_addr) addr) in
    let m2 =
      if load16 m1 at_check == 0
      then m1
      else store16 m1 at_check (update_checksum_16 (load16 m1 at_check) old_id id) in
    store16 (store32 m2 at_addr addr) at_id id

-- The transport header and its checksum: at 6 in a UDPHeader, at 16 in a TCPHeader.
abbrev pub transport : ParsedPacket → ℕ → Option (ℕ × ℕ)
transport p ip =
    if protocol (memory p) ip == 17
    then elim (udp p) [ none ↦ none | some l4 ↦ some (l4, l4 + 6) ]
    else elim (tcp p) [ none ↦ none | some l4 ↦ some (l4, l4 + 16) ]

-- `Logic::FlowKey key{ip->saddr, ip->daddr, *sport_ptr, dport};`
abbrev pub flow_key : Memory → ℕ → ℕ → FlowKey
flow_key m ip l4 = record {
  saddr = saddr m ip;
  daddr = daddr m ip;
  sport = load16 m l4;
  dport = load16 m (l4 + 2);
}

-- `process_outbound` for a UDP or TCP packet whose headers are there.
unfoldable pub translate_outbound : NatEngine → ParsedPacket → ℕ → ℕ → ℕ → Outcome
translate_outbound e p ip l4 at_check =
    let m = memory p in
    let (ext_port, e') = claim e (flow_key m ip l4) in
    if ext_port == 0 then (false, e', p) else (
      true,
      e',
      with_memory p
          (rewrite_transport m (check_at ip) at_check (saddr_at ip) l4 e.wan_ip_nbo ext_port),
    )

-- The fragment bits and offset, the type and the code of an echo message that is translated.
abbrev pub is_whole_echo : Memory → ℕ → ℕ → ℕ → Bool
is_whole_echo m ip icmp type =
    (bit_and (ntohs (frag_off m ip)) 0x3fff == 0) && ((m icmp == type) && (m (icmp + 1) == 0))

unfoldable pub process_outbound_icmp : NatEngine → ParsedPacket → ℕ → Outcome
process_outbound_icmp e p ip = elim (icmp_echo p) [
  | none ↦ (false, e, p)
  | some icmp ↦
      let m = memory p in
      let (ext_nbo, e') = claim_icmp e (saddr m ip) (daddr m ip) (load16 m (icmp + 4)) in
      if e.wan_ip_nbo == 0
      then (false, e, p)
      else if not (is_whole_echo m ip icmp 8)
      then (false, e, p)
      else if ext_nbo == 0
      then (false, e', p)
      else (
        true,
        e',
        with_memory p
            (rewrite_icmp m (check_at ip) (icmp + 2) (saddr_at ip) (icmp + 4) e.wan_ip_nbo ext_nbo),
      )
]

-- `process_outbound` once the packet is known to be IPv4.
unfoldable pub outbound_at : NatEngine → ParsedPacket → ℕ → Outcome
outbound_at e p ip =
    let proto = protocol (memory p) ip in
    if e.wan_ip_nbo == 0
    then (false, e, p)
    else if proto == 1
    then process_outbound_icmp e p ip
    else if not (proto == 6) && not (proto == 17)
    then (false, e, p)
    else elim (transport p ip) [
      | none ↦ (false, e, p)
      | some (l4, at_check) ↦ translate_outbound e p ip l4 at_check
    ]

unfoldable pub process_outbound : NatEngine → ParsedPacket → Outcome
process_outbound e p = elim p.ipv4 [ none ↦ (false, e, p) | some ip ↦ outbound_at e p ip ]

-- `process_inbound` for the session that the index names.
unfoldable pub deliver : NatEngine → ParsedPacket → ℕ → ℕ → ℕ → ℕ → Lookup → Outcome
deliver e p ip l4 at_check idx unresolved = (false, e, p)
deliver e p ip l4 at_check idx refused = (false, e, p)
deliver e p ip l4 at_check idx (resolved addr port) = (
  true,
  refresh e idx,
  with_memory p
      (rewrite_transport (memory p) (check_at ip) at_check (daddr_at ip) (l4 + 2) addr port),
)

-- `process_inbound` for a UDP or TCP packet to the WAN address whose headers are there.
unfoldable pub translate_inbound : NatEngine → ParsedPacket → ℕ → ℕ → ℕ → Outcome
translate_inbound e p ip l4 at_check =
    let m = memory p in
    let dport = load16 m (l4 + 2) in
    elim (e.port_to_index (ntohs dport)) [
      | none ↦ (false, e, p)
      | some idx ↦
          if not (ltb idx max_sessions)
          then (false, e, p)
          else deliver e p ip l4 at_check idx (resolve e idx (saddr m ip) (load16 m l4) dport)
    ]

-- `process_inbound_icmp` for the session that the index names.
unfoldable pub deliver_echo : NatEngine → ParsedPacket → ℕ → ℕ → ℕ → IcmpLookup → Outcome
deliver_echo e p ip icmp idx icmp_unresolved = (false, e, p)
deliver_echo e p ip icmp idx icmp_refused = (false, e, p)
deliver_echo e p ip icmp idx (icmp_resolved addr int_id) = (
  true,
  refresh_icmp e idx,
  with_memory p
      (rewrite_icmp (memory p) (check_at ip) (icmp + 2) (daddr_at ip) (icmp + 4) addr int_id),
)

-- `process_inbound_icmp` once the echo header is known to be there.
unfoldable pub inbound_echo_at : NatEngine → ParsedPacket → ℕ → ℕ → Outcome
inbound_echo_at e p ip icmp =
    let m = memory p in
    let id = load16 m (icmp + 4) in
    if not (daddr m ip == e.wan_ip_nbo)
    then (false, e, p)
    else if not (is_whole_echo m ip icmp 0)
    then (false, e, p)
    else elim (e.icmp_id_to_index (ntohs id)) [
      | none ↦ (false, e, p)
      | some idx ↦
          if not (ltb idx max_icmp_sessions)
          then (false, e, p)
          else deliver_echo e p ip icmp idx (resolve_icmp e idx (saddr m ip) id)
    ]

unfoldable pub process_inbound_icmp : NatEngine → ParsedPacket → ℕ → Outcome
process_inbound_icmp e p ip = elim (icmp_echo p) [
  | none ↦ (false, e, p)
  | some icmp ↦ inbound_echo_at e p ip icmp
]

-- `process_inbound` once the packet is known to be IPv4.
unfoldable pub inbound_at : NatEngine → ParsedPacket → ℕ → Outcome
inbound_at e p ip =
    let proto = protocol (memory p) ip in
    if proto == 1
    then process_inbound_icmp e p ip
    else if not (proto == 6) && not (proto == 17)
    then (false, e, p)
    else if not (daddr (memory p) ip == e.wan_ip_nbo)
    then (false, e, p)
    else elim (transport p ip) [
      | none ↦ (false, e, p)
      | some (l4, at_check) ↦ translate_inbound e p ip l4 at_check
    ]

unfoldable pub process_inbound : NatEngine → ParsedPacket → Outcome
process_inbound e p = elim p.ipv4 [ none ↦ (false, e, p) | some ip ↦ inbound_at e p ip ]
