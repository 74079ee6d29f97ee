-- ===== src/Processor/Lanes.antt =====
-- Which packets go to the High lane.
use high_performance_gaming.Common.{ℕ, ◌+◌, ◌<◌, ◌≡◌, ◌≢◌, ◌⊎◌, ◌↔◌, arith, true, some}
use high_performance_gaming.Net.Bytes.{load16, ntohs}
use high_performance_gaming.Net.Packet.{ParsedPacket, memory, udp, is_valid_ipv4}
use high_performance_gaming.Processor.{
  high, process, protocol_handlers, handle_udp, handle_tcp, handle_icmp, handle_default,
}

-- A message of the name service, to its port or from it.
abbrev pub IsDns : ParsedPacket → ℕ → Type 0
IsDns p l4 = (ntohs (load16 (memory p) (l4 + 2)) ≡ 53) ⊎ (ntohs (load16 (memory p) l4) ≡ 53)

-- IPv4, and: ICMP; or UDP with a whole header, of the name service or small; or another protocol
-- and small.
abbrev pub IsInteractive : ℕ → ParsedPacket → Type 0
IsInteractive threshold p =
    (is_valid_ipv4 p ≡ true)
    × ((p.l4_protocol ≡ 1)
        ⊎ ((l4 : ℕ) × (udp p ≡ some l4) × (IsDns p l4 ⊎ (p.raw_span.size < threshold)))
        ⊎ ((p.l4_protocol ≢ 17) × (p.raw_span.size < threshold)))

-- Whatever the threshold is, a packet goes to the High lane exactly when it is IPv4 and: is ICMP; or is
-- UDP with a whole header, and has port 53 at one end or is smaller than the threshold; or is of another
-- protocol and smaller than the threshold.
pub process-IsInteractive :
    (threshold : ℕ) (p : ParsedPacket) → (process threshold p ≡ high) ↔ IsInteractive threshold p
unfolding process protocol_handlers handle_udp handle_tcp handle_icmp handle_default
process-IsInteractive threshold p = ground arith
