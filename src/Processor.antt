-- ===== src/Processor.antt =====
-- `HeuristicProcessor` (include/Processor.hpp): the two lanes. `LARGE_PACKET_THRESHOLD_BYTES` of
-- include/Config.hpp is read from the configuration, so it is an argument.
pub mod Lanes
use high_performance_gaming.Common.{
  ℕ, ◌+◌, Bool, true, false, not, ◌||◌, Option, none, some, ltb, ◌==◌, if◌then◌else◌,
}
use high_performance_gaming.Net.Bytes.{load16, ntohs}
use high_performance_gaming.Net.Packet.{ParsedPacket, memory, udp, is_valid_ipv4}

pub data Priority : Type 0 where
  high normal : Priority

abbrev pub Handler : Type 0
Handler = ℕ → ParsedPacket → Priority

unfoldable pub handle_default : Handler
handle_default threshold p = if ltb p.raw_span.size threshold then high else normal

unfoldable pub handle_udp : Handler
handle_udp threshold p = elim (udp p) [
  | none ↦ normal
  | some l4 ↦
      if (ntohs (load16 (memory p) (l4 + 2)) == 53) || (ntohs (load16 (memory p) l4) == 53)
      then high
      else if ltb p.raw_span.size threshold
      then high
      else normal
]

unfoldable pub handle_tcp : Handler
handle_tcp threshold p = if ltb p.raw_span.size threshold then high else normal

unfoldable pub handle_icmp : Handler
handle_icmp threshold p = high

-- The table that the constructor fills.
unfoldable pub protocol_handlers : ℕ → Handler
protocol_handlers protocol =
    if protocol == 17
    then handle_udp
    else if protocol == 6
    then handle_tcp
    else if protocol == 1
    then handle_icmp
    else handle_default

unfoldable pub process : Handler
process threshold p =
    if is_valid_ipv4 p then protocol_handlers p.l4_protocol threshold p else normal
