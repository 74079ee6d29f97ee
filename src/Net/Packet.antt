-- ===== src/Net/Packet.antt =====
-- `ParsedPacket` of include/Headers_util.hpp: one Ethernet frame and the pointers into it. A header
-- pointer is an offset into the span; a header field is a load at that offset.
pub mod Bounds
use Prim.Native.Nat.{bit_and}
use high_performance_gaming.Common.{
  ℕ, ◌+◌, ◌*◌, ◌%◌, ◌≡◌, arith, Bool, true, false, not, ◌&&◌, Option, none, some, ltb, leb, ◌==◌,
  if◌then◌else◌,
}
use high_performance_gaming.Net.Bytes.{Memory, load16, load32, ntohs}

-- The packed sizes of EthernetHeader, IPv4Header, UDPHeader, TCPHeader and IcmpEchoHeader.
abbrev pub ethernet_size : ℕ
ethernet_size = 14

abbrev pub ipv4_size : ℕ
ipv4_size = 20

abbrev pub udp_size : ℕ
udp_size = 8

abbrev pub tcp_size : ℕ
tcp_size = 20

abbrev pub icmp_size : ℕ
icmp_size = 8

-- `std::span<uint8_t>`
pub record Span : Type 0 where
  pub size : ℕ
  pub bytes : Memory

pub record ParsedPacket : Type 0 where
  pub raw_span : Span
  pub eth : Option ℕ
  pub ipv4 : Option ℕ
  pub l4_protocol : ℕ
  pub ihl : ℕ
  pub l4_offset : ℕ
  pub l4_header : Option ℕ

abbrev pub memory : ParsedPacket → Memory
memory p = p.raw_span.bytes

-- The packet whose bytes have been written; the pointers stay.
abbrev pub with_memory : ParsedPacket → Memory → ParsedPacket
with_memory p m = record p { raw_span = record { size = p.raw_span.size; bytes = m } }

abbrev pub udp : ParsedPacket → Option ℕ
udp p = if p.l4_protocol == 17 then p.l4_header else none

abbrev pub tcp : ParsedPacket → Option ℕ
tcp p = if p.l4_protocol == 6 then p.l4_header else none

abbrev pub icmp_echo : ParsedPacket → Option ℕ
icmp_echo p = if p.l4_protocol == 1 then p.l4_header else none

abbrev pub is_valid_ipv4 : ParsedPacket → Bool
is_valid_ipv4 p = elim p.ipv4 [ none ↦ false | some ip ↦ true ]

-- The fields of an IPv4Header, all but `check` read by the code.
abbrev pub ver_ihl : Memory → ℕ → ℕ
ver_ihl m ip = m ip

abbrev pub frag_off : Memory → ℕ → ℕ
frag_off m ip = load16 m (ip + 6)

abbrev pub protocol : Memory → ℕ → ℕ
protocol m ip = m (ip + 9)

abbrev pub check_at : ℕ → ℕ
check_at ip = ip + 10

abbrev pub saddr_at : ℕ → ℕ
saddr_at ip = ip + 12

abbrev pub daddr_at : ℕ → ℕ
daddr_at ip = ip + 16

abbrev pub saddr : Memory → ℕ → ℕ
saddr m ip = load32 m (saddr_at ip)

abbrev pub daddr : Memory → ℕ → ℕ
daddr m ip = load32 m (daddr_at ip)

-- `ParsedPacket p; p.raw_span = span;`
abbrev pub unparsed : Span → ParsedPacket
unparsed s = record {
  raw_span = s;
  eth = none;
  ipv4 = none;
  l4_protocol = 0;
  ihl = 0;
  l4_offset = 0;
  l4_header = none;
}

-- The transport header, where the span holds all of it.
pub l4_of : ℕ → ℕ → ℕ → Option ℕ
l4_of size protocol offset =
    if (protocol == 17) && leb (offset + udp_size) size
    then some offset
    else if (protocol == 6) && leb (offset + tcp_size) size
    then some offset
    else if (protocol == 1) && leb (offset + icmp_size) size
    then some offset
    else none

-- What `parse` does once it has set `eth` and seen an IPv4 frame with a whole IPv4 header.
pub parse_ipv4_header : Span → ParsedPacket
unfolding l4_of
parse_ipv4_header s =
    let ip = ethernet_size in
    let ihl = bit_and (ver_ihl s.bytes ip) 0x0f * 4 in
    let offset = ethernet_size + ihl in
    let bad = record (unparsed s) { eth = some 0; ipv4 = some ip; ihl = ihl; l4_offset = offset } in
    if ltb s.size offset then bad else record bad {
      l4_protocol = protocol s.bytes ip;
      l4_header = l4_of s.size (protocol s.bytes ip) offset;
    }

unfoldable pub parse : Span → ParsedPacket
unfolding parse_ipv4_header ntohs load16
parse s =
    if ltb s.size ethernet_size
    then unparsed s
    else if not (ntohs (load16 s.bytes 12) == 0x0800)
    then record (unparsed s) { eth = some 0 }
    else if ltb s.size (ethernet_size + ipv4_size)
    then record (unparsed s) { eth = some 0 }
    else parse_ipv4_header s
