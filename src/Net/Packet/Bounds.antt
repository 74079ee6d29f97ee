-- ===== src/Net/Packet/Bounds.antt =====
-- Where the pointers of a parsed packet lie (`ParsedPacket::parse`).
use Prim.Native.Nat.{bit_and}
use high_performance_gaming.Common.{
  ℕ, ◌+◌, ◌*◌, ◌≤◌, ◌≡◌, arith, Option, none, some, Bool-cases, inl, inr, refl, ltb, ◌==◌,
}
use high_performance_gaming.Net.Bytes.{load16, ntohs}
use high_performance_gaming.Net.Packet.{
  Span, ParsedPacket, parse, parse_ipv4_header, ethernet_size, ipv4_size, ver_ihl, udp, tcp,
  icmp_echo,
}

-- A pointer is null, or it is `start` and `len` bytes from it lie inside `size` bytes.
abbrev pub PointsTo : Option ℕ → ℕ → ℕ → ℕ → Type 0
PointsTo none start len size = Unit
PointsTo (some o) start len size = (o ≡ start) × (o + len ≤ size)

pub record IsParsed (p : ParsedPacket) : Type 0 where
  pub eth_in : PointsTo p.eth 0 14 p.raw_span.size
  pub ipv4_in : PointsTo p.ipv4 14 20 p.raw_span.size
  pub l4_in : PointsTo p.l4_header (14 + p.ihl) 8 p.raw_span.size
  pub udp_in : PointsTo (udp p) (14 + p.ihl) 8 p.raw_span.size
  pub tcp_in : PointsTo (tcp p) (14 + p.ihl) 20 p.raw_span.size
  pub icmp_in : PointsTo (icmp_echo p) (14 + p.ihl) 8 p.raw_span.size

-- Whatever the bytes of the span are, each pointer that `parse` returns and each that `udp`, `tcp`
-- and `icmp_echo` hand out is null, or stands at its header's offset with the whole header inside
-- the span.
pub parse-IsParsed : (s : Span) → IsParsed (parse s)
unfolding parse
parse-IsParsed s = record {
  eth_in = ground arith;
  ipv4_in = ground arith;
  l4_in = ground arith;
  udp_in = ground arith;
  tcp_in = ground arith;
  icmp_in = ground arith;
}

-- The packet keeps the frame that it was parsed from.
pub raw_span-parse : (s : Span) → (parse s).raw_span ≡ s
unfolding parse parse_ipv4_header
raw_span-parse s = elim (Bool-cases (ltb s.size ethernet_size)) [
  | inl b ↦ rw b refl
  | inr b ↦ elim (Bool-cases (ntohs (load16 s.bytes 12) == 0x0800)) [
    | inr c ↦ rw (b, c) refl
    | inl c ↦ elim (Bool-cases (ltb s.size (ethernet_size + ipv4_size))) [
      | inl d ↦ rw (b, c, d) refl
      | inr d ↦
          elim (Bool-cases
            (ltb s.size (ethernet_size + bit_and (ver_ihl s.bytes ethernet_size) 0x0f * 4))) [
              | inl e ↦ rw (b, c, d, e) refl
              | inr e ↦ rw (b, c, d, e) refl
            ]
    ]
  ]
]
