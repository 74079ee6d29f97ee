-- ===== src/NatEngine/Engine/Translation.antt =====
-- What a translated packet looks like.
use high_performance_gaming.Common.{
  ℕ, ◌+◌, ◌%◌, ◌≤◌, ◌<◌, ◌≡◌, ◌⊎◌, inl, inr, arith, true, false, refl, some,
}
use high_performance_gaming.Net.Bytes.{Memory, IsBytes, load16, load32}
use high_performance_gaming.Net.Packet.{ParsedPacket, memory, icmp_echo, saddr, daddr}
use high_performance_gaming.Net.Packet.Bounds.{IsParsed}
use high_performance_gaming.NatEngine.State.{NatEngine}
use high_performance_gaming.NatEngine.Sessions.{claim}
use high_performance_gaming.NatEngine.Engine.{
  Outcome, transport, flow_key, rewrite_transport, rewrite_icmp, process_outbound,
}
use high_performance_gaming.NatEngine.Engine.Rewrite.{rewrite-load16_ne, rewrite-address}
use high_performance_gaming.NatEngine.Engine.RewriteEcho.{
  rewrite_icmp-load16_ne, rewrite_icmp-address,
}
use high_performance_gaming.NatEngine.Engine.HeaderSum.{
  header_sum, header_sum-rewrite, header_sum-rewrite_icmp,
}
use high_performance_gaming.NatEngine.Engine.Invariant.{IsValid}
use high_performance_gaming.NatEngine.Engine.Outbound.{
  Outbound, refused, no_session, sent, no_echo, echo_sent, echo_claim, process_outbound-Outbound,
}

-- A packet as the NAT should be handed it: parsed from bytes, with an IPv4 header of 20 bytes or more.
pub record IsFrame (p : ParsedPacket) : Type 0 where
  pub parsed : IsParsed p
  pub whole_header : 20 ≤ p.ihl
  pub is_bytes : IsBytes (memory p)

pub ipv4_offset : (p : ParsedPacket) (ip : ℕ) → IsFrame p → p.ipv4 ≡ some ip → ip ≡ 14
ipv4_offset p ip f h = ground (arith, f.parsed)

pub transport_offset :
    (p : ParsedPacket) (ip l4 at_check : ℕ)
    → IsFrame p
    → transport p ip ≡ some (l4, at_check)
    → (34 ≤ l4) × ((at_check ≡ l4 + 6) ⊎ (at_check ≡ l4 + 16))
transport_offset p ip l4 at_check f h = ground (arith, f.parsed, f.whole_header)

pub icmp_offset : (p : ParsedPacket) (icmp : ℕ) → IsFrame p → icmp_echo p ≡ some icmp → 34 ≤ icmp
icmp_offset p icmp f h = ground (arith, f.parsed, f.whole_header)

-- An outgoing packet that was accepted, beside the one that came in.
pub record SentAs (e : NatEngine) (p q : ParsedPacket) : Type 0 where
  pub from_wan : saddr (memory q) 14 ≡ e.wan_ip_nbo
  pub same_remote : daddr (memory q) 14 ≡ daddr (memory p) 14
  pub same_sum : header_sum (memory q) % 65535 ≡ header_sum (memory p) % 65535

load32_of_words :
    (m m' : Memory) (i : ℕ)
    → load16 m' i ≡ load16 m i
    → load16 m' (i + 2) ≡ load16 m (i + 2)
    → load32 m' i ≡ load32 m i
unfolding load32
load32_of_words m m' i h k = omega arith

sent-SentAs :
    (e : NatEngine) (p : ParsedPacket) (l4 c port : ℕ)
    → IsFrame p
    → e.wan_ip_nbo < 4294967296
    → 34 ≤ l4
    → 34 ≤ c
    → let m' = rewrite_transport (memory p) 24 c 26 l4 e.wan_ip_nbo port in
      (load32 m' 26 ≡ e.wan_ip_nbo)
      × (load32 m' 30 ≡ load32 (memory p) 30)
      × (header_sum m' % 65535 ≡ header_sum (memory p) % 65535)
sent-SentAs e p l4 c port f wan hl hc =
    let same = rewrite-load16_ne (memory p) c 26 l4 e.wan_ip_nbo port in
    (
      rewrite-address (memory p) c 26 l4 e.wan_ip_nbo port wan (omega arith),
      load32_of_words (memory p) _ 30
          (same 30 (omega arith) (omega arith) (omega arith) (omega arith))
          (same 32 (omega arith) (omega arith) (omega arith) (omega arith)),
      header_sum-rewrite (memory p) c 26 l4 e.wan_ip_nbo port f.is_bytes (inl refl) hl hc wan,
    )

echo-SentAs :
    (e : NatEngine) (p : ParsedPacket) (l4 c id : ℕ)
    → IsFrame p
    → e.wan_ip_nbo < 4294967296
    → 34 ≤ l4
    → 34 ≤ c
    → let m' = rewrite_icmp (memory p) 24 c 26 l4 e.wan_ip_nbo id in
      (load32 m' 26 ≡ e.wan_ip_nbo)
      × (load32 m' 30 ≡ load32 (memory p) 30)
      × (header_sum m' % 65535 ≡ header_sum (memory p) % 65535)
echo-SentAs e p l4 c id f wan hl hc =
    let same = rewrite_icmp-load16_ne (memory p) c 26 l4 e.wan_ip_nbo id in
    (
      rewrite_icmp-address (memory p) c 26 l4 e.wan_ip_nbo id wan (omega arith),
      load32_of_words (memory p) _ 30
          (same 30 (omega arith) (omega arith) (omega arith) (omega arith))
          (same 32 (omega arith) (omega arith) (omega arith) (omega arith)),
      header_sum-rewrite_icmp (memory p) c 26 l4 e.wan_ip_nbo id f.is_bytes (inl refl) hl hc wan,
    )

-- For a parsed packet of bytes whose IPv4 header has 20 bytes or more, under a valid engine: a
-- refused packet is left as it was; one that is accepted has the WAN address for its source and
-- the destination that it had, and the sum of the ten words of its IPv4 header is the same
-- modulo 65535.
pub process_outbound-translates :
    (e : NatEngine) (p : ParsedPacket)
    → IsFrame p
    → IsValid e
    → let (accepted, e', q) = process_outbound e p in
      ((accepted ≡ false) × (q ≡ p)) ⊎ ((accepted ≡ true) × SentAs e p q)
process_outbound-translates e p f v = go (process_outbound e p) (process_outbound-Outbound e p)
  where
    go :
        (r : Outcome)
        → Outbound e p r
        → ((r.0 ≡ false) × (r.2 ≡ p)) ⊎ ((r.0 ≡ true) × SentAs e p r.2)
    go _ refused = inl (refl, refl)
    go _ (no_session ip l4) = inl (refl, refl)
    go _ (no_echo ip icmp) = inl (refl, refl)
    go _ (sent ip l4 c _ hip ht ne) =
        let at14 = ipv4_offset p ip f hip in
        let offs = transport_offset p ip l4 c f ht in
        let port = (claim e (flow_key (memory p) 14 l4)).0 in
        let s = sent-SentAs e p l4 c port f v.wan_fits (omega arith) (omega arith) in
        inr (refl, rw at14 (record { from_wan = s.0; same_remote = s.1; same_sum = s.2 }))
    go _ (echo_sent ip icmp _ hip hi ne) =
        let at14 = ipv4_offset p ip f hip in
        let off = icmp_offset p icmp f hi in
        let id = (echo_claim e p 14 icmp).0 in
        let s = echo-SentAs e p (icmp + 4) (icmp + 2) id f v.wan_fits (omega arith) (omega arith) in
        inr (refl, rw at14 (record { from_wan = s.0; same_remote = s.1; same_sum = s.2 }))
