-- ===== src/NatEngine/Engine/Outbound.antt =====
-- The ways through `process_outbound`.
use high_performance_gaming.Common.{
  ℕ, ◌+◌, ◌≡◌, ◌≢◌, inl, inr, arith, true, false, not, ◌&&◌, ◌==◌, Bool-cases, refl, Option, none,
  some,
}
use high_performance_gaming.Net.Bytes.{load16}
use high_performance_gaming.Net.Packet.{
  ParsedPacket, memory, with_memory, icmp_echo, protocol, check_at, saddr_at, saddr, daddr,
}
use high_performance_gaming.NatEngine.State.{NatEngine}
use high_performance_gaming.NatEngine.Sessions.{claim}
use high_performance_gaming.NatEngine.Icmp.{claim_icmp}
use high_performance_gaming.NatEngine.Engine.{
  Outcome, rewrite_transport, rewrite_icmp, transport, flow_key, translate_outbound, is_whole_echo,
  process_outbound_icmp, outbound_at, process_outbound,
}

-- The claim for the echo request at `icmp`.
abbrev pub echo_claim : NatEngine → ParsedPacket → ℕ → ℕ → ℕ × NatEngine
echo_claim e p ip icmp =
    claim_icmp e (saddr (memory p) ip) (daddr (memory p) ip) (load16 (memory p) (icmp + 4))

-- Refused before a session is looked for, refused for want of a session, or sent on under it.
pub data Outbound (e : NatEngine) (p : ParsedPacket) : Outcome → Type 0 where
  refused : Outbound e p (false, e, p)
  no_session : (ip l4 : ℕ) → Outbound e p (false, (claim e (flow_key (memory p) ip l4)).1, p)
  sent :
      (ip l4 at_check : ℕ)
      → e.wan_ip_nbo ≢ 0
      → p.ipv4 ≡ some ip
      → transport p ip ≡ some (l4, at_check)
      → (claim e (flow_key (memory p) ip l4)).0 ≢ 0
      → Outbound e p (
        true,
        (claim e (flow_key (memory p) ip l4)).1,
        with_memory p (
            rewrite_transport
              (memory p)
              (check_at ip)
              at_check
              (saddr_at ip)
              l4
              e.wan_ip_nbo
              (claim e (flow_key (memory p) ip l4)).0),
      )
  no_echo : (ip icmp : ℕ) → Outbound e p (false, (echo_claim e p ip icmp).1, p)
  echo_sent :
      (ip icmp : ℕ)
      → e.wan_ip_nbo ≢ 0
      → p.ipv4 ≡ some ip
      → icmp_echo p ≡ some icmp
      → (echo_claim e p ip icmp).0 ≢ 0
      → Outbound e p (
        true,
        (echo_claim e p ip icmp).1,
        with_memory p (
            rewrite_icmp
              (memory p)
              (check_at ip)
              (icmp + 2)
              (saddr_at ip)
              (icmp + 4)
              e.wan_ip_nbo
              (echo_claim e p ip icmp).0),
      )

ne_of_test : (n k : ℕ) → (n == k) ≡ false → n ≢ k
ne_of_test n k h = ground arith

translate-Outbound :
    (e : NatEngine) (p : ParsedPacket) (ip l4 at_check : ℕ)
    → e.wan_ip_nbo ≢ 0
    → p.ipv4 ≡ some ip
    → transport p ip ≡ some (l4, at_check)
    → Outbound e p (translate_outbound e p ip l4 at_check)
unfolding translate_outbound
translate-Outbound e p ip l4 at_check wan hip ht =
    elim (Bool-cases ((claim e (flow_key (memory p) ip l4)).0 == 0)) [
      | inl z ↦ rw z (no_session ip l4)
      | inr nz ↦ rw nz (sent ip l4 at_check wan hip ht (ne_of_test _ 0 nz))
    ]

echo-Outbound :
    (e : NatEngine) (p : ParsedPacket) (ip : ℕ)
    → e.wan_ip_nbo ≢ 0
    → p.ipv4 ≡ some ip
    → Outbound e p (process_outbound_icmp e p ip)
unfolding process_outbound_icmp
echo-Outbound e p ip wan hip = go (icmp_echo p) refl
  where
    go : (o : Option ℕ) → icmp_echo p ≡ o → Outbound e p (process_outbound_icmp e p ip)
    go none h = rw (h, process_outbound_icmp) refused
    go (some icmp) h =
        rw (h, process_outbound_icmp)
          (elim (Bool-cases (e.wan_ip_nbo == 0)) [
            | inl z ↦ rw z refused
            | inr nz ↦ elim (Bool-cases (is_whole_echo (memory p) ip icmp 8)) [
              | inr other ↦ rw (nz, other) refused
              | inl echo ↦ elim (Bool-cases ((echo_claim e p ip icmp).0 == 0)) [
                | inl z ↦ rw (nz, echo, z) (no_echo ip icmp)
                | inr some_id ↦
                    rw (nz, echo, some_id) (echo_sent ip icmp wan hip h (ne_of_test _ 0 some_id))
              ]
            ]
          ])

known-Outbound :
    (e : NatEngine) (p : ParsedPacket) (ip : ℕ)
    → e.wan_ip_nbo ≢ 0
    → p.ipv4 ≡ some ip
    → (o : Option (ℕ × ℕ)) → transport p ip ≡ o
    → Outbound e p (elim o [
      | none ↦ (false, e, p)
      | some (l4, at_check) ↦ translate_outbound e p ip l4 at_check
    ])
known-Outbound e p ip nz hip none h = refused
known-Outbound e p ip nz hip (some (l4, at_check)) h =
    translate-Outbound e p ip l4 at_check nz hip h

outbound_at-Outbound :
    (e : NatEngine) (p : ParsedPacket) (ip : ℕ)
    → p.ipv4 ≡ some ip
    → Outbound e p (outbound_at e p ip)
unfolding outbound_at
outbound_at-Outbound e p ip hip =
    let proto = protocol (memory p) ip in
    elim (Bool-cases (e.wan_ip_nbo == 0)) [
      | inl z ↦ rw z refused
      | inr nz ↦ elim (Bool-cases (proto == 1)) [
        | inl icmp ↦ rw (nz, icmp) (echo-Outbound e p ip (ne_of_test _ 0 nz) hip)
        | inr not_icmp ↦ elim (Bool-cases (not (proto == 6) && not (proto == 17))) [
          | inl other ↦ rw (nz, not_icmp, other) refused
          | inr known ↦
              rw (nz, not_icmp, known)
                (known-Outbound e p ip (ne_of_test _ 0 nz) hip (transport p ip) refl)
        ]
      ]
    ]

-- Every call goes one of these ways.
pub process_outbound-Outbound :
    (e : NatEngine) (p : ParsedPacket) → Outbound e p (process_outbound e p)
unfolding process_outbound
process_outbound-Outbound e p = go p.ipv4 refl
  where
    go :
        (o : Option ℕ)
        → p.ipv4 ≡ o
        → Outbound e p (elim o [ none ↦ (false, e, p) | some ip ↦ outbound_at e p ip ])
    go none h = refused
    go (some ip) h = outbound_at-Outbound e p ip h
