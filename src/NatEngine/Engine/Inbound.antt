-- ===== src/NatEngine/Engine/Inbound.antt =====
-- The ways through `process_inbound`.
use high_performance_gaming.Common.{
  ℕ, ◌+◌, ◌<◌, ◌≡◌, ◌≢◌, inl, inr, arith, true, false, not, ◌&&◌, ◌==◌, Bool-cases, if◌then◌else◌,
  refl, Option, none, some, ltb, ==_iff,
}
use high_performance_gaming.Net.Bytes.{load16, ntohs}
use high_performance_gaming.Net.Packet.{
  ParsedPacket, memory, with_memory, icmp_echo, protocol, check_at, daddr_at, saddr, daddr,
}
use high_performance_gaming.NatEngine.State.{NatEngine, max_sessions, max_icmp_sessions}
use high_performance_gaming.NatEngine.Sessions.{refresh, resolve, resolved, Lookup, unresolved}
use high_performance_gaming.NatEngine.Sessions
use high_performance_gaming.NatEngine.Icmp.{
  refresh_icmp, resolve_icmp, icmp_resolved, IcmpLookup, icmp_unresolved, icmp_refused,
}
use high_performance_gaming.NatEngine.Engine.{
  Outcome, rewrite_transport, rewrite_icmp, transport, translate_inbound, is_whole_echo, deliver,
  deliver_echo, inbound_echo_at, process_inbound_icmp, inbound_at, process_inbound,
}

-- What a delivered UDP or TCP packet was checked for.
pub record Delivery (e : NatEngine) (p : ParsedPacket) (ip l4 at_check idx addr port : ℕ)
    : Type 0 where
  pub ipv4_there : p.ipv4 ≡ some ip
  pub transport_there : transport p ip ≡ some (l4, at_check)
  pub not_icmp : protocol (memory p) ip ≢ 1
  pub to_wan : daddr (memory p) ip ≡ e.wan_ip_nbo
  pub indexed : e.port_to_index (ntohs (load16 (memory p) (l4 + 2))) ≡ some idx
  pub in_table : idx < max_sessions
  pub found :
      resolve e idx (saddr (memory p) ip) (load16 (memory p) l4) (load16 (memory p) (l4 + 2))
      ≡ resolved addr port

pub record EchoDelivery (e : NatEngine) (p : ParsedPacket) (ip icmp idx addr id : ℕ) : Type 0 where
  pub ipv4_there : p.ipv4 ≡ some ip
  pub icmp_there : icmp_echo p ≡ some icmp
  pub to_wan : daddr (memory p) ip ≡ e.wan_ip_nbo
  pub indexed : e.icmp_id_to_index (ntohs (load16 (memory p) (icmp + 4))) ≡ some idx
  pub in_table : idx < max_icmp_sessions
  pub found :
      resolve_icmp e idx (saddr (memory p) ip) (load16 (memory p) (icmp + 4))
      ≡ icmp_resolved addr id

-- Refused, with nothing changed, or delivered to the session's own host.
pub data Inbound (e : NatEngine) (p : ParsedPacket) : Outcome → Type 0 where
  refused : Inbound e p (false, e, p)
  delivered :
      (ip l4 at_check idx addr port : ℕ)
      → Delivery e p ip l4 at_check idx addr port
      → Inbound e p (
        true,
        refresh e idx,
        with_memory p
            (rewrite_transport (memory p) (check_at ip) at_check (daddr_at ip) (l4 + 2) addr port),
      )
  echo_delivered :
      (ip icmp idx addr id : ℕ)
      → EchoDelivery e p ip icmp idx addr id
      → Inbound e p (
        true,
        refresh_icmp e idx,
        with_memory p
            (rewrite_icmp (memory p) (check_at ip) (icmp + 2) (daddr_at ip) (icmp + 4) addr id),
      )

deliver-Inbound :
    (e : NatEngine) (p : ParsedPacket) (ip l4 at_check idx : ℕ) (r : Lookup)
    → ((addr port : ℕ) → r ≡ resolved addr port → Delivery e p ip l4 at_check idx addr port)
    → Inbound e p (deliver e p ip l4 at_check idx r)
unfolding deliver
deliver-Inbound e p ip l4 at_check idx unresolved d = refused
deliver-Inbound e p ip l4 at_check idx Sessions.refused d = refused
deliver-Inbound e p ip l4 at_check idx (resolved addr port) d =
    delivered ip l4 at_check idx addr port (d addr port refl)

deliver_echo-Inbound :
    (e : NatEngine) (p : ParsedPacket) (ip icmp idx : ℕ) (r : IcmpLookup)
    → ((addr id : ℕ) → r ≡ icmp_resolved addr id → EchoDelivery e p ip icmp idx addr id)
    → Inbound e p (deliver_echo e p ip icmp idx r)
unfolding deliver_echo
deliver_echo-Inbound e p ip icmp idx icmp_unresolved d = refused
deliver_echo-Inbound e p ip icmp idx icmp_refused d = refused
deliver_echo-Inbound e p ip icmp idx (icmp_resolved addr id) d =
    echo_delivered ip icmp idx addr id (d addr id refl)

translate-Inbound :
    (e : NatEngine) (p : ParsedPacket) (ip l4 at_check : ℕ)
    → p.ipv4 ≡ some ip
    → transport p ip ≡ some (l4, at_check)
    → protocol (memory p) ip ≢ 1
    → daddr (memory p) ip ≡ e.wan_ip_nbo
    → Inbound e p (translate_inbound e p ip l4 at_check)
unfolding translate_inbound
translate-Inbound e p ip l4 at_check hip ht proto wan =
    go (e.port_to_index (ntohs (load16 (memory p) (l4 + 2)))) refl
  where
    look : ℕ → Lookup
    look idx =
        resolve e idx (saddr (memory p) ip) (load16 (memory p) l4) (load16 (memory p) (l4 + 2))

    go :
        (o : Option ℕ)
        → e.port_to_index (ntohs (load16 (memory p) (l4 + 2))) ≡ o
        → Inbound e p (elim o [
          | none ↦ (false, e, p)
          | some idx ↦
              if not (ltb idx max_sessions)
              then (false, e, p)
              else deliver e p ip l4 at_check idx (look idx)
        ])
    go none h = refused
    go (some idx) h = elim (Bool-cases (ltb idx max_sessions)) [
      | inr out ↦ rw out refused
      | inl inside ↦ rw inside (
          deliver-Inbound e p ip l4 at_check idx (look idx) (λ addr port f. record {
            ipv4_there = hip;
            transport_there = ht;
            not_icmp = proto;
            to_wan = wan;
            indexed = h;
            in_table = ground arith;
            found = f;
          }))
    ]

echo-Inbound :
    (e : NatEngine) (p : ParsedPacket) (ip icmp : ℕ)
    → p.ipv4 ≡ some ip
    → icmp_echo p ≡ some icmp
    → Inbound e p (inbound_echo_at e p ip icmp)
unfolding inbound_echo_at
echo-Inbound e p ip icmp hip hi = elim (Bool-cases (daddr (memory p) ip == e.wan_ip_nbo)) [
  | inr other ↦ rw other refused
  | inl wan ↦ elim (Bool-cases (is_whole_echo (memory p) ip icmp 0)) [
    | inr other ↦ rw (wan, other) refused
    | inl echo ↦
        rw (wan, echo)
          (go ((==_iff _ _).0 wan) (e.icmp_id_to_index (ntohs (load16 (memory p) (icmp + 4)))) refl)
  ]
]
  where
    look : ℕ → IcmpLookup
    look idx = resolve_icmp e idx (saddr (memory p) ip) (load16 (memory p) (icmp + 4))

    go :
        daddr (memory p) ip ≡ e.wan_ip_nbo
        → (o : Option ℕ) → e.icmp_id_to_index (ntohs (load16 (memory p) (icmp + 4))) ≡ o
        → Inbound e p (elim o [
          | none ↦ (false, e, p)
          | some idx ↦
              if not (ltb idx max_icmp_sessions)
              then (false, e, p)
              else deliver_echo e p ip icmp idx (look idx)
        ])
    go wan none h = refused
    go wan (some idx) h = elim (Bool-cases (ltb idx max_icmp_sessions)) [
      | inr out ↦ rw out refused
      | inl inside ↦ rw inside (
          deliver_echo-Inbound e p ip icmp idx (look idx) (λ addr id f. record {
            ipv4_there = hip;
            icmp_there = hi;
            to_wan = wan;
            indexed = h;
            in_table = ground arith;
            found = f;
          }))
    ]

inbound_at-Inbound :
    (e : NatEngine) (p : ParsedPacket) (ip : ℕ) → p.ipv4 ≡ some ip → Inbound e p (inbound_at e p ip)
unfolding inbound_at process_inbound_icmp
inbound_at-Inbound e p ip hip =
    let proto = protocol (memory p) ip in
    elim (Bool-cases (proto == 1)) [
      | inl icmp ↦ rw icmp (at_echo (icmp_echo p) refl)
      | inr not_icmp ↦ elim (Bool-cases (not (proto == 6) && not (proto == 17))) [
        | inl other ↦ rw (not_icmp, other) refused
        | inr known ↦ elim (Bool-cases (daddr (memory p) ip == e.wan_ip_nbo)) [
          | inr other ↦ rw (not_icmp, known, other) refused
          | inl wan ↦
              rw (not_icmp, known, wan)
                (at_l4 (ground arith) ((==_iff _ _).0 wan) (transport p ip) refl)
        ]
      ]
    ]
  where
    at_echo :
        (o : Option ℕ)
        → icmp_echo p ≡ o
        → Inbound e p (elim o [ none ↦ (false, e, p) | some icmp ↦ inbound_echo_at e p ip icmp ])
    at_echo none h = refused
    at_echo (some icmp) h = echo-Inbound e p ip icmp hip h

    at_l4 :
        protocol (memory p) ip ≢ 1
        → daddr (memory p) ip ≡ e.wan_ip_nbo
        → (o : Option (ℕ × ℕ)) → transport p ip ≡ o
        → Inbound e p (elim o [
          | none ↦ (false, e, p)
          | some (l4, at_check) ↦ translate_inbound e p ip l4 at_check
        ])
    at_l4 proto wan none h = refused
    at_l4 proto wan (some (l4, at_check)) h = translate-Inbound e p ip l4 at_check hip h proto wan

-- Every call goes one of these ways.
pub process_inbound-Inbound : (e : NatEngine) (p : ParsedPacket) → Inbound e p (process_inbound e p)
unfolding process_inbound
process_inbound-Inbound e p = go p.ipv4 refl
  where
    go :
        (o : Option ℕ)
        → p.ipv4 ≡ o
        → Inbound e p (elim o [ none ↦ (false, e, p) | some ip ↦ inbound_at e p ip ])
    go none h = refused
    go (some ip) h = inbound_at-Inbound e p ip h
