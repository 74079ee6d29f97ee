-- ===== src/NatEngine/Engine/RoundTrip.antt =====
-- A flow's packet goes out, and the answer to it finds the way back.
use high_performance_gaming.Common.{
  ℕ, ◌+◌, ◌<◌, ◌≡◌, ◌≢◌, ◌⊎◌, inl, inr, arith, true, false, ◌==◌, refl, some, ◌∙◌, sym, Bool-cases,
}
use high_performance_gaming.Net.Bytes.{load16, ntohs, load16-lt, load32-lt}
use high_performance_gaming.Net.Packet.{ParsedPacket, memory, with_memory, protocol, saddr, daddr}
use high_performance_gaming.NatEngine.State.{NatEngine, max_sessions}
use high_performance_gaming.NatEngine.Sessions.{claim, resolve, resolved, refresh}
use high_performance_gaming.NatEngine.Sessions.Invariant.{claim-port}
use high_performance_gaming.NatEngine.Sessions.Ownership.{IsOwned, claim-AnswersTo}
use high_performance_gaming.NatEngine.Engine.{
  transport, flow_key, rewrite_transport, translate_outbound, translate_inbound, deliver,
  outbound_at, inbound_at, process_outbound, process_inbound,
}
use high_performance_gaming.NatEngine.Engine.Rewrite.{rewrite-address, rewrite-port}
use high_performance_gaming.NatEngine.Engine.Frame.{claim-EchoesKept}
use high_performance_gaming.NatEngine.Engine.Invariant.{IsValid}
use high_performance_gaming.NatEngine.Engine.Translation.{IsFrame, transport_offset}

-- A UDP or TCP packet with its transport header at `l4` and that header's checksum at `c`.
pub record IsTransport (p : ParsedPacket) (l4 c : ℕ) : Type 0 where
  pub frame : IsFrame p
  pub ipv4_there : p.ipv4 ≡ some 14
  pub known : (protocol (memory p) 14 ≡ 6) ⊎ (protocol (memory p) 14 ≡ 17)
  pub header_there : transport p 14 ≡ some (l4, c)

outbound_lem :
    (e : NatEngine) (p : ParsedPacket) (l4 c : ℕ)
    → IsTransport p l4 c
    → e.wan_ip_nbo ≢ 0
    → process_outbound e p ≡ translate_outbound e p 14 l4 c
unfolding process_outbound outbound_at
outbound_lem e p l4 c t wan = ground (arith, t.ipv4_there, t.known, t.header_there)

outbound_refused :
    (e : NatEngine) (p : ParsedPacket) → e.wan_ip_nbo ≡ 0 → (process_outbound e p).0 ≡ false
unfolding process_outbound outbound_at
outbound_refused e p wan = ground arith

inbound_lem :
    (e : NatEngine) (p : ParsedPacket) (l4 c : ℕ)
    → IsTransport p l4 c
    → daddr (memory p) 14 ≡ e.wan_ip_nbo
    → process_inbound e p ≡ translate_inbound e p 14 l4 c
unfolding process_inbound inbound_at
inbound_lem e p l4 c t wan = ground (arith, t.ipv4_there, t.known, t.header_there)

deliver_lem :
    (e : NatEngine) (p : ParsedPacket) (l4 c idx addr port : ℕ)
    → e.port_to_index (ntohs (load16 (memory p) (l4 + 2))) ≡ some idx
    → idx < max_sessions
    → resolve e idx (saddr (memory p) 14) (load16 (memory p) l4) (load16 (memory p) (l4 + 2))
      ≡ resolved addr port
    → translate_inbound e p 14 l4 c ≡ (
      true,
      refresh e idx,
      with_memory p (rewrite_transport (memory p) 24 c 30 (l4 + 2) addr port),
    )
unfolding translate_inbound deliver
deliver_lem e p l4 c idx addr port h k f = ground arith

accepted_wan :
    (e : NatEngine) (p : ParsedPacket) → (process_outbound e p).0 ≡ true → e.wan_ip_nbo ≢ 0
accepted_wan e p h z = cc (outbound_refused e p z)

translate_lem :
    (e : NatEngine) (p : ParsedPacket) (l4 c : ℕ)
    → IsTransport p l4 c
    → IsValid e
    → (translate_outbound e p 14 l4 c).0 ≡ true
    → let (ext, e') = claim e (flow_key (memory p) 14 l4) in
      (ext ≢ 0)
      × ((translate_outbound e p 14 l4 c).1 ≡ e')
      × (load16 (memory (translate_outbound e p 14 l4 c).2) l4 ≡ ext)
unfolding translate_outbound
translate_lem e p l4 c t v h =
    let ext = (claim e (flow_key (memory p) 14 l4)).0 in
    elim (Bool-cases (ext == 0)) [
      | inl z ↦ absurd (cc (unaccepted z))
      | inr nz ↦ rw nz (
        ground arith,
        refl,
        rewrite-port (memory p) c 26 l4 e.wan_ip_nbo ext
            (ground (arith, claim-port e (flow_key (memory p) 14 l4) v.sessions_well)),
      )
    ]
  where
    unaccepted :
        ((claim e (flow_key (memory p) 14 l4)).0 == 0) ≡ true
        → (translate_outbound e p 14 l4 c).0 ≡ false
    unaccepted z = rw z

-- What goes out on the accepted way: the state is the claim's, the source port the claimed one.
sent_lem :
    (e : NatEngine) (p : ParsedPacket) (l4 c : ℕ)
    → IsTransport p l4 c
    → IsValid e
    → (process_outbound e p).0 ≡ true
    → let (ext, e') = claim e (flow_key (memory p) 14 l4) in
      (ext ≢ 0)
      × ((process_outbound e p).1 ≡ e')
      × (load16 (memory (process_outbound e p).2) l4 ≡ ext)
sent_lem e p l4 c t v h =
    let lem = outbound_lem e p l4 c t (accepted_wan e p h) in
    rw lem (translate_lem e p l4 c t v (rw lem at h))

-- An answer to the packet `q` that went out for `p`: from the remote end of the flow, to the WAN
-- address and the port that `q` came from.
pub record Answers (e : NatEngine) (p q : ParsedPacket) (l4 : ℕ) (r : ParsedPacket) (l4' c' : ℕ)
    : Type 0 where
  pub is_transport : IsTransport r l4' c'
  pub from_remote : saddr (memory r) 14 ≡ daddr (memory p) 14
  pub to_wan : daddr (memory r) 14 ≡ e.wan_ip_nbo
  pub from_port : load16 (memory r) l4' ≡ load16 (memory p) (l4 + 2)
  pub to_port : load16 (memory r) (l4' + 2) ≡ load16 (memory q) l4

delivered_to :
    (p r : ParsedPacket) (l4 l4' c' : ℕ)
    → IsFrame p
    → IsTransport r l4' c'
    → let m' =
        rewrite_transport
          (memory r)
          24
          c'
          30
          (l4' + 2)
          (saddr (memory p) 14)
          (load16 (memory p) l4) in
      (daddr m' 14 ≡ saddr (memory p) 14) × (load16 m' (l4' + 2) ≡ load16 (memory p) l4)
delivered_to p r l4 l4' c' f t =
    let offs = transport_offset r 14 l4' c' t.frame t.header_there in
    (
      rewrite-address (memory r) c' 30 (l4' + 2) _ _ (load32-lt (memory p) 26 f.is_bytes)
          (omega arith),
      rewrite-port (memory r) c' 30 (l4' + 2) _ _ (load16-lt (memory p) l4 f.is_bytes),
    )

-- Under a valid engine in which the index leads from every active session's port back to it: if a
-- UDP or TCP packet is accepted and an answer comes to the address and port that it went out with,
-- then the answer is accepted and goes to the address and port that the packet came from.
pub outbound-inbound :
    (e : NatEngine) (p : ParsedPacket) (l4 c : ℕ) (r : ParsedPacket) (l4' c' : ℕ)
    → IsTransport p l4 c
    → IsValid e
    → IsOwned e
    → (process_outbound e p).0 ≡ true
    → Answers e p (process_outbound e p).2 l4 r l4' c'
    → let (accepted, e', r') = process_inbound (process_outbound e p).1 r in
      (accepted ≡ true)
      × (daddr (memory r') 14 ≡ saddr (memory p) 14)
      × (load16 (memory r') (l4' + 2) ≡ load16 (memory p) l4)
outbound-inbound e p l4 c r l4' c' t v o h a =
    let key = flow_key (memory p) 14 l4 in
    let s = sent_lem e p l4 c t v h in
    let (idx, found) = claim-AnswersTo e key v.sessions_well o s.0 in
    let e' = (claim e key).1 in
    let to_ext = a.to_port ∙ s.2 in
    let to_wan : daddr (memory r) 14 ≡ e'.wan_ip_nbo =
      a.to_wan ∙ sym (claim-EchoesKept e key).wan_same in
    let way =
      inbound_lem e' r l4' c' a.is_transport to_wan
      ∙ deliver_lem e' r l4' c' idx (saddr (memory p) 14) (load16 (memory p) l4)
          (rw to_ext found.indexed) found.in_table
          (rw (a.from_remote, a.from_port, to_ext) found.found) in
    let ends = delivered_to p r l4 l4' c' t.frame a.is_transport in
    rw (s.1, way) (refl, ends.0, ends.1)
