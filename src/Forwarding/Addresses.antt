-- ===== src/Forwarding/Addresses.antt =====
-- What the rewriting of Ethernet addresses changes.
use high_performance_gaming.Common.{
  ℕ, ◌+◌, ◌/◌, ◌%◌, ◌≤◌, ◌≡◌, ◌∙◌, arith, refl, Bool, true, false, not, Option, none, some,
  if◌then◌else◌, inl, inr, Bool-cases,
}
use high_performance_gaming.Net.Bytes.{Memory, u32_mod, store32, load8-store16_ne, load8-store32_ne}
use high_performance_gaming.Net.Packet.{ParsedPacket, memory, daddr}
use high_performance_gaming.Net.Packet.Bounds.{IsParsed, PointsTo}
use high_performance_gaming.Forwarding.{
  L2Snapshot, store_mac, next_hop, arp_lookup, ipv4_needs_eth_rewrite_for_forward, Stepped,
  to_next_hop, rewrite_to_wan, step_eth_rewrite_lan_to_wan, to_device, rewrite_to_lan,
  step_eth_rewrite_wan_to_lan,
}

store_mac_ne : (m : Memory) (at mac j : ℕ) → at + 6 ≤ j → store_mac m at mac j ≡ m j
unfolding store_mac
store_mac_ne m at mac j h =
    load8-store16_ne (store32 m at (mac % u32_mod)) (at + 4) (mac / u32_mod) j (omega arith)
    ∙ load8-store32_ne m at (mac % u32_mod) j (omega arith)

-- Nothing of the frame behind the two addresses has changed.
abbrev pub SameBehind : ParsedPacket → ParsedPacket → Type 0
SameBehind p q = (j : ℕ) → 12 ≤ j → memory q j ≡ memory p j

to_next_hop-SameBehind :
    (p : ParsedPacket) (eth : ℕ) (m : Memory) (hop : Option ℕ)
    → eth ≡ 0
    → ((j : ℕ) → 12 ≤ j → m j ≡ memory p j)
    → SameBehind p (to_next_hop p eth m hop).1
unfolding to_next_hop
to_next_hop-SameBehind p eth m none e h j hj = h j hj
to_next_hop-SameBehind p eth m (some mac) e h j hj =
    store_mac_ne m eth mac j (omega (arith, e)) ∙ h j hj

rewrite_to_wan-SameBehind :
    (s : L2Snapshot) (p : ParsedPacket) (eth ip : Option ℕ) (size : ℕ)
    → PointsTo eth 0 14 size
    → SameBehind p (rewrite_to_wan s p eth ip).1
unfolding rewrite_to_wan
rewrite_to_wan-SameBehind s p none ip size at j hj = refl
rewrite_to_wan-SameBehind s p (some eth) none size at j hj = refl
rewrite_to_wan-SameBehind s p (some eth) (some ip) size at j hj =
    elim (Bool-cases (ipv4_needs_eth_rewrite_for_forward (daddr (memory p) ip))) [
      | inr b ↦ rw b refl
      | inl b ↦ rw b (
          to_next_hop-SameBehind p eth _ (next_hop s (daddr (memory p) ip)) at.0
            (λ i hi. store_mac_ne (memory p) (eth + 6) s.wan_hw i (omega (arith, at.0))) j hj)
    ]

to_device-SameBehind :
    (s : L2Snapshot) (p : ParsedPacket) (eth : ℕ) (mac : Option ℕ)
    → eth ≡ 0
    → SameBehind p (to_device s p eth mac).1
unfolding to_device
to_device-SameBehind s p eth none e j hj = refl
to_device-SameBehind s p eth (some mac) e j hj =
    store_mac_ne _ eth mac j (omega (arith, e))
    ∙ store_mac_ne (memory p) (eth + 6) s.lan_hw j (omega (arith, e))

rewrite_to_lan-SameBehind :
    (s : L2Snapshot) (p : ParsedPacket) (eth ip : Option ℕ) (size : ℕ)
    → PointsTo eth 0 14 size
    → SameBehind p (rewrite_to_lan s p eth ip).1
unfolding rewrite_to_lan
rewrite_to_lan-SameBehind s p none ip size at j hj = refl
rewrite_to_lan-SameBehind s p (some eth) none size at j hj = refl
rewrite_to_lan-SameBehind s p (some eth) (some ip) size at j hj =
    elim (Bool-cases (ipv4_needs_eth_rewrite_for_forward (daddr (memory p) ip))) [
      | inr b ↦ rw b refl
      | inl b ↦ rw b (
          to_device-SameBehind s p eth (arp_lookup s.arp_count 0 s (daddr (memory p) ip)) at.0 j hj)
    ]

guarded :
    (p : ParsedPacket) (b r : Bool) (x : Stepped)
    → SameBehind p x.1
    → SameBehind p (if not b then (false, p) else if not r then (false, p) else x).1
guarded p false r x h j hj = refl
guarded p true false x h j hj = refl
guarded p true true x h j hj = h j hj

-- For a parsed packet, whatever the snapshot holds and whether NAT is on or not: both steps leave
-- the frame as it was behind its two Ethernet addresses.
pub steps-SameBehind :
    (enable_nat : Bool) (s : L2Snapshot) (p : ParsedPacket)
    → IsParsed p
    → SameBehind p (step_eth_rewrite_lan_to_wan enable_nat s p).1
      × SameBehind p (step_eth_rewrite_wan_to_lan enable_nat s p).1
unfolding step_eth_rewrite_lan_to_wan step_eth_rewrite_wan_to_lan
steps-SameBehind enable_nat s p h = (
  guarded p enable_nat s.ready _
      (rewrite_to_wan-SameBehind s p p.eth p.ipv4 p.raw_span.size h.eth_in),
  guarded p enable_nat s.ready _
      (rewrite_to_lan-SameBehind s p p.eth p.ipv4 p.raw_span.size h.eth_in),
)
