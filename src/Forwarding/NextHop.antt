-- ===== src/Forwarding/NextHop.antt =====
-- Whose address a frame to the WAN side is given.
use high_performance_gaming.Common.{
  ℕ, zero, suc, ◌+◌, ◌≤◌, ◌<◌, ◌≡◌, ◌≢◌, inl, inr, arith, Option, none, some, ◌==◌, Bool-cases,
}
use high_performance_gaming.Forwarding.{L2Snapshot, arp_lookup, resolve_mac_onlink}

-- What a search of the table from `i` on comes to: the first entry for the address, or none.
data Resolved (s : L2Snapshot) (ip i n : ℕ) : Option ℕ → Type 0 where
  entry :
      (k : ℕ)
      → i ≤ k
      → k < i + n
      → (s.arp k).ip_nbo ≡ ip
      → ((j : ℕ) → i ≤ j → j < k → (s.arp j).ip_nbo ≢ ip)
      → Resolved s ip i n (some (s.arp k).mac)
  no_entry : ((j : ℕ) → i ≤ j → j < i + n → (s.arp j).ip_nbo ≢ ip) → Resolved s ip i n none

arp_lookup-Resolved : (n i : ℕ) (s : L2Snapshot) (ip : ℕ) → Resolved s ip i n (arp_lookup n i s ip)
unfolding arp_lookup
arp_lookup-Resolved zero i s ip = no_entry (λ j h h'. absurd (omega arith))
arp_lookup-Resolved (suc n) i s ip = elim (Bool-cases ((s.arp i).ip_nbo == ip)) [
  | inl e ↦
      rw e
        (entry i (omega arith) (omega arith) (ground (arith, e)) (λ j h h'. absurd (omega arith)))
  | inr e ↦
      rw e (go (ground (arith, e)) (arp_lookup n (i + 1) s ip) (arp_lookup-Resolved n (i + 1) s ip))
]
  where
    go :
        (s.arp i).ip_nbo ≢ ip
        → (r : Option ℕ) → Resolved s ip (i + 1) n r
        → Resolved s ip i (suc n) r
    go ne _ (entry k h h' e first) =
        entry k (omega arith) (omega arith) e (λ j hj hk. ground (arith, ne, first j))
    go ne _ (no_entry a) = no_entry (λ j hj hk. ground (arith, ne, a j))

-- The hardware address of a destination is that of the first entry of the table for it, and none is
-- found only where no entry of the table is for it.
resolve_mac_onlink-Resolved :
    (s : L2Snapshot) (ip : ℕ) → Resolved s ip 0 s.arp_count (resolve_mac_onlink s ip)
unfolding resolve_mac_onlink
resolve_mac_onlink-Resolved s ip = arp_lookup-Resolved s.arp_count 0 s ip
