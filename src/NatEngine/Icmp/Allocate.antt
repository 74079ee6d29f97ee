-- ===== src/NatEngine/Icmp/Allocate.antt =====
-- `alloc_external_icmp_id`: which identifiers it hands out, and what it leaves alone.
use high_performance_gaming.Common.{
  ℕ, zero, suc, ◌≤◌, ◌<◌, ◌≡◌, ◌⊎◌, inl, inr, arith, true, false, Option, none, some,
}
use high_performance_gaming.Net.Bytes.{ntohs}
use high_performance_gaming.NatEngine.State.{
  IcmpEchoSession, NatEngine, max_icmp_sessions, next_cursor, release_index,
}
use high_performance_gaming.NatEngine.Icmp.{id_free, alloc_rounds, close_icmp}

-- An entry of the reverse index is empty, or leads to an active session that has this identifier.
abbrev pub EntryOk : (ℕ → IcmpEchoSession) → ℕ → Option ℕ → Type 0
EntryOk sess id none = Unit
EntryOk sess id (some i) =
    (i < max_icmp_sessions) × ((sess i).active ≡ true) × (ntohs (sess i).ext_id_nbo ≡ id)

abbrev pub EntriesOk : NatEngine → Type 0
EntriesOk e = (id : ℕ) → EntryOk e.icmp_sessions id (e.icmp_id_to_index id)

abbrev pub CursorOk : ℕ → Type 0
CursorOk c = (10000 ≤ c) × (c ≤ 60000)

-- No identifier in any round, or one that no session has; the cursor alone has moved.
pub data Allocated (e : NatEngine) : ℕ × NatEngine → Type 0 where
  exhausted : (c : ℕ) → CursorOk c → Allocated e (0, record e { icmp_id_cursor = c })
  allocated :
      (host c : ℕ)
      → CursorOk host
      → CursorOk c
      → e.icmp_id_to_index host ≡ none
      → Allocated e (ntohs host, record e { icmp_id_cursor = c })

next_cursor-CursorOk : (c : ℕ) → CursorOk c → CursorOk (next_cursor c)
next_cursor-CursorOk c h = ground arith

-- The entry of the index decides whether the identifier is free: none of a session in use is.
id_free-cases :
    (e : NatEngine) (host : ℕ)
    → EntriesOk e
    → ((id_free e (e.icmp_id_to_index host) ≡ true) × (e.icmp_id_to_index host ≡ none))
      ⊎ (id_free e (e.icmp_id_to_index host) ≡ false)
id_free-cases e host ok = ground (arith, ok host)

pub alloc_rounds-Allocated :
    (n : ℕ) (e : NatEngine)
    → EntriesOk e
    → CursorOk e.icmp_id_cursor
    → Allocated e (alloc_rounds n e)
unfolding alloc_rounds
alloc_rounds-Allocated zero e ok c = exhausted e.icmp_id_cursor c
alloc_rounds-Allocated (suc n) e ok c = elim (id_free-cases e e.icmp_id_cursor ok) [
  | inl (free, entry) ↦ rw (free, entry) (allocated _ _ c (next_cursor-CursorOk _ c) entry)
  | inr used ↦ rw used (
      later _ (
        alloc_rounds-Allocated n (record e { icmp_id_cursor = next_cursor e.icmp_id_cursor }) ok
          (next_cursor-CursorOk _ c)))
]
  where
    later :
        (r : ℕ × NatEngine)
        → Allocated (record e { icmp_id_cursor = next_cursor e.icmp_id_cursor }) r
        → Allocated e r
    later _ (exhausted c h) = exhausted c h
    later _ (allocated host c h h' none_there) = allocated host c h h' none_there

-- Closing a session leaves no entry that leads to it.
pub close_icmp-EntriesOk : (e : NatEngine) (idx : ℕ) → EntriesOk e → EntriesOk (close_icmp e idx)
unfolding close_icmp release_index
close_icmp-EntriesOk e idx ok id =
    ground (arith, ok id, ok (ntohs (e.icmp_sessions idx).ext_id_nbo))
