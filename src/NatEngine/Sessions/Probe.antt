-- ===== src/NatEngine/Sessions/Probe.antt =====
-- What the probe loop of `process_outbound` can come to.
use high_performance_gaming.Common.{
  ℕ, zero, suc, ◌+◌, ◌%◌, ◌<◌, ◌≡◌, inl, inr, arith, Bool, true, false, not, ◌||◌, Bool-cases,
}
use high_performance_gaming.NatEngine.State.{
  FlowKey, NatEngine, key_eq, max_sessions, is_expired, hash_flow,
}
use high_performance_gaming.NatEngine.Sessions.{open_session, refresh, probe, claim}

-- A slot that the loop takes over.
abbrev pub is_free : NatEngine → ℕ → Bool
is_free e idx =
    not (e.sessions idx).active || is_expired e.current_tick (e.sessions idx).last_active_tick

-- The result of the loop: nothing, a slot taken over, or the flow's own session.
pub data Probed (e : NatEngine) (key : FlowKey) : ℕ × NatEngine → Type 0 where
  full : Probed e key (0, e)
  opened :
      (idx : ℕ) → idx < max_sessions → is_free e idx ≡ true → Probed e key (open_session e idx key)
  hit :
      (idx : ℕ)
      → idx < max_sessions
      → is_free e idx ≡ false
      → key_eq (e.sessions idx).internal_key key ≡ true
      → Probed e key ((e.sessions idx).external_port, refresh e idx)

pub probe-Probed : (n i h : ℕ) (e : NatEngine) (key : FlowKey) → Probed e key (probe n i h e key)
unfolding probe
probe-Probed zero i h e key = full
probe-Probed (suc n) i h e key =
    let idx = (h + i) % max_sessions in
    elim (Bool-cases (is_free e idx)) [
      | inl free ↦ rw free (opened idx (omega arith) free)
      | inr busy ↦ elim (Bool-cases (key_eq (e.sessions idx).internal_key key)) [
        | inl own ↦ rw (busy, own) (hit idx (omega arith) busy own)
        | inr other ↦ rw (busy, other) (probe-Probed n (i + 1) h e key)
      ]
    ]

pub claim-Probed : (e : NatEngine) (key : FlowKey) → Probed e key (claim e key)
unfolding claim
claim-Probed e key = probe-Probed 32 0 (hash_flow key % max_sessions) e key
