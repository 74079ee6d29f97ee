-- ===== src/NatEngine/Sessions.antt =====
-- The TCP and UDP sessions of `NatEngine::process_outbound` and `process_inbound`.
pub mod Probe
pub mod Invariant
pub mod Ownership
use high_performance_gaming.Common.{
  ℕ, zero, suc, ◌+◌, ◌%◌, Bool, true, not, ◌||◌, some, ◌==◌, if◌then◌else◌,
}
use high_performance_gaming.Common.Array.{update}
use high_performance_gaming.Net.Bytes.{ntohs}
use high_performance_gaming.NatEngine.State.{
  FlowKey, NatSession, NatEngine, key_eq, max_sessions, release_index, bump, is_expired,
  next_cursor, hash_flow,
}

-- The slot is taken over: the old port's index entry is released if the slot was active, the next
-- port is drawn, and the reverse index points here. The result is the external port on the wire.
unfoldable pub open_session : NatEngine → ℕ → FlowKey → ℕ × NatEngine
open_session e idx key =
    let sess = e.sessions idx in
    let index =
      if sess.active
      then release_index e.port_to_index (ntohs sess.external_port) idx
      else e.port_to_index in
    let ext_nbo = ntohs e.port_cursor in
    (
      ext_nbo,
      record e {
        sessions = update e.sessions idx (record {
          seq = bump (bump sess.seq);
          internal_key = key;
          external_port = ext_nbo;
          last_active_tick = e.current_tick;
          active = true;
        });
        port_to_index = update index (ntohs ext_nbo) (some idx);
        port_cursor = next_cursor e.port_cursor;
      },
    )

-- `last_active_tick.store(tick)`
unfoldable pub refresh : NatEngine → ℕ → NatEngine
refresh e idx = record e {
  sessions = update e.sessions idx (record (e.sessions idx) { last_active_tick = e.current_tick });
}

-- The probe loop from its round `i` on, with `n` rounds left: the first slot that is free, expired
-- or the flow's own. The port is 0 where no round found one.
unfoldable pub probe : ℕ → ℕ → ℕ → NatEngine → FlowKey → ℕ × NatEngine
probe zero i h e key = (0, e)
probe (suc n) i h e key =
    let rest = probe n (i + 1) h e key in
    let idx = (h + i) % max_sessions in
    let sess = e.sessions idx in
    if not sess.active || is_expired e.current_tick sess.last_active_tick
    then open_session e idx key
    else if key_eq sess.internal_key key
    then (sess.external_port, refresh e idx)
    else rest

-- The session of an outgoing flow.
unfoldable pub claim : NatEngine → FlowKey → ℕ × NatEngine
claim e key = probe 32 0 (hash_flow key % max_sessions) e key

-- What one attempt of the reader sees of a session: two loads of `seq` with copies in between.
pub record Observation : Type 0 where
  pub s0 : ℕ
  pub act : Bool
  pub ik : FlowKey
  pub ep : ℕ
  pub s1 : ℕ

pub data Lookup : Type 0 where
  unresolved refused : Lookup
  resolved : ℕ → ℕ → Lookup

-- The retry loop of `process_inbound`, with `n` attempts left; attempt `k` sees `obs k`. A torn
-- read is tried again; a session that is not of this remote end and port is refused.
unfoldable pub read_session : ℕ → ℕ → (ℕ → Observation) → ℕ → ℕ → ℕ → Lookup
read_session zero k obs remote sport dport = unresolved
read_session (suc n) k obs remote sport dport =
    let rest = read_session n (k + 1) obs remote sport dport in
    let o = obs k in
    if o.s0 % 2 == 1
    then rest
    else if not (o.s0 == o.s1) || (o.s1 % 2 == 1)
    then rest
    else if not o.act
    then refused
    else if not (o.ik.daddr == remote) || not (o.ik.dport == sport) || not (o.ep == dport)
    then refused
    else resolved o.ik.saddr o.ik.sport

-- With no writer at work every attempt sees the session as it stands.
abbrev pub observe : NatSession → Observation
observe s = record {
  s0 = s.seq;
  act = s.active;
  ik = s.internal_key;
  ep = s.external_port;
  s1 = s.seq;
}

unfoldable pub resolve : NatEngine → ℕ → ℕ → ℕ → ℕ → Lookup
resolve e idx remote sport dport =
    read_session 8 0 (λ k. observe (e.sessions idx)) remote sport dport
