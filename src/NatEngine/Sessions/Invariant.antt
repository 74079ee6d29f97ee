-- ===== src/NatEngine/Sessions/Invariant.antt =====
-- The invariant of the TCP and UDP sessions.
use high_performance_gaming.Common.{
  ℕ, ◌%◌, ◌≤◌, ◌<◌, ◌≡◌, ◌⊎◌, inl, inr, arith, true, false, refl, Option, none, some,
}
use high_performance_gaming.Net.Bytes.{ntohs, ntohs-lt, ntohs-ntohs}
use high_performance_gaming.NatEngine.State.{
  FlowKey, NatSession, NatEngine, max_sessions, new_engine, release_index,
}
use high_performance_gaming.NatEngine.Sessions.{open_session, refresh, claim}
use high_performance_gaming.NatEngine.Sessions.Probe.{Probed, full, opened, hit, claim-Probed}

pub record KeyOk (k : FlowKey) : Type 0 where
  pub saddr_fits : k.saddr < 4294967296
  pub sport_fits : k.sport < 65536

-- The writer is not at work, and an active session has a port between 10000 and 60000.
pub record SessionOk (s : NatSession) : Type 0 where
  pub even : s.seq % 2 ≡ 0
  pub key_ok : KeyOk s.internal_key
  pub port_fits : s.external_port < 65536
  pub port_ok :
      (s.active ≡ false) ⊎ ((10000 ≤ ntohs s.external_port) × (ntohs s.external_port ≤ 60000))

-- An entry of the reverse index is empty, or leads to an active session that has this very port.
abbrev pub EntryOk : (ℕ → NatSession) → ℕ → Option ℕ → Type 0
EntryOk sess port none = Unit
EntryOk sess port (some i) =
    (i < max_sessions) × ((sess i).active ≡ true) × (ntohs (sess i).external_port ≡ port)

pub record IsWell (e : NatEngine) : Type 0 where
  pub cursor_lo : 10000 ≤ e.port_cursor
  pub cursor_hi : e.port_cursor ≤ 60000
  pub sessions_ok : (i : ℕ) → SessionOk (e.sessions i)
  pub index_ok : (port : ℕ) → EntryOk e.sessions port (e.port_to_index port)

pub new_engine-IsWell : IsWell new_engine
unfolding new_engine
new_engine-IsWell = record {
  cursor_lo = omega arith;
  cursor_hi = omega arith;
  sessions_ok = λ i. ground arith;
  index_ok = λ port. tt;
}

pub refresh-IsWell : (e : NatEngine) (idx : ℕ) → IsWell e → IsWell (refresh e idx)
unfolding refresh
refresh-IsWell e idx w = record {
  cursor_lo = w.cursor_lo;
  cursor_hi = w.cursor_hi;
  sessions_ok = λ i. ground (arith, w.sessions_ok i, w.sessions_ok idx);
  index_ok = λ port. ground (arith, w.index_ok port);
}

-- No entry but the one released leads to the slot.
pub open_session-IsWell :
    (e : NatEngine) (idx : ℕ) (key : FlowKey)
    → idx < max_sessions
    → KeyOk key
    → IsWell e
    → IsWell (open_session e idx key).1
unfolding open_session release_index
open_session-IsWell e idx key h k w =
    let back = ntohs-ntohs e.port_cursor in
    record {
      cursor_lo = ground (arith, w.cursor_lo, w.cursor_hi);
      cursor_hi = ground (arith, w.cursor_lo, w.cursor_hi);
      sessions_ok = λ i. ground (
        arith,
        w.sessions_ok i,
        w.sessions_ok idx,
        w.cursor_lo,
        w.cursor_hi,
        back,
        ntohs-lt e.port_cursor,
      );
      index_ok = λ port.
          ground (arith, w.index_ok port, w.sessions_ok idx, w.cursor_lo, w.cursor_hi, back);
    }

open_session-port :
    (e : NatEngine) (idx : ℕ) (key : FlowKey)
    → IsWell e
    → let port = (open_session e idx key).0 in
      (port < 65536) × (10000 ≤ ntohs port) × (ntohs port ≤ 60000)
unfolding open_session
open_session-port e idx key w =
    omega (arith, w.cursor_lo, w.cursor_hi, ntohs-ntohs e.port_cursor, ntohs-lt e.port_cursor)

pub claim-IsWell : (e : NatEngine) (key : FlowKey) → KeyOk key → IsWell e → IsWell (claim e key).1
claim-IsWell e key k w = go (claim e key) (claim-Probed e key)
  where
    go : (r : ℕ × NatEngine) → Probed e key r → IsWell r.1
    go _ full = w
    go _ (opened idx h free) = open_session-IsWell e idx key h k w
    go _ (hit idx h busy own) = refresh-IsWell e idx w

-- From a well-formed session table, what `claim` returns is 0, for no session, or the wire form
-- of a port between 10000 and 60000.
pub claim-port :
    (e : NatEngine) (key : FlowKey)
    → IsWell e
    → let port = (claim e key).0 in
      (port ≡ 0) ⊎ ((port < 65536) × (10000 ≤ ntohs port) × (ntohs port ≤ 60000))
claim-port e key w = go (claim e key) (claim-Probed e key)
  where
    go :
        (r : ℕ × NatEngine)
        → Probed e key r
        → (r.0 ≡ 0) ⊎ ((r.0 < 65536) × (10000 ≤ ntohs r.0) × (ntohs r.0 ≤ 60000))
    go _ full = inl refl
    go _ (opened idx h free) = inr (open_session-port e idx key w)
    go _ (hit idx h busy own) = ground (arith, w.sessions_ok idx)
