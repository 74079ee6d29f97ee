-- ===== src/NatEngine/Sessions/Ownership.antt =====
-- Who owns a port: the way back from an external port to the session of its flow.
use high_performance_gaming.Common.{
  ℕ, ◌<◌, ◌≡◌, ◌≢◌, ◌⊎◌, inl, arith, true, false, refl, none, some,
}
use high_performance_gaming.Net.Bytes.{ntohs, ntohs-ntohs}
use high_performance_gaming.NatEngine.State.{
  FlowKey, NatEngine, key_eq, max_sessions, new_engine, release_index,
}
use high_performance_gaming.NatEngine.Sessions.{
  open_session, refresh, claim, resolved, read_session, resolve,
}
use high_performance_gaming.NatEngine.Sessions.Probe.{
  Probed, full, opened, hit, claim-Probed, is_free,
}
use high_performance_gaming.NatEngine.Sessions.Invariant.{IsWell}

-- The reverse index leads from the port of each active session back to it.
abbrev pub IsOwned : NatEngine → Type 0
IsOwned e =
    (i : ℕ)
    → ((e.sessions i).active ≡ false)
      ⊎ (e.port_to_index (ntohs (e.sessions i).external_port) ≡ some i)

pub new_engine-IsOwned : IsOwned new_engine
unfolding new_engine
new_engine-IsOwned i = inl refl

pub refresh-IsOwned : (e : NatEngine) (idx : ℕ) → IsOwned e → IsOwned (refresh e idx)
unfolding refresh
refresh-IsOwned e idx o i = ground (arith, o i, o idx)

-- The port that comes next is not in use.
abbrev pub NextPortFree : NatEngine → Type 0
NextPortFree e = e.port_to_index e.port_cursor ≡ none

open_session-IsOwned :
    (e : NatEngine) (idx : ℕ) (key : FlowKey)
    → IsWell e
    → NextPortFree e
    → IsOwned e
    → IsOwned (open_session e idx key).1
unfolding open_session release_index
open_session-IsOwned e idx key w f o i =
    ground (arith, o i, o idx, w.sessions_ok i, w.cursor_hi, ntohs-ntohs e.port_cursor)

-- From a well-formed table in which the reverse index leads from the port of each active session
-- back to it, while the port that comes next is not in use: after the claim of a session for any
-- flow it still leads from the port of each active session back to it.
pub claim-IsOwned :
    (e : NatEngine) (key : FlowKey)
    → IsWell e
    → NextPortFree e
    → IsOwned e
    → IsOwned (claim e key).1
claim-IsOwned e key w f o = go (claim e key) (claim-Probed e key)
  where
    go : (r : ℕ × NatEngine) → Probed e key r → IsOwned r.1
    go _ full = o
    go _ (opened idx h free) = open_session-IsOwned e idx key w f o
    go _ (hit idx h busy own) = refresh-IsOwned e idx o

-- The session at `idx` answers to the remote end of the flow, on the port `ext`.
pub record AnswersTo (e : NatEngine) (ext : ℕ) (key : FlowKey) (idx : ℕ) : Type 0 where
  pub in_table : idx < max_sessions
  pub indexed : e.port_to_index (ntohs ext) ≡ some idx
  pub found : resolve e idx key.daddr key.dport ext ≡ resolved key.saddr key.sport

open_session-AnswersTo :
    (e : NatEngine) (idx : ℕ) (key : FlowKey)
    → idx < max_sessions
    → IsWell e
    → let (ext, e') = open_session e idx key in AnswersTo e' ext key idx
unfolding open_session resolve read_session
open_session-AnswersTo e idx key h w = record {
  in_table = h;
  indexed = ground arith;
  found = ground (arith, w.sessions_ok idx);
}

hit-AnswersTo :
    (e : NatEngine) (idx : ℕ) (key : FlowKey)
    → idx < max_sessions
    → is_free e idx ≡ false
    → key_eq (e.sessions idx).internal_key key ≡ true
    → IsWell e
    → IsOwned e
    → AnswersTo (refresh e idx) (e.sessions idx).external_port key idx
unfolding refresh resolve read_session
hit-AnswersTo e idx key h busy own w o = record {
  in_table = h;
  indexed = ground (arith, o idx);
  found = ground (arith, w.sessions_ok idx);
}

-- From a well-formed table in which the reverse index leads from the port of each active session
-- back to it: if a flow is given a port, then the index leads from this port to a slot of the
-- table, and the lookup there, from the flow's remote end, gives the flow's own address and
-- port.
pub claim-AnswersTo :
    (e : NatEngine) (key : FlowKey)
    → IsWell e
    → IsOwned e
    → (claim e key).0 ≢ 0
    → (idx : ℕ) × AnswersTo (claim e key).1 (claim e key).0 key idx
claim-AnswersTo e key w o ne = go (claim e key) (claim-Probed e key) ne
  where
    go : (r : ℕ × NatEngine) → Probed e key r → r.0 ≢ 0 → (idx : ℕ) × AnswersTo r.1 r.0 key idx
    go _ full ne = absurd (ne refl)
    go _ (opened idx h free) ne = (idx, open_session-AnswersTo e idx key h w)
    go _ (hit idx h busy own) ne = (idx, hit-AnswersTo e idx key h busy own w o)

-- In a well-formed table, whenever the port that comes next is that of session `j`, opening a
-- session in another slot gives the same external port to both, and the reverse index then leads
-- to the new one, while `j` stays active.
pub open_session-steals :
    (e : NatEngine) (idx j : ℕ) (key : FlowKey)
    → IsWell e
    → e.port_to_index e.port_cursor ≡ some j
    → j ≢ idx
    → let (ext, e') = open_session e idx key in
      ((e'.sessions j).active ≡ true)
      × ((e'.sessions j).external_port ≡ ext)
      × (e'.port_to_index (ntohs ext) ≡ some idx)
unfolding open_session release_index
open_session-steals e idx j key w owner ne = ground (
  arith,
  w.index_ok e.port_cursor,
  w.sessions_ok j,
  w.cursor_hi,
  ntohs-ntohs e.port_cursor,
  ntohs-ntohs (e.sessions j).external_port,
)
