-- ===== src/NatEngine/Icmp.antt =====
-- The ICMP echo sessions of `NatEngine::process_outbound_icmp` and `process_inbound_icmp`.
pub mod Allocate
pub mod Invariant
pub mod Claim
use high_performance_gaming.Common.{
  ℕ, zero, suc, ◌+◌, ◌%◌, Bool, true, false, not, ◌&&◌, ◌||◌, Option, none, some, ltb, ◌==◌,
  if◌then◌else◌,
}
use high_performance_gaming.Common.Array.{update}
use high_performance_gaming.Net.Bytes.{ntohs}
use high_performance_gaming.NatEngine.State.{
  IcmpEchoSession, NatEngine, max_icmp_sessions, release_index, bump, is_expired, next_cursor,
  hash_icmp_flow,
}

-- The identifier of one round of `alloc_external_icmp_id` can be used: no session has it, or one
-- that is no longer active.
abbrev pub id_free : NatEngine → Option ℕ → Bool
id_free e none = true
id_free e (some idx) = ltb idx max_icmp_sessions && not (e.icmp_sessions idx).active

-- The index after that round: the entry of an inactive session is released.
abbrev pub id_released : NatEngine → ℕ → Option ℕ → NatEngine
id_released e host none = e
id_released e host (some idx) = record e {
  icmp_id_to_index = release_index e.icmp_id_to_index host idx;
}

-- The allocation loop with `n` rounds left: the next identifier that is not in use, on the wire,
-- or 0 after the last round.
unfoldable pub alloc_rounds : ℕ → NatEngine → ℕ × NatEngine
alloc_rounds zero e = (0, e)
alloc_rounds (suc n) e =
    let host = e.icmp_id_cursor in
    let e' = record e { icmp_id_cursor = next_cursor e.icmp_id_cursor } in
    let rest = alloc_rounds n e' in
    let idx = e.icmp_id_to_index host in
    if id_free e idx then (ntohs host, id_released e' host idx) else rest

unfoldable pub alloc_external_icmp_id : NatEngine → ℕ × NatEngine
alloc_external_icmp_id = alloc_rounds 512

abbrev pub with_session : NatEngine → ℕ → IcmpEchoSession → NatEngine
with_session e idx s = record e { icmp_sessions = update e.icmp_sessions idx s }

-- The session that stood in the slot gives up its identifier and is closed.
unfoldable pub close_icmp : NatEngine → ℕ → NatEngine
close_icmp e idx =
    let sess = e.icmp_sessions idx in
    if sess.active
    then record e {
      icmp_id_to_index = release_index e.icmp_id_to_index (ntohs sess.ext_id_nbo) idx;
      icmp_sessions =
          update e.icmp_sessions idx (record sess { seq = bump sess.seq; active = false });
    }
    else with_session e idx (record sess { seq = bump sess.seq })

-- What is written once the identifier is known: with none to be had the slot is left closed, and
-- the result is 0.
unfoldable pub finish_icmp : NatEngine → ℕ → ℕ → ℕ → ℕ → ℕ × NatEngine → ℕ × NatEngine
finish_icmp e idx sa da id_nbo (new_ext, e') =
    let sess = e'.icmp_sessions idx in
    if new_ext == 0 then (0, with_session e' idx (record sess { seq = bump sess.seq })) else (
      new_ext,
      record e' {
        icmp_sessions = update e'.icmp_sessions idx (record {
          seq = bump sess.seq;
          int_saddr = sa;
          remote_daddr = da;
          int_id_nbo = id_nbo;
          ext_id_nbo = new_ext;
          last_active_tick = e.current_tick;
          active = true;
        });
        icmp_id_to_index = update e'.icmp_id_to_index (ntohs new_ext) (some idx);
      },
    )

-- The slot is taken over for a new session under a new identifier.
unfoldable pub open_icmp : NatEngine → ℕ → ℕ → ℕ → ℕ → ℕ × NatEngine
open_icmp e idx sa da id_nbo =
    finish_icmp e idx sa da id_nbo (alloc_external_icmp_id (close_icmp e idx))

unfoldable pub refresh_icmp : NatEngine → ℕ → NatEngine
refresh_icmp e idx =
    with_session e idx (record (e.icmp_sessions idx) { last_active_tick = e.current_tick })

-- The probe loop from its round `i` on, with `n` rounds left.
unfoldable pub probe_icmp : ℕ → ℕ → ℕ → NatEngine → ℕ → ℕ → ℕ → ℕ × NatEngine
probe_icmp zero i h e sa da id_nbo = (0, e)
probe_icmp (suc n) i h e sa da id_nbo =
    let rest = probe_icmp n (i + 1) h e sa da id_nbo in
    let idx = (h + i) % max_icmp_sessions in
    let sess = e.icmp_sessions idx in
    if not sess.active || is_expired e.current_tick sess.last_active_tick
    then open_icmp e idx sa da id_nbo
    else if (sess.int_saddr == sa) && (sess.remote_daddr == da) && (sess.int_id_nbo == id_nbo)
    then (sess.ext_id_nbo, refresh_icmp e idx)
    else rest

unfoldable pub claim_icmp : NatEngine → ℕ → ℕ → ℕ → ℕ × NatEngine
claim_icmp e sa da id_nbo =
    probe_icmp 32 0 (hash_icmp_flow sa da id_nbo % max_icmp_sessions) e sa da id_nbo

-- What one attempt of the reader sees of an echo session.
pub record IcmpObservation : Type 0 where
  pub s0 : ℕ
  pub act : Bool
  pub rem : ℕ
  pub int_sa_c : ℕ
  pub int_id_c : ℕ
  pub ext_id_c : ℕ
  pub s1 : ℕ

pub data IcmpLookup : Type 0 where
  icmp_unresolved icmp_refused : IcmpLookup
  icmp_resolved : ℕ → ℕ → IcmpLookup

-- The retry loop of `process_inbound_icmp`, with `n` attempts left.
unfoldable pub read_icmp_session : ℕ → ℕ → (ℕ → IcmpObservation) → ℕ → ℕ → IcmpLookup
read_icmp_session zero k obs remote id_nbo = icmp_unresolved
read_icmp_session (suc n) k obs remote id_nbo =
    let rest = read_icmp_session n (k + 1) obs remote id_nbo in
    let o = obs k in
    if o.s0 % 2 == 1
    then rest
    else if not (o.s0 == o.s1) || (o.s1 % 2 == 1)
    then rest
    else if not o.act
    then icmp_refused
    else if not (o.rem == remote) || not (o.ext_id_c == id_nbo)
    then icmp_refused
    else icmp_resolved o.int_sa_c o.int_id_c

abbrev pub observe_icmp : IcmpEchoSession → IcmpObservation
observe_icmp s = record {
  s0 = s.seq;
  act = s.active;
  rem = s.remote_daddr;
  int_sa_c = s.int_saddr;
  int_id_c = s.int_id_nbo;
  ext_id_c = s.ext_id_nbo;
  s1 = s.seq;
}

unfoldable pub resolve_icmp : NatEngine → ℕ → ℕ → ℕ → IcmpLookup
resolve_icmp e idx remote id_nbo =
    read_icmp_session 8 0 (λ k. observe_icmp (e.icmp_sessions idx)) remote id_nbo
