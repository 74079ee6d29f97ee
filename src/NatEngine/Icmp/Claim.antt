-- ===== src/NatEngine/Icmp/Claim.antt =====
-- What the claim of an identifier for an echo request comes to.
use high_performance_gaming.Common.{
  ℕ, zero, suc, ◌+◌, ◌%◌, ◌<◌, ◌≡◌, ◌⊎◌, inl, inr, arith, Bool, true, false, not, ◌||◌, ◌&&◌, ◌==◌,
  Bool-cases, refl, none, some,
}
use high_performance_gaming.Common.Array.{update}
use high_performance_gaming.Net.Bytes.{ntohs, ntohs-lt, ntohs-ntohs}
use high_performance_gaming.NatEngine.State.{
  NatEngine, max_icmp_sessions, release_index, bump, is_expired, hash_icmp_flow,
}
use high_performance_gaming.NatEngine.Icmp.{
  close_icmp, open_icmp, finish_icmp, alloc_rounds, refresh_icmp, probe_icmp, claim_icmp,
  alloc_external_icmp_id, with_session, read_icmp_session, resolve_icmp, icmp_resolved,
}
use high_performance_gaming.NatEngine.Icmp.Allocate.{
  CursorOk, Allocated, exhausted, allocated, alloc_rounds-Allocated, close_icmp-EntriesOk,
}
use high_performance_gaming.NatEngine.Icmp.Invariant.{IsWell, refresh_icmp-IsWell}

-- The tests of the probe loop.
abbrev pub is_free : NatEngine → ℕ → Bool
is_free e idx =
    not (e.icmp_sessions idx).active
    || is_expired e.current_tick (e.icmp_sessions idx).last_active_tick

abbrev pub is_own : NatEngine → ℕ → ℕ → ℕ → ℕ → Bool
is_own e idx sa da id_nbo =
    ((e.icmp_sessions idx).int_saddr == sa)
    && ((e.icmp_sessions idx).remote_daddr == da)
    && ((e.icmp_sessions idx).int_id_nbo == id_nbo)

-- A session of this flow stands at `idx`, and its identifier leads to it.
pub record AnswersTo (e : NatEngine) (ext sa da id_nbo idx : ℕ) : Type 0 where
  pub in_table : idx < max_icmp_sessions
  pub indexed : e.icmp_id_to_index (ntohs ext) ≡ some idx
  pub found : resolve_icmp e idx da ext ≡ icmp_resolved sa id_nbo

-- What a claim comes to: a well-formed engine, and with an identifier the session of the flow.
pub record Claimed (sa da id_nbo : ℕ) (r : ℕ × NatEngine) : Type 0 where
  pub well : IsWell r.1
  pub ext_fits : r.0 < 65536
  pub answers : (r.0 ≡ 0) ⊎ ((idx : ℕ) × AnswersTo r.1 r.0 sa da id_nbo idx)

-- The engine with its slot left closed: no identifier was to be had.
left_closed-IsWell :
    (e : NatEngine) (idx c : ℕ)
    → IsWell e
    → CursorOk c
    → let e' = record (close_icmp e idx) { icmp_id_cursor = c } in
      IsWell (
        with_session e' idx
          (record (e'.icmp_sessions idx) { seq = bump (e'.icmp_sessions idx).seq }))
unfolding close_icmp release_index
left_closed-IsWell e idx c w ok = record {
  cursor_ok = ok;
  echo_ok = λ i. ground (arith, w.echo_ok i, w.echo_ok idx);
  entries_ok =
      λ id. ground (arith, w.entries_ok id, w.entries_ok (ntohs (e.icmp_sessions idx).ext_id_nbo));
  owned = λ i. ground (arith, w.owned i, w.owned idx);
}

-- The slot under its new identifier, which no session had.
reopened : NatEngine → ℕ → ℕ → ℕ → ℕ → ℕ → ℕ → NatEngine
reopened e idx sa da id_nbo host c =
    let e' = record (close_icmp e idx) { icmp_id_cursor = c } in
    record e' {
      icmp_sessions = update e'.icmp_sessions idx (record {
        seq = bump (e'.icmp_sessions idx).seq;
        int_saddr = sa;
        remote_daddr = da;
        int_id_nbo = id_nbo;
        ext_id_nbo = ntohs host;
        last_active_tick = e.current_tick;
        active = true;
      });
      icmp_id_to_index = update e'.icmp_id_to_index (ntohs (ntohs host)) (some idx);
    }

module _ (e : NatEngine) (idx sa da id_nbo host c : ℕ) (w : IsWell e) (h : idx < max_icmp_sessions)
    (sa_fits : sa < 4294967296) (id_fits : id_nbo < 65536) (host_ok : CursorOk host)
    (free : (close_icmp e idx).icmp_id_to_index host ≡ none) where
  reopened-IsWell : CursorOk c → IsWell (reopened e idx sa da id_nbo host c)
  unfolding close_icmp release_index reopened
  reopened-IsWell ok =
      let back = ntohs-ntohs host in
      record {
        cursor_ok = ok;
        echo_ok = λ i. ground (arith, w.echo_ok i, w.echo_ok idx, ntohs-lt host);
        entries_ok = λ id.
            ground
              (arith, back, w.entries_ok id, w.entries_ok (ntohs (e.icmp_sessions idx).ext_id_nbo));
        owned = λ i. ground (arith, back, w.owned i, w.owned idx);
      }

  reopened-AnswersTo : AnswersTo (reopened e idx sa da id_nbo host c) (ntohs host) sa da id_nbo idx
  unfolding close_icmp reopened resolve_icmp read_icmp_session
  reopened-AnswersTo = record {
    in_table = h;
    indexed = ground arith;
    found = ground (arith, w.echo_ok idx);
  }

close_icmp-CursorOk :
    (e : NatEngine) (idx : ℕ)
    → CursorOk e.icmp_id_cursor
    → CursorOk (close_icmp e idx).icmp_id_cursor
unfolding close_icmp
close_icmp-CursorOk e idx h = ground arith

close_icmp-tick : (e : NatEngine) (idx : ℕ) → (close_icmp e idx).current_tick ≡ e.current_tick
unfolding close_icmp
close_icmp-tick e idx = ground arith

ntohs_zero : ntohs 0 ≡ 0
unfolding ntohs
ntohs_zero = refl

-- An identifier that is handed out is not 0.
allocated_lem :
    (e : NatEngine) (idx sa da id_nbo host c : ℕ)
    → CursorOk host
    → finish_icmp e idx sa da id_nbo (ntohs host, record (close_icmp e idx) { icmp_id_cursor = c })
      ≡ (ntohs host, reopened e idx sa da id_nbo host c)
unfolding finish_icmp reopened
allocated_lem e idx sa da id_nbo host c ok =
    let ne : (ntohs host == 0) ≡ false = ground (arith, ntohs-ntohs host, ntohs_zero) in rw ne

open_icmp-Claimed :
    (e : NatEngine) (idx sa da id_nbo : ℕ)
    → IsWell e
    → idx < max_icmp_sessions
    → sa < 4294967296
    → id_nbo < 65536
    → Claimed sa da id_nbo (open_icmp e idx sa da id_nbo)
unfolding open_icmp alloc_external_icmp_id finish_icmp
open_icmp-Claimed e idx sa da id_nbo w h hs hi =
    go (alloc_rounds 512 (close_icmp e idx)) (
      alloc_rounds-Allocated 512 (close_icmp e idx) (close_icmp-EntriesOk e idx w.entries_ok)
        cursor)
  where
    cursor : CursorOk (close_icmp e idx).icmp_id_cursor
    cursor = close_icmp-CursorOk e idx w.cursor_ok

    go :
        (r : ℕ × NatEngine)
        → Allocated (close_icmp e idx) r
        → Claimed sa da id_nbo (finish_icmp e idx sa da id_nbo r)
    go _ (exhausted c ok) = record {
      well = left_closed-IsWell e idx c w ok;
      ext_fits = omega arith;
      answers = inl refl;
    }
    go _ (allocated host c host_ok ok free) =
        rw (allocated_lem e idx sa da id_nbo host c host_ok) (record {
          well = reopened-IsWell e idx sa da id_nbo host c w h hs hi host_ok free ok;
          ext_fits = ntohs-lt host;
          answers = inr (idx, reopened-AnswersTo e idx sa da id_nbo host c w h hs hi host_ok free);
        })

hit_icmp-AnswersTo :
    (e : NatEngine) (idx sa da id_nbo : ℕ)
    → IsWell e
    → idx < max_icmp_sessions
    → (e.icmp_sessions idx).active ≡ true
    → is_own e idx sa da id_nbo ≡ true
    → AnswersTo (refresh_icmp e idx) (e.icmp_sessions idx).ext_id_nbo sa da id_nbo idx
unfolding refresh_icmp resolve_icmp read_icmp_session
hit_icmp-AnswersTo e idx sa da id_nbo w h act own = record {
  in_table = h;
  indexed = ground (arith, w.owned idx);
  found = ground (arith, w.echo_ok idx);
}

probe_icmp-Claimed :
    (n i h : ℕ) (e : NatEngine) (sa da id_nbo : ℕ)
    → IsWell e
    → sa < 4294967296
    → id_nbo < 65536
    → Claimed sa da id_nbo (probe_icmp n i h e sa da id_nbo)
unfolding probe_icmp
probe_icmp-Claimed zero i h e sa da id_nbo w hs hi = record {
  well = w;
  ext_fits = omega arith;
  answers = inl refl;
}
probe_icmp-Claimed (suc n) i h e sa da id_nbo w hs hi =
    let idx = (h + i) % max_icmp_sessions in
    elim (Bool-cases (is_free e idx)) [
      | inl free ↦ rw free (open_icmp-Claimed e idx sa da id_nbo w (omega arith) hs hi)
      | inr busy ↦ elim (Bool-cases (is_own e idx sa da id_nbo)) [
        | inl own ↦
            rw (busy, own)
              (record {
                well = refresh_icmp-IsWell e idx w;
                ext_fits = (w.echo_ok idx).ext_id_fits;
                answers =
                    inr (
                      idx,
                      hit_icmp-AnswersTo e idx sa da id_nbo w (omega arith) (ground arith) own,
                    );
              })
        | inr other ↦ rw (busy, other) (probe_icmp-Claimed n (i + 1) h e sa da id_nbo w hs hi)
      ]
    ]

-- From a well-formed engine, the claim of an identifier for an echo request leaves one; if it comes
-- to an identifier, new or kept, then the reverse index leads from it to a session that answers to
-- the remote end with the sender's own address and identifier.
pub claim_icmp-Claimed :
    (e : NatEngine) (sa da id_nbo : ℕ)
    → IsWell e
    → sa < 4294967296
    → id_nbo < 65536
    → Claimed sa da id_nbo (claim_icmp e sa da id_nbo)
unfolding claim_icmp
claim_icmp-Claimed e sa da id_nbo w hs hi =
    probe_icmp-Claimed 32 0 (hash_icmp_flow sa da id_nbo % max_icmp_sessions) e sa da id_nbo w hs hi
