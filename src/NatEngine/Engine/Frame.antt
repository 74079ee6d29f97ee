-- ===== src/NatEngine/Engine/Frame.antt =====
-- The two tables do not touch each other: what a claim in one leaves alone.
use high_performance_gaming.Common.{
  ℕ, zero, suc, ◌+◌, ◌%◌, ◌≡◌, inl, inr, arith, Bool-cases, refl, Option, none, some, ◌∙◌,
}
use high_performance_gaming.NatEngine.State.{
  FlowKey, NatEngine, next_cursor, max_icmp_sessions, hash_icmp_flow,
}
use high_performance_gaming.NatEngine.Sessions.{open_session, refresh, claim}
use high_performance_gaming.NatEngine.Sessions.Probe.{Probed, full, opened, hit, claim-Probed}
use high_performance_gaming.NatEngine.Sessions.Invariant as SessionInvariant
use high_performance_gaming.NatEngine.Sessions.Invariant.{KeyOk, claim-IsWell, refresh-IsWell}
use high_performance_gaming.NatEngine.Icmp.{
  close_icmp, finish_icmp, open_icmp, refresh_icmp, probe_icmp, claim_icmp, alloc_rounds,
  alloc_external_icmp_id, id_free, id_released,
}
use high_performance_gaming.NatEngine.Icmp.Invariant as EchoInvariant
use high_performance_gaming.NatEngine.Icmp.Claim.{is_free, is_own}

-- Nothing of the echo sessions has changed, nor the WAN address.
pub record EchoesKept (e e' : NatEngine) : Type 0 where
  pub sessions_same : e'.icmp_sessions ≡ e.icmp_sessions
  pub index_same : e'.icmp_id_to_index ≡ e.icmp_id_to_index
  pub cursor_same : e'.icmp_id_cursor ≡ e.icmp_id_cursor
  pub wan_same : e'.wan_ip_nbo ≡ e.wan_ip_nbo

-- Nothing of the TCP and UDP sessions has changed, nor the WAN address.
pub record SessionsKept (e e' : NatEngine) : Type 0 where
  pub sessions_same : e'.sessions ≡ e.sessions
  pub index_same : e'.port_to_index ≡ e.port_to_index
  pub cursor_same : e'.port_cursor ≡ e.port_cursor
  pub wan_same : e'.wan_ip_nbo ≡ e.wan_ip_nbo

pub claim-EchoesKept : (e : NatEngine) (key : FlowKey) → EchoesKept e (claim e key).1
unfolding open_session refresh
claim-EchoesKept e key = go (claim e key) (claim-Probed e key)
  where
    go : (r : ℕ × NatEngine) → Probed e key r → EchoesKept e r.1
    go _ full = record {
      sessions_same = refl;
      index_same = refl;
      cursor_same = refl;
      wan_same = refl;
    }
    go _ (opened idx h free) = record {
      sessions_same = refl;
      index_same = refl;
      cursor_same = refl;
      wan_same = refl;
    }
    go _ (hit idx h busy own) = record {
      sessions_same = refl;
      index_same = refl;
      cursor_same = refl;
      wan_same = refl;
    }

pub EchoesKept-IsWell :
    (e e' : NatEngine) → EchoesKept e e' → EchoInvariant.IsWell e → EchoInvariant.IsWell e'
EchoesKept-IsWell e e' k w = record {
  cursor_ok = rw k.cursor_same w.cursor_ok;
  echo_ok = λ i. rw k.sessions_same (w.echo_ok i);
  entries_ok = λ id. rw (k.sessions_same, k.index_same) (w.entries_ok id);
  owned = λ i. rw (k.sessions_same, k.index_same) (w.owned i);
}

pub SessionsKept-IsWell :
    (e e' : NatEngine) → SessionsKept e e' → SessionInvariant.IsWell e → SessionInvariant.IsWell e'
SessionsKept-IsWell e e' k w = record {
  cursor_lo = rw k.cursor_same w.cursor_lo;
  cursor_hi = rw k.cursor_same w.cursor_hi;
  sessions_ok = λ i. rw k.sessions_same (w.sessions_ok i);
  index_ok = λ port. rw (k.sessions_same, k.index_same) (w.index_ok port);
}

id_released-SessionsKept :
    (e : NatEngine) (host : ℕ) (o : Option ℕ) → SessionsKept e (id_released e host o)
id_released-SessionsKept e host none = record {
  sessions_same = refl;
  index_same = refl;
  cursor_same = refl;
  wan_same = refl;
}
id_released-SessionsKept e host (some idx) = record {
  sessions_same = refl;
  index_same = refl;
  cursor_same = refl;
  wan_same = refl;
}

-- By transitivity, from an engine that differs in the echo sessions alone.
SessionsKept-trans :
    {e e' e'' : NatEngine} → SessionsKept e e' → SessionsKept e' e'' → SessionsKept e e''
SessionsKept-trans a b = record {
  sessions_same = b.sessions_same ∙ a.sessions_same;
  index_same = b.index_same ∙ a.index_same;
  cursor_same = b.cursor_same ∙ a.cursor_same;
  wan_same = b.wan_same ∙ a.wan_same;
}

alloc_rounds-SessionsKept : (n : ℕ) (e : NatEngine) → SessionsKept e (alloc_rounds n e).1
unfolding alloc_rounds
alloc_rounds-SessionsKept zero e = record {
  sessions_same = refl;
  index_same = refl;
  cursor_same = refl;
  wan_same = refl;
}
alloc_rounds-SessionsKept (suc n) e =
    let e' = record e { icmp_id_cursor = next_cursor e.icmp_id_cursor } in
    let moved : SessionsKept e e' = record {
      sessions_same = refl;
      index_same = refl;
      cursor_same = refl;
      wan_same = refl;
    } in
    elim (Bool-cases (id_free e (e.icmp_id_to_index e.icmp_id_cursor))) [
      | inl free ↦ rw free (SessionsKept-trans moved (id_released-SessionsKept e' _ _))
      | inr used ↦ rw used (SessionsKept-trans moved (alloc_rounds-SessionsKept n e'))
    ]

close_icmp-SessionsKept : (e : NatEngine) (idx : ℕ) → SessionsKept e (close_icmp e idx)
unfolding close_icmp
close_icmp-SessionsKept e idx = record {
  sessions_same = ground arith;
  index_same = ground arith;
  cursor_same = ground arith;
  wan_same = ground arith;
}

finish_icmp-SessionsKept :
    (e : NatEngine) (idx sa da id_nbo : ℕ) (r : ℕ × NatEngine)
    → SessionsKept r.1 (finish_icmp e idx sa da id_nbo r).1
unfolding finish_icmp
finish_icmp-SessionsKept e idx sa da id_nbo (ext, e') = record {
  sessions_same = ground arith;
  index_same = ground arith;
  cursor_same = ground arith;
  wan_same = ground arith;
}

open_icmp-SessionsKept :
    (e : NatEngine) (idx sa da id_nbo : ℕ) → SessionsKept e (open_icmp e idx sa da id_nbo).1
unfolding open_icmp alloc_external_icmp_id
open_icmp-SessionsKept e idx sa da id_nbo = SessionsKept-trans (close_icmp-SessionsKept e idx) (
    SessionsKept-trans (alloc_rounds-SessionsKept 512 (close_icmp e idx))
      (finish_icmp-SessionsKept e idx sa da id_nbo (alloc_rounds 512 (close_icmp e idx))))

probe_icmp-SessionsKept :
    (n i h : ℕ) (e : NatEngine) (sa da id_nbo : ℕ)
    → SessionsKept e (probe_icmp n i h e sa da id_nbo).1
unfolding probe_icmp refresh_icmp
probe_icmp-SessionsKept zero i h e sa da id_nbo = record {
  sessions_same = refl;
  index_same = refl;
  cursor_same = refl;
  wan_same = refl;
}
probe_icmp-SessionsKept (suc n) i h e sa da id_nbo =
    let idx = (h + i) % max_icmp_sessions in
    elim (Bool-cases (is_free e idx)) [
      | inl free ↦ rw free (open_icmp-SessionsKept e idx sa da id_nbo)
      | inr busy ↦ elim (Bool-cases (is_own e idx sa da id_nbo)) [
        | inl own ↦
            rw (busy, own)
              (record {
                sessions_same = refl;
                index_same = refl;
                cursor_same = refl;
                wan_same = refl;
              })
        | inr other ↦ rw (busy, other) (probe_icmp-SessionsKept n (i + 1) h e sa da id_nbo)
      ]
    ]

pub claim_icmp-SessionsKept :
    (e : NatEngine) (sa da id_nbo : ℕ) → SessionsKept e (claim_icmp e sa da id_nbo).1
unfolding claim_icmp
claim_icmp-SessionsKept e sa da id_nbo =
    probe_icmp-SessionsKept 32 0 (hash_icmp_flow sa da id_nbo % max_icmp_sessions) e sa da id_nbo
