-- ===== src/NatEngine/Icmp/Invariant.antt =====
-- The invariant of the echo sessions: unlike a port, an identifier in use is never handed out again.
use high_performance_gaming.Common.{ℕ, ◌%◌, ◌<◌, ◌≡◌, ◌⊎◌, inl, arith, false, refl, some}
use high_performance_gaming.Net.Bytes.{ntohs}
use high_performance_gaming.NatEngine.State.{IcmpEchoSession, NatEngine, new_engine}
use high_performance_gaming.NatEngine.Icmp.{refresh_icmp}
use high_performance_gaming.NatEngine.Icmp.Allocate.{EntriesOk, CursorOk}

pub record EchoOk (s : IcmpEchoSession) : Type 0 where
  pub even : s.seq % 2 ≡ 0
  pub saddr_fits : s.int_saddr < 4294967296
  pub int_id_fits : s.int_id_nbo < 65536
  pub ext_id_fits : s.ext_id_nbo < 65536

pub record IsWell (e : NatEngine) : Type 0 where
  pub cursor_ok : CursorOk e.icmp_id_cursor
  pub echo_ok : (i : ℕ) → EchoOk (e.icmp_sessions i)
  pub entries_ok : EntriesOk e
  pub owned :
      (i : ℕ)
      → ((e.icmp_sessions i).active ≡ false)
        ⊎ (e.icmp_id_to_index (ntohs (e.icmp_sessions i).ext_id_nbo) ≡ some i)

pub new_engine-IsWell : IsWell new_engine
unfolding new_engine
new_engine-IsWell = record {
  cursor_ok = omega arith;
  echo_ok = λ i. ground arith;
  entries_ok = λ id. tt;
  owned = λ i. inl refl;
}

pub refresh_icmp-IsWell : (e : NatEngine) (idx : ℕ) → IsWell e → IsWell (refresh_icmp e idx)
unfolding refresh_icmp
refresh_icmp-IsWell e idx w = record {
  cursor_ok = w.cursor_ok;
  echo_ok = λ i. ground (arith, w.echo_ok i, w.echo_ok idx);
  entries_ok = λ id. ground (arith, w.entries_ok id);
  owned = λ i. ground (arith, w.owned i, w.owned idx);
}
