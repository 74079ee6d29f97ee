-- ===== src/Tests/Sessions.antt =====
-- Sessions, and a port that is given out twice.
use high_performance_gaming.Common.{◌≡◌, arith, refl, true, some, ℕ}
use high_performance_gaming.Net.Bytes.{ntohs}
use high_performance_gaming.NatEngine.State.{FlowKey, NatEngine, new_engine, hash_flow}
use high_performance_gaming.NatEngine.Sessions.{open_session, claim, probe}
use high_performance_gaming.NatEngine.Sessions.Invariant.{
  IsWell, new_engine-IsWell, open_session-IsWell,
}
use high_performance_gaming.NatEngine.Sessions.Ownership.{
  IsOwned, new_engine-IsOwned, claim-IsOwned, AnswersTo, claim-AnswersTo, open_session-steals,
}
use high_performance_gaming.NatEngine.Icmp.{claim_icmp}
use high_performance_gaming.NatEngine.Icmp.Invariant as Echo
use high_performance_gaming.NatEngine.Icmp.Claim.{Claimed, claim_icmp-Claimed}

abbrev flow : FlowKey
flow = record { saddr = 0x0201a8c0; daddr = 0x08080808; sport = 0x8813; dport = 0x3500 }

abbrev other_flow : FlowKey
other_flow = record { saddr = 0x0301a8c0; daddr = 0x08080808; sport = 0x8813; dport = 0x3500 }

claim-IsOwned_example : IsOwned (claim new_engine flow).1
unfolding new_engine
claim-IsOwned_example = claim-IsOwned new_engine flow new_engine-IsWell refl new_engine-IsOwned

claim-AnswersTo_example :
    (idx : ℕ) × AnswersTo (claim new_engine flow).1 (claim new_engine flow).0 flow idx
unfolding new_engine claim probe hash_flow open_session ntohs
claim-AnswersTo_example =
    claim-AnswersTo new_engine flow new_engine-IsWell new_engine-IsOwned (omega arith)

-- The first session has port 10000, and the cursor has come round to it.
abbrev come_round : NatEngine
come_round = record ((open_session new_engine 7 flow).1) { port_cursor = 10000 }

come_round-IsWell : IsWell come_round
come_round-IsWell =
    let w =
      open_session-IsWell new_engine 7 flow (omega arith)
        (record { saddr_fits = omega arith; sport_fits = omega arith }) new_engine-IsWell in
    record {
      cursor_lo = omega arith;
      cursor_hi = omega arith;
      sessions_ok = w.sessions_ok;
      index_ok = w.index_ok;
    }

open_session-steals_example :
    let (ext, e') = open_session come_round 8 other_flow in
    ((e'.sessions 7).active ≡ true)
    × ((e'.sessions 7).external_port ≡ ext)
    × (e'.port_to_index (ntohs ext) ≡ some 8)
unfolding open_session new_engine ntohs
open_session-steals_example =
    open_session-steals come_round 8 7 other_flow come_round-IsWell refl (omega arith)

claim_icmp-Claimed_example :
    Claimed 0x0201a8c0 0x08080808 0x0100 (claim_icmp new_engine 0x0201a8c0 0x08080808 0x0100)
claim_icmp-Claimed_example =
    claim_icmp-Claimed new_engine 0x0201a8c0 0x08080808 0x0100 Echo.new_engine-IsWell (omega arith)
      (omega arith)
