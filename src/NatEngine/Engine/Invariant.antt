-- ===== src/NatEngine/Engine/Invariant.antt =====
-- The invariant of the whole engine, kept by every operation of it.
use high_performance_gaming.Common.{ℕ, ◌+◌, ◌<◌, arith, refl}
use high_performance_gaming.Net.Bytes.{IsBytes, load16-lt, load32-lt}
use high_performance_gaming.Net.Packet.{ParsedPacket, memory}
use high_performance_gaming.NatEngine.State.{FlowKey, NatEngine, new_engine, set_wan_ip, tick}
use high_performance_gaming.NatEngine.Sessions.{refresh, claim}
use high_performance_gaming.NatEngine.Sessions.Invariant as SessionInvariant
use high_performance_gaming.NatEngine.Sessions.Invariant.{KeyOk, claim-IsWell, refresh-IsWell}
use high_performance_gaming.NatEngine.Icmp.{refresh_icmp, claim_icmp}
use high_performance_gaming.NatEngine.Icmp.Invariant as EchoInvariant
use high_performance_gaming.NatEngine.Icmp.Claim.{claim_icmp-Claimed}
use high_performance_gaming.NatEngine.Engine.{flow_key, process_outbound, process_inbound, Outcome}
use high_performance_gaming.NatEngine.Engine.Outbound.{
  Outbound, refused, no_session, sent, no_echo, echo_sent, echo_claim, process_outbound-Outbound,
}
use high_performance_gaming.NatEngine.Engine.Inbound.{
  Inbound, delivered, echo_delivered, process_inbound-Inbound,
}
use high_performance_gaming.NatEngine.Engine.Inbound as InboundCases
use high_performance_gaming.NatEngine.Engine.Frame.{
  claim-EchoesKept, claim_icmp-SessionsKept, EchoesKept-IsWell, SessionsKept-IsWell,
}

pub record IsValid (e : NatEngine) : Type 0 where
  pub sessions_well : SessionInvariant.IsWell e
  pub echoes_well : EchoInvariant.IsWell e
  pub wan_fits : e.wan_ip_nbo < 4294967296

-- A new engine is valid: both session tables are well-formed, and the WAN address fits 32 bits.
pub new_engine-IsValid : IsValid new_engine
unfolding new_engine
new_engine-IsValid = record {
  sessions_well = SessionInvariant.new_engine-IsWell;
  echoes_well = EchoInvariant.new_engine-IsWell;
  wan_fits = omega arith;
}

-- Neither the sessions nor the echo sessions of a valid engine hang on the WAN address or the clock.
pub set_wan_ip-IsValid :
    (e : NatEngine) (ip : ℕ) → ip < 4294967296 → IsValid e → IsValid (set_wan_ip e ip)
unfolding set_wan_ip
set_wan_ip-IsValid e ip h v = record {
  sessions_well = record {
    cursor_lo = v.sessions_well.cursor_lo;
    cursor_hi = v.sessions_well.cursor_hi;
    sessions_ok = v.sessions_well.sessions_ok;
    index_ok = v.sessions_well.index_ok;
  };
  echoes_well = record {
    cursor_ok = v.echoes_well.cursor_ok;
    echo_ok = v.echoes_well.echo_ok;
    entries_ok = v.echoes_well.entries_ok;
    owned = v.echoes_well.owned;
  };
  wan_fits = h;
}

pub tick-IsValid : (e : NatEngine) → IsValid e → IsValid (tick e)
unfolding tick
tick-IsValid e v = record {
  sessions_well = record {
    cursor_lo = v.sessions_well.cursor_lo;
    cursor_hi = v.sessions_well.cursor_hi;
    sessions_ok = v.sessions_well.sessions_ok;
    index_ok = v.sessions_well.index_ok;
  };
  echoes_well = record {
    cursor_ok = v.echoes_well.cursor_ok;
    echo_ok = v.echoes_well.echo_ok;
    entries_ok = v.echoes_well.entries_ok;
    owned = v.echoes_well.owned;
  };
  wan_fits = v.wan_fits;
}

claim-IsValid : (e : NatEngine) (key : FlowKey) → KeyOk key → IsValid e → IsValid (claim e key).1
claim-IsValid e key k v = record {
  sessions_well = claim-IsWell e key k v.sessions_well;
  echoes_well = EchoesKept-IsWell e _ (claim-EchoesKept e key) v.echoes_well;
  wan_fits = rw (claim-EchoesKept e key).wan_same v.wan_fits;
}

claim_icmp-IsValid :
    (e : NatEngine) (sa da id_nbo : ℕ)
    → sa < 4294967296
    → id_nbo < 65536
    → IsValid e
    → IsValid (claim_icmp e sa da id_nbo).1
claim_icmp-IsValid e sa da id_nbo hs hi v = record {
  sessions_well = SessionsKept-IsWell e _ (claim_icmp-SessionsKept e sa da id_nbo) v.sessions_well;
  echoes_well = (claim_icmp-Claimed e sa da id_nbo v.echoes_well hs hi).well;
  wan_fits = rw (claim_icmp-SessionsKept e sa da id_nbo).wan_same v.wan_fits;
}

-- From a valid engine, an outgoing packet of any bytes leaves the engine valid, whatever becomes
-- of the packet.
pub process_outbound-IsValid :
    (e : NatEngine) (p : ParsedPacket)
    → IsBytes (memory p)
    → IsValid e
    → IsValid (process_outbound e p).1
process_outbound-IsValid e p b v = go (process_outbound e p) (process_outbound-Outbound e p)
  where
    key : (ip l4 : ℕ) → IsValid (claim e (flow_key (memory p) ip l4)).1
    key ip l4 =
        claim-IsValid e _
          (record { saddr_fits = load32-lt (memory p) _ b; sport_fits = load16-lt (memory p) l4 b })
          v

    echo : (ip icmp : ℕ) → IsValid (echo_claim e p ip icmp).1
    echo ip icmp =
        claim_icmp-IsValid e _ _ _ (load32-lt (memory p) _ b) (load16-lt (memory p) (icmp + 4) b) v

    go : (r : Outcome) → Outbound e p r → IsValid r.1
    go _ refused = v
    go _ (no_session ip l4) = key ip l4
    go _ (sent ip l4 at_check _ _ _ _) = key ip l4
    go _ (no_echo ip icmp) = echo ip icmp
    go _ (echo_sent ip icmp _ _ _ _) = echo ip icmp

-- From a valid engine, an incoming packet leaves the engine valid, whatever becomes of the
-- packet.
pub process_inbound-IsValid :
    (e : NatEngine) (p : ParsedPacket) → IsValid e → IsValid (process_inbound e p).1
unfolding refresh refresh_icmp
process_inbound-IsValid e p v = go (process_inbound e p) (process_inbound-Inbound e p)
  where
    go : (r : Outcome) → Inbound e p r → IsValid r.1
    go _ InboundCases.refused = v
    go _ (delivered ip l4 at_check idx addr port d) = record {
      sessions_well = refresh-IsWell e idx v.sessions_well;
      echoes_well =
          EchoesKept-IsWell e _
            (record {
              sessions_same = refl;
              index_same = refl;
              cursor_same = refl;
              wan_same = refl;
            })
            v.echoes_well;
      wan_fits = v.wan_fits;
    }
    go _ (echo_delivered ip icmp idx addr id d) = record {
      sessions_well =
          SessionsKept-IsWell e _
            (record {
              sessions_same = refl;
              index_same = refl;
              cursor_same = refl;
              wan_same = refl;
            })
            v.sessions_well;
      echoes_well = EchoInvariant.refresh_icmp-IsWell e idx v.echoes_well;
      wan_fits = v.wan_fits;
    }
