-- ===== src/Tests/Translations.antt =====
-- The query goes out, and its answer comes back.
use high_performance_gaming.Common.{◌+◌, ◌%◌, ◌≡◌, ◌⊎◌, inl, inr, arith, refl, true, false}
use high_performance_gaming.Net.Bytes.{load16, load32, ntohs, store16, store32}
use high_performance_gaming.Net.Packet.{parse, memory, saddr, daddr}
use high_performance_gaming.Net.Packet.Bounds.{parse-IsParsed}
use high_performance_gaming.NatEngine.State.{
  NatEngine, new_engine, set_wan_ip, tick, hash_flow, release_index,
}
use high_performance_gaming.NatEngine.Checksum.{address_sum, update_checksum_16, update_checksum_32}
use high_performance_gaming.NatEngine.Sessions.Ownership.{IsOwned}
use high_performance_gaming.NatEngine.Engine.{
  process_outbound, process_inbound, rewrite_transport, outbound_at, translate_outbound,
  adjust_transport,
}
use high_performance_gaming.NatEngine.Sessions.{claim, probe, open_session}
use high_performance_gaming.NatEngine.Engine.Rewrite.{rewrite-check}
use high_performance_gaming.NatEngine.Engine.Invariant.{
  IsValid, new_engine-IsValid, set_wan_ip-IsValid, tick-IsValid, process_outbound-IsValid,
}
use high_performance_gaming.NatEngine.Engine.Translation.{
  IsFrame, SentAs, process_outbound-translates,
}
use high_performance_gaming.NatEngine.Engine.RoundTrip.{IsTransport, Answers, outbound-inbound}
use high_performance_gaming.Tests.Frames.{span, query, answer, query_packet, answer_packet, wan_ip}

abbrev engine : NatEngine
engine = tick (set_wan_ip new_engine wan_ip)

engine-IsOwned : IsOwned engine
unfolding new_engine set_wan_ip tick
engine-IsOwned i = inl refl

query-IsFrame : IsFrame query_packet
unfolding parse
query-IsFrame = record {
  parsed = parse-IsParsed (span query);
  whole_header = omega arith;
  is_bytes = λ i. omega arith;
}

answer-IsFrame : IsFrame answer_packet
unfolding parse
answer-IsFrame = record {
  parsed = parse-IsParsed (span answer);
  whole_header = omega arith;
  is_bytes = λ i. omega arith;
}

query-IsTransport : IsTransport query_packet 34 40
unfolding parse
query-IsTransport = record {
  frame = query-IsFrame;
  ipv4_there = refl;
  known = inr refl;
  header_there = refl;
}

answer-IsTransport : IsTransport answer_packet 34 40
unfolding parse
answer-IsTransport = record {
  frame = answer-IsFrame;
  ipv4_there = refl;
  known = inr refl;
  header_there = refl;
}

engine-IsValid : IsValid engine
engine-IsValid =
    tick-IsValid _ (set_wan_ip-IsValid new_engine wan_ip (omega arith) new_engine-IsValid)

query_accepted : (process_outbound engine query_packet).0 ≡ true
unfolding process_outbound outbound_at translate_outbound claim probe hash_flow open_session
    new_engine set_wan_ip tick parse load32 load16
query_accepted = refl

answer-Answers :
    Answers engine query_packet (process_outbound engine query_packet).2 34 answer_packet 34 40
unfolding process_outbound outbound_at translate_outbound claim probe hash_flow open_session
    new_engine set_wan_ip tick parse load32 load16 store32 store16 rewrite_transport
    adjust_transport update_checksum_32 update_checksum_16 ntohs release_index
answer-Answers = record {
  is_transport = answer-IsTransport;
  from_remote = refl;
  to_wan = refl;
  from_port = refl;
  to_port = refl;
}

outbound-inbound_example :
    let (accepted, e', r') =
      process_inbound (process_outbound engine query_packet).1 answer_packet in
    (accepted ≡ true)
    × (daddr (memory r') 14 ≡ saddr (memory query_packet) 14)
    × (load16 (memory r') (34 + 2) ≡ load16 (memory query_packet) 34)
outbound-inbound_example =
    outbound-inbound engine query_packet 34 40 answer_packet 34 40 query-IsTransport engine-IsValid
      engine-IsOwned query_accepted answer-Answers

process_outbound-translates_example :
    let (accepted, e', q) = process_outbound engine query_packet in
    ((accepted ≡ false) × (q ≡ query_packet)) ⊎ ((accepted ≡ true) × SentAs engine query_packet q)
process_outbound-translates_example =
    process_outbound-translates engine query_packet query-IsFrame engine-IsValid

process_outbound-IsValid_example : IsValid (process_outbound engine query_packet).1
process_outbound-IsValid_example =
    process_outbound-IsValid engine query_packet query-IsFrame.is_bytes engine-IsValid

rewrite-check_example :
    let m = memory query_packet in
    (ntohs (load16 (rewrite_transport m 24 40 26 34 wan_ip 0x1027) 40)
        + address_sum wan_ip
        + ntohs 0x1027)
      % 65535
    ≡ (ntohs (load16 m 40) + address_sum (load32 m 26) + ntohs (load16 m 34)) % 65535
unfolding parse load16
rewrite-check_example =
    rewrite-check (memory query_packet) 40 26 34 wan_ip 0x1027 (inl refl) (omega arith)
      (omega arith) (inr (omega arith)) (omega arith)
