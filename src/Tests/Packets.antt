-- ===== src/Tests/Packets.antt =====
-- Runs of the parser and of the checksums.
use high_performance_gaming.Common.{◌≡◌, refl, some, none}
use high_performance_gaming.Net.Packet.{parse, udp, tcp}
use high_performance_gaming.Net.Packet.Bounds.{IsParsed, parse-IsParsed}
use high_performance_gaming.Tests.Frames.{span, query, query_packet}

query_headers : (udp query_packet ≡ some 34) × (tcp query_packet ≡ none)
unfolding parse
query_headers = (refl, refl)

parse-IsParsed_example : IsParsed query_packet
parse-IsParsed_example = parse-IsParsed (span query)
