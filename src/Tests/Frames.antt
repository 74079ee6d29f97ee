-- ===== src/Tests/Frames.antt =====
-- Frames as bytes: a query of 192.168.1.2:5000 to 8.8.8.8:53 over UDP, and what belongs to it.
use high_performance_gaming.Common.{ℕ, ◌%◌, List, [], ◌∷◌, ◌++◌}
use high_performance_gaming.Common.Array.{length, get_or}
use high_performance_gaming.Net.Packet.{Span, ParsedPacket, parse}

abbrev pub span : List ℕ → Span
span xs = record { size = length xs; bytes = λ i. get_or xs i 0 % 256 }

abbrev ethernet : List ℕ
ethernet = 2 ∷ 0 ∷ 0 ∷ 0 ∷ 0 ∷ 1 ∷ 2 ∷ 0 ∷ 0 ∷ 0 ∷ 0 ∷ 2 ∷ 8 ∷ 0 ∷ []

-- Version and header length, then the protocol, a checksum and the addresses.
abbrev ip_header : ℕ → ℕ → List ℕ → List ℕ
ip_header ver_ihl protocol addresses =
    ethernet
    ++ (ver_ihl ∷ 0 ∷ 0 ∷ 28 ∷ 0 ∷ 1 ∷ 0 ∷ 0 ∷ 64 ∷ protocol ∷ 0x12 ∷ 0x34 ∷ [])
    ++ addresses

abbrev host_to_server : List ℕ
host_to_server = 192 ∷ 168 ∷ 1 ∷ 2 ∷ 8 ∷ 8 ∷ 8 ∷ 8 ∷ []

-- The WAN address is 1.2.3.4.
abbrev server_to_wan : List ℕ
server_to_wan = 8 ∷ 8 ∷ 8 ∷ 8 ∷ 1 ∷ 2 ∷ 3 ∷ 4 ∷ []

abbrev pub wan_ip : ℕ
wan_ip = 0x04030201

abbrev pub query : List ℕ
query = ip_header 0x45 17 host_to_server ++ (0x13 ∷ 0x88 ∷ 0 ∷ 53 ∷ 0 ∷ 8 ∷ 0xab ∷ 0xcd ∷ [])

-- The answer to port 10000 of the WAN address.
abbrev pub answer : List ℕ
answer = ip_header 0x45 17 server_to_wan ++ (0 ∷ 53 ∷ 0x27 ∷ 0x10 ∷ 0 ∷ 8 ∷ 0xab ∷ 0xcd ∷ [])

abbrev pub query_packet : ParsedPacket
query_packet = parse (span query)

abbrev pub answer_packet : ParsedPacket
answer_packet = parse (span answer)
