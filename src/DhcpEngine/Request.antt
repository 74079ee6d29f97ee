-- ===== src/DhcpEngine/Request.antt =====
-- `handle_dhcp_request`: the guards, the decision and the response on the wire. The clock is read at
-- the lookup (`now`) and at the commit (`now'`).
pub mod Decision
pub mod Checksum
use high_performance_gaming.Common.{
  ℕ, zero, suc, ◌+◌, ◌-◌, ◌*◌, ◌/◌, ◌%◌, Bool, true, false, not, ◌&&◌, ◌||◌, Option, none, some,
  ltb, leb, ◌==◌, if◌then◌else◌, List, [], ◌∷◌, ◌++◌,
}
use high_performance_gaming.Common.Array.{update, length}
use high_performance_gaming.Net.Bytes.{
  Memory, u32_mod, load16, load32, store16, store32, ntohs, ntohl, sum_words,
}
use high_performance_gaming.Net.Packet.{Span, ParsedPacket, parse, udp, is_valid_ipv4}
use high_performance_gaming.DhcpEngine.Pool.{
  DhcpEngine, DhcpMessage, find_or_assign_lease, commit_lease,
}
use high_performance_gaming.DhcpEngine.Options.{Cursor, scan_options}

-- What is sent: the message type and `yiaddr`.
abbrev pub Reply : Type 0
Reply = Option (ℕ × ℕ)

-- DHCPDISCOVER: an offer, if there is an address.
unfoldable pub answer_discover : ℕ × DhcpEngine → Reply × DhcpEngine
answer_discover (offered_ip, e) = if offered_ip == 0 then (none, e) else (some (2, offered_ip), e)

-- DHCPREQUEST: an acknowledgement of the address that was asked for, or a refusal.
unfoldable pub answer_request : ℕ → ℕ → ℕ × DhcpEngine → Reply × DhcpEngine
answer_request requested_ip now' (leased_ip, e) =
    if leased_ip == requested_ip
    then (some (5, leased_ip), commit_lease e leased_ip now')
    else (some (6, requested_ip), e)

unfoldable pub respond : DhcpEngine → ℕ → ℕ → Cursor → ℕ → ℕ → Reply × DhcpEngine
respond e mac ciaddr c now now' =
    if c.msg_type == 1
    then answer_discover (find_or_assign_lease e mac now)
    else if c.msg_type == 3
    then answer_request (if c.raw_requested_ip == 0 then ciaddr else c.raw_requested_ip) now'
        (find_or_assign_lease e mac now)
    else (none, e)

-- The size of a DhcpHeader, and its fields from `op` on.
abbrev pub dhcp_size : ℕ
dhcp_size = 240

-- The first six bytes of `chaddr`.
abbrev pub client_mac : Memory → ℕ → ℕ
client_mac m dhcp = load32 m (dhcp + 28) + u32_mod * load16 m (dhcp + 32)

-- `std::memcpy`
abbrev pub copy : Memory → ℕ → Memory → ℕ → ℕ → Memory
copy dest at src from n j = if leb at j && ltb j (at + n) then src (from + (j - at)) else dest j

abbrev pub store8 : Memory → ℕ → ℕ → Memory
store8 m i v = update m i (v % 256)

-- `*o++ = …` for each byte
abbrev pub write_bytes : Memory → ℕ → List ℕ → Memory
write_bytes m at [] = m
write_bytes m at (x ∷ xs) = write_bytes (store8 m at x) (at + 1) xs

abbrev pub bytes_of : ℕ → List ℕ
bytes_of v = (v % 256) ∷ (v / 256 % 256) ∷ (v / 65536 % 256) ∷ (v / 16777216 % 256) ∷ []

unfoldable pub response_options : DhcpEngine → ℕ → List ℕ
response_options e type =
    (53 ∷ 1 ∷ type ∷ [])
    ++ (1 ∷ 4 ∷ 255 ∷ 255 ∷ 255 ∷ 0 ∷ [])
    ++ (3 ∷ 4 ∷ bytes_of e.router_ip)
    ++ (6 ∷ 8 ∷ (bytes_of (ntohl 0x08080808) ++ bytes_of (ntohl 0x08040404)))
    ++ (51 ∷ 4 ∷ bytes_of (ntohl (e.lease_duration % u32_mod)))
    ++ (54 ∷ 4 ∷ bytes_of e.router_ip)
    ++ (255 ∷ [])

-- The Ethernet, IPv4 and UDP headers, before their lengths and checksums.
unfoldable pub response_headers : DhcpEngine → Memory → ℕ → Memory
response_headers e data_bytes dhcp =
    let m0 = copy (λ i. 0) 0 data_bytes (dhcp + 28) 6 in
    let m1 = store16 (store32 m0 6 (e.lan_if_mac % u32_mod)) 10 (e.lan_if_mac / u32_mod) in
    let m2 = store8 (store16 m1 12 (ntohs 0x0800)) 14 0x45 in
    let m3 = store16 (store16 (store8 m2 15 0) 18 0) 20 0 in
    let m4 = store32 (store8 (store8 m3 22 64) 23 17) 26 e.router_ip in
    store16 (store16 (store32 m4 30 0xffffffff) 34 (ntohs 67)) 36 (ntohs 68)

-- The DHCP header at 42.
unfoldable pub response_body : DhcpEngine → Memory → ℕ → ℕ → Memory → Memory
response_body e data_bytes dhcp yiaddr m =
    let m1 = store8 (store8 (store8 (store8 m 42 2) 43 1) 44 6) 45 0 in
    let m2 = store32 m1 46 (load32 data_bytes (dhcp + 4)) in
    let m3 = store16 (store16 m2 50 0) 52 (ntohs 0x8000) in
    let m4 = store32 (store32 (store32 (store32 m3 54 0) 58 yiaddr) 62 e.router_ip) 66 0 in
    store32 (copy m4 70 data_bytes (dhcp + 28) 16) 278 (ntohl 0x63825363)

-- The checksum of the IPv4 header at 14: the sum of its words in a `uint32_t`, folded, inverted.
unfoldable pub ip_checksum : Memory → ℕ
ip_checksum m =
    let ip_sum = sum_words m 14 10 % u32_mod in
    let folded = ip_sum / 65536 + ip_sum % 65536 in
    ntohs (65535 - (folded + folded / 65536) % 65536)

-- The lengths and the checksums.
unfoldable pub seal : Memory → ℕ → ℕ → Memory
seal m ip_len udp_len =
    let m1 = store16 (store16 m 16 (ntohs ip_len)) 24 0 in
    store16 (store16 (store16 m1 24 (ip_checksum m1)) 38 (ntohs udp_len)) 40 0

-- `send_response`: the frame that is sent.
unfoldable pub response : DhcpEngine → Memory → ℕ → ℕ → ℕ → Span
response e data_bytes dhcp type yiaddr =
    let options = response_options e type in
    let m = response_body e data_bytes dhcp yiaddr (response_headers e data_bytes dhcp) in
    let udp_len = 8 + (dhcp_size + length options) in
    record {
      size = 14 + (20 + udp_len);
      bytes = seal (write_bytes m (42 + dhcp_size) options) (20 + udp_len) udp_len;
    }

abbrev pub send_response : DhcpEngine → Memory → ℕ → Reply × DhcpEngine → Option Span × DhcpEngine
send_response e data_bytes dhcp (none, e') = (none, e')
send_response e data_bytes dhcp (some (type, yiaddr), e') =
    (some (response e data_bytes dhcp type yiaddr), e')

-- A message is answered if it is a DHCP request to port 67 with its whole header.
abbrev pub is_request : DhcpMessage → ParsedPacket → ℕ → Bool
is_request msg parsed l4 =
    let dhcp = parsed.l4_offset + 8 in
    (ntohs (load16 msg.data_bytes (l4 + 2)) == 67)
    && not (ltb msg.len (dhcp + dhcp_size))
    && (msg.data_bytes dhcp == 1)
    && (ntohl (load32 msg.data_bytes (dhcp + 236)) == 0x63825363)

-- From the option loop on.
unfoldable pub handle_options :
    DhcpEngine → Memory → ℕ → Option Cursor → ℕ → ℕ → Option Span × DhcpEngine
handle_options e m dhcp none now now' = (none, e)
handle_options e m dhcp (some c) now now' =
    send_response e m dhcp (respond e (client_mac m dhcp) (load32 m (dhcp + 12)) c now now')

unfoldable pub handle_dhcp_request : DhcpEngine → DhcpMessage → ℕ → ℕ → Option Span × DhcpEngine
handle_dhcp_request e msg now now' =
    let m = msg.data_bytes in
    let parsed = parse (record { size = msg.len; bytes = m }) in
    let dhcp = parsed.l4_offset + 8 in
    if not (is_valid_ipv4 parsed) then (none, e) else elim (udp parsed) [
      | none ↦ (none, e)
      | some l4 ↦
          if is_request msg parsed l4
          then handle_options e m dhcp (scan_options m (dhcp + dhcp_size) msg.len) now now'
          else (none, e)
    ]
