-- ===== src/DhcpEngine/Service.antt =====
-- The operations of `DhcpEngine` that other threads call; each runs under the engine's lock, or is
-- the data plane's push to the queue.
pub mod Invariant
use high_performance_gaming.Common.{
  ℕ, zero, suc, ◌+◌, min, Bool, Option, none, some, ltb, if◌then◌else◌, List, [], ◌∷◌,
}
use high_performance_gaming.RingBuffer.Spsc
use high_performance_gaming.Net.Packet.{Span, ParsedPacket, memory}
use high_performance_gaming.DhcpEngine.Pool.{DhcpEngine, DhcpMessage, PoolResult, init_pool}
use high_performance_gaming.DhcpEngine.Request.{handle_dhcp_request}

abbrev pub queue_room : ℕ
queue_room = 512

unfoldable pub reconfigure : DhcpEngine → ℕ → ℕ → ℕ → PoolResult × DhcpEngine
reconfigure e pool_start pool_end lease =
    init_pool (record e { lease_duration = lease }) pool_start pool_end

unfoldable pub set_router_ip : DhcpEngine → ℕ → DhcpEngine
set_router_ip e ip = record e { router_ip = ip }

-- The message is a copy of the frame's first 512 bytes; a full queue drops it.
unfoldable pub intercept_request : DhcpEngine → ParsedPacket → DhcpEngine
intercept_request e pkt =
    let len = min pkt.raw_span.size 512 in
    let msg : DhcpMessage = record {
      len = len;
      data_bytes = λ i. if ltb i len then memory pkt i else 0;
    } in
    record e { request_queue = (Spsc.push queue_room e.request_queue msg).1 }

-- The two readings of the clock for one request.
pub record Clock : Type 0 where
  pub now : ℕ
  pub now' : ℕ

abbrev pub Served : Type 0
Served = List (Option Span) × DhcpEngine

abbrev pub served_first : Option Span → Served → Served
served_first frame (frames, e) = (frame ∷ frames, e)

-- One request off the queue; the loop goes on with `rest` if there was one.
abbrev pub serve_one : DhcpEngine → Option DhcpMessage → Clock → (DhcpEngine → Served) → Served
serve_one e none clock rest = ([], e)
serve_one e (some msg) clock rest =
    let handled = handle_dhcp_request e msg clock.now clock.now' in
    served_first handled.0 (rest handled.1)

-- The loop with a budget of `n` requests left.
unfoldable pub serve : ℕ → ℕ → (ℕ → Clock) → DhcpEngine → Served
serve zero k clock e = ([], e)
serve (suc n) k clock e =
    let popped = Spsc.pop queue_room e.request_queue in
    serve_one (record e { request_queue = popped.1 }) popped.0 (clock k) (serve n (k + 1) clock)

unfoldable pub process_background_tasks : (ℕ → Clock) → DhcpEngine → Served
process_background_tasks clock e = serve 32 0 clock e
