-- ===== src/Worker.antt =====
-- One worker of `Forward_Engine` (src/App.cpp): its receive thread, its processing thread and the
-- thread that stops them, interleaved. Each step is one call that the others can see.
pub mod Delivery
pub mod Wakeup
pub mod Shutdown
pub mod Sound
use Prim.Native.Nat.{bit_or}
use high_performance_gaming.Common.{
  ℕ, zero, suc, ◌+◌, ◌-◌, ◌<◌, ◌≡◌, ◌⊎◌, min, Bool, true, false, ltb, if◌then◌else◌, Option, none,
  some, List, [], ◌∷◌, ◌++◌,
}
use high_performance_gaming.Common.Array.{update, length}
use high_performance_gaming.RingBuffer.Spsc
use high_performance_gaming.RingBuffer.Spsc.{SpscRingBuffer}
use high_performance_gaming.RingBuffer.ZeroAlloc.{Packet}
use high_performance_gaming.Net.Bytes.{Memory, IsBytes}
use high_performance_gaming.Net.Packet.{Span, parse}
use high_performance_gaming.Processor.{high}
use high_performance_gaming.Scheduler.Float.{Float}
use high_performance_gaming.Scheduler.TxFrame.{TxResult, success, congested, fatal}
use high_performance_gaming.Scheduler.Shaper.{Shaper, Round, Sent, Run, process_queue}
use high_performance_gaming.Telemetry.{Metrics}
use high_performance_gaming.Pipeline.Callbacks.{
  CallbackRegistry, dispatch_frame, dispatch_tx_result,
}
use high_performance_gaming.Pipeline.{World, PacketConsumer, drop_in, on_packet_event}

-- What the socket delivers: a span of bytes.
pub record Frame : Type 0 where
  pub span : Span
  pub bytes_ok : IsBytes span.bytes

pub record RxFrameCopy : Type 0 where
  pub data_bytes : Memory
  pub len : ℕ

-- The first 2048 bytes of a frame, and zeros behind them.
unfoldable pub copy_frame : Frame → RxFrameCopy
copy_frame raw =
    let n = min raw.span.size 2048 in
    record { data_bytes = λ i. if ltb i n then raw.span.bytes i else 0; len = n }

abbrev pub queue_capacity : ℕ
queue_capacity = 1024

-- Where the receive thread stands: before the test of `running_`, in `poll`, before the read of
-- `stop_efd`, before `peek_rx_frame`, before the push of the frame it has, before the write to
-- `frame_efd`, or at its end.
pub data RxAt : Type 0 where
  rx_loop rx_poll rx_read rx_peek : RxAt
  rx_push : Frame → RxAt
  rx_signal rx_ended : RxAt

-- Where the processing thread stands: before the test of `running_`, before a `pop`, in `poll`, before
-- the read of `stop_efd`, or at its end.
pub data ProcAt : Type 0 where
  proc_loop proc_pop proc_poll proc_read proc_ended : ProcAt

-- How far `Forward_Engine::stop` is: not called, `running_` reset, or the workers woken too.
pub data StopAt : Type 0 where
  serving halted woken : StopAt

module _ (F : Float) where
  -- `arrivals` are the frames in the socket's ring. The last three say what has been: the frames taken off
  -- the socket, those that found the queue full, and those handed to the pipeline.
  pub record WorkerState : Type 0 where
    pub running : Bool
    pub stop_at : StopAt
    pub rx : RxAt
    pub proc : ProcAt
    pub arrivals : List Frame
    pub frame_q : SpscRingBuffer RxFrameCopy
    pub frame_efd : ℕ
    pub stop_efd : ℕ
    pub poll_errors : ℕ
    pub consumer : PacketConsumer F
    pub received : List Frame
    pub refused : ℕ
    pub processed : List RxFrameCopy

  -- The push, and for a full queue the count of the drop; `finish_rx_frame` gives the slot back.
  unfoldable pub push_frame : WorkerState → Frame → WorkerState
  push_frame s raw =
      let copy = copy_frame raw in
      let (done, q) = Spsc.push queue_capacity s.frame_q copy in
      let c = s.consumer in
      if done
      then record s { frame_q = q; rx = rx_signal; received = s.received ++ (raw ∷ []) }
      else record s {
        consumer = record c {
          dropped = update c.dropped c.core_id (drop_in high (c.dropped c.core_id));
        };
        rx = rx_peek;
        received = s.received ++ (raw ∷ []);
        refused = s.refused + 1;
      }

  -- A frame off the queue, through the pipeline.
  unfoldable pub process_frame :
      World → WorkerState → SpscRingBuffer RxFrameCopy → RxFrameCopy → WorkerState
  process_frame w s q copy =
      let frame : Span = record { size = copy.len; bytes = copy.data_bytes } in
      let c = s.consumer in
      let told = record c { metrics = dispatch_frame c.callbacks frame c.metrics } in
      record s {
        frame_q = q;
        consumer = on_packet_event F w told (parse frame);
        processed = s.processed ++ (copy ∷ []);
      }

  -- The frames that the interface took.
  abbrev pub successes : Sent F → List Packet
  successes [] = []
  successes ((success, pkt) ∷ out) = pkt ∷ successes out
  successes ((congested, pkt) ∷ out) = successes out
  successes ((fatal, pkt) ∷ out) = successes out

  -- `tx_callback_`, for each frame that the shaper tried.
  unfoldable pub report_sent : CallbackRegistry Metrics → Sent F → Metrics → Metrics
  report_sent r [] m = m
  report_sent r ((res, pkt) ∷ out) m = report_sent r out (dispatch_tx_result r res (length pkt) m)

  abbrev pub drained : PacketConsumer F → Run F → Option (PacketConsumer F)
  drained c none = none
  drained c (some (s, out)) = some (record c {
    shaper = some s;
    sent = c.sent ++ successes out;
    metrics = report_sent c.callbacks out c.metrics;
  })

  -- `if (cfg.route_shaper) cfg.route_shaper->process_queue(cfg.tx_fd)`; `none` is a loop without end.
  unfoldable pub drain_shaper :
      (ℕ → Round F) → Option (Shaper F) → PacketConsumer F → Option (PacketConsumer F)
  drain_shaper env none c = some c
  drain_shaper env (some s) c = drained c (process_queue F env s)

  -- The steps of the two threads. Where `poll` finds `stop_efd` readable, the thread reads it, which
  -- takes one token and blocks where there is none, and ends. `interrupted` is EINTR, or for the receive
  -- thread a wake-up for no frame.
  pub data ThreadStep (s : WorkerState) : WorkerState → Type 0 where
    rx_enter : s.rx ≡ rx_loop → s.running ≡ true → ThreadStep s (record s { rx = rx_poll })
    rx_leave : s.rx ≡ rx_loop → s.running ≡ false → ThreadStep s (record s { rx = rx_ended })
    rx_stopped : s.rx ≡ rx_poll → 0 < s.stop_efd → ThreadStep s (record s { rx = rx_read })
    rx_reads :
        s.rx ≡ rx_read
        → 0 < s.stop_efd
        → ThreadStep s (record s { rx = rx_ended; stop_efd = s.stop_efd - 1 })
    rx_ready : s.rx ≡ rx_poll → s.stop_efd ≡ 0 → ThreadStep s (record s { rx = rx_peek })
    rx_interrupted : s.rx ≡ rx_poll → ThreadStep s (record s { rx = rx_loop })
    rx_failed :
        s.rx ≡ rx_poll
        → ThreadStep s (record s { rx = rx_ended; poll_errors = bit_or s.poll_errors 2 })
    rx_take :
        (raw : Frame) (rest : List Frame)
        → s.rx ≡ rx_peek
        → s.running ≡ true
        → s.arrivals ≡ raw ∷ rest
        → ThreadStep s (record s { rx = rx_push raw; arrivals = rest })
    rx_none :
        s.rx ≡ rx_peek
        → (s.running ≡ false) ⊎ (s.arrivals ≡ [])
        → ThreadStep s (record s { rx = rx_loop })
    rx_pushes : (raw : Frame) → s.rx ≡ rx_push raw → ThreadStep s (push_frame s raw)
    rx_signals :
        s.rx ≡ rx_signal → ThreadStep s (record s { rx = rx_peek; frame_efd = s.frame_efd + 1 })
    proc_enter : s.proc ≡ proc_loop → s.running ≡ true → ThreadStep s (record s { proc = proc_pop })
    proc_leave :
        s.proc ≡ proc_loop → s.running ≡ false → ThreadStep s (record s { proc = proc_ended })
    proc_takes :
        (w : World) (copy : RxFrameCopy) (q : SpscRingBuffer RxFrameCopy)
        → s.proc ≡ proc_pop
        → Spsc.pop queue_capacity s.frame_q ≡ (some copy, q)
        → ThreadStep s (process_frame w s q copy)
    proc_drains :
        (env : ℕ → Round F) (c : PacketConsumer F)
        → s.proc ≡ proc_pop
        → Spsc.pop queue_capacity s.frame_q ≡ (none, s.frame_q)
        → drain_shaper env s.consumer.shaper s.consumer ≡ some c
        → ThreadStep s (record s { proc = proc_poll; consumer = c })
    proc_stopped :
        s.proc ≡ proc_poll → 0 < s.stop_efd → ThreadStep s (record s { proc = proc_read })
    proc_reads :
        s.proc ≡ proc_read
        → 0 < s.stop_efd
        → ThreadStep s (record s { proc = proc_ended; stop_efd = s.stop_efd - 1 })
    proc_wakes :
        s.proc ≡ proc_poll
        → s.stop_efd ≡ 0
        → 0 < s.frame_efd
        → ThreadStep s (record s { proc = proc_loop; frame_efd = 0 })
    proc_interrupted : s.proc ≡ proc_poll → ThreadStep s (record s { proc = proc_loop })
    proc_failed : s.proc ≡ proc_poll → ThreadStep s (record s { proc = proc_ended })

  -- The steps of the others: a frame arrives, and the two parts of `stop`, which writes a token for each of
  -- the two threads.
  pub data OtherStep (s : WorkerState) : WorkerState → Type 0 where
    arrives : (raw : Frame) → OtherStep s (record s { arrivals = s.arrivals ++ (raw ∷ []) })
    halts : s.stop_at ≡ serving → OtherStep s (record s { running = false; stop_at = halted })
    wakes :
        s.stop_at ≡ halted → OtherStep s (record s { stop_efd = s.stop_efd + 2; stop_at = woken })

  -- The worker as `start` makes it, with a consumer of its own.
  abbrev pub new_worker : PacketConsumer F → WorkerState
  new_worker c = record {
    running = true;
    stop_at = serving;
    rx = rx_loop;
    proc = proc_loop;
    arrivals = [];
    frame_q = record { buffer = λ i. record { data_bytes = λ j. 0; len = 0 }; head = 0; tail = 0 };
    frame_efd = 0;
    stop_efd = 0;
    poll_errors = 0;
    consumer = c;
    received = [];
    refused = 0;
    processed = [];
  }

  -- What can have happened since the start.
  pub data Reach (c : PacketConsumer F) : WorkerState → Type 0 where
    started : Reach c (new_worker c)
    by_thread : {s t : WorkerState} → Reach c s → ThreadStep s t → Reach c t
    by_other : {s t : WorkerState} → Reach c s → OtherStep s t → Reach c t
