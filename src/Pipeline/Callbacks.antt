-- ===== src/Pipeline/Callbacks.antt =====
-- `CallbackRegistry` (include/EventCallbacks_util.hpp): the subscribers of the data plane. What a
-- subscriber does is a function on the state `W` that it changes. The one that `App::start` registers
-- is `TelemetryObserver` (src/App.cpp).
use high_performance_gaming.Common.{ℕ, ltb, if◌then◌else◌, Option, none, some, List, [], ◌∷◌, ◌++◌}
use high_performance_gaming.Common.Array.{length}
use high_performance_gaming.Net.Packet.{Span, ParsedPacket}
use high_performance_gaming.Processor.{Priority}
use high_performance_gaming.Scheduler.TxFrame.{TxResult}
use high_performance_gaming.Telemetry.{BatchStats, Metrics, commit_batch}

abbrev pub max_observers : ℕ
max_observers = 8

pub record PacketObserver (W : Type 0) : Type 0 where
  pub on_frame : Span → W → W
  pub on_packet : ParsedPacket → Priority → W → W
  pub on_batch : BatchStats → ℕ → W → W
  pub on_tx_result : TxResult → ℕ → W → W

-- The first `observer_count_` entries of `observers_`, and the slots for callbacks.
pub record CallbackRegistry (W : Type 0) : Type 0 where
  pub observers : List (PacketObserver W)
  pub frame_cb : Option (Span → W → W)
  pub packet_cb : Option (ParsedPacket → Priority → W → W)
  pub batch_cb : Option (BatchStats → ℕ → W → W)

abbrev pub new_registry : (W : Type 0) → CallbackRegistry W
new_registry W = record { observers = []; frame_cb = none; packet_cb = none; batch_cb = none }

module _ {W : Type 0} where
  -- The null observer is `none`.
  unfoldable pub register_observer :
      CallbackRegistry W → Option (PacketObserver W) → CallbackRegistry W
  register_observer r none = r
  register_observer r (some o) =
      if ltb (length r.observers) max_observers
      then record r { observers = r.observers ++ (o ∷ []) }
      else r

  unfoldable pub set_frame_callback :
      CallbackRegistry W → Option (Span → W → W) → CallbackRegistry W
  set_frame_callback r cb = record r { frame_cb = cb }

  unfoldable pub set_packet_callback :
      CallbackRegistry W → Option (ParsedPacket → Priority → W → W) → CallbackRegistry W
  set_packet_callback r cb = record r { packet_cb = cb }

  unfoldable pub set_batch_callback :
      CallbackRegistry W → Option (BatchStats → ℕ → W → W) → CallbackRegistry W
  set_batch_callback r cb = record r { batch_cb = cb }

  -- The loop over the observers, in the order of their registration.
  unfoldable pub notify : List (PacketObserver W) → (PacketObserver W → W → W) → W → W
  notify [] event w = w
  notify (o ∷ os) event w = notify os event (event o w)

  unfoldable pub dispatch_frame : CallbackRegistry W → Span → W → W
  dispatch_frame r frame w =
      let w' = notify r.observers (λ o. o.on_frame frame) w in
      elim r.frame_cb [ none ↦ w' | some cb ↦ cb frame w' ]

  unfoldable pub dispatch_packet : CallbackRegistry W → ParsedPacket → Priority → W → W
  dispatch_packet r pkt priority w =
      let w' = notify r.observers (λ o. o.on_packet pkt priority) w in
      elim r.packet_cb [ none ↦ w' | some cb ↦ cb pkt priority w' ]

  unfoldable pub dispatch_batch : CallbackRegistry W → BatchStats → ℕ → W → W
  dispatch_batch r stats core_id w =
      let w' = notify r.observers (λ o. o.on_batch stats core_id) w in
      elim r.batch_cb [ none ↦ w' | some cb ↦ cb stats core_id w' ]

  unfoldable pub dispatch_tx_result : CallbackRegistry W → TxResult → ℕ → W → W
  dispatch_tx_result r result bytes w = notify r.observers (λ o. o.on_tx_result result bytes) w

-- `TelemetryObserver`: only a batch does anything.
abbrev pub telemetry_observer : PacketObserver Metrics
telemetry_observer = record {
  on_frame = λ frame m. m;
  on_packet = λ pkt priority m. m;
  on_batch = λ stats core_id m. commit_batch m stats core_id;
  on_tx_result = λ result bytes m. m;
}

-- `dl_events_` and `ul_events_` once `App::start` has registered its observer.
unfoldable pub app_events : CallbackRegistry Metrics
unfolding register_observer
app_events = register_observer (new_registry Metrics) (some telemetry_observer)
