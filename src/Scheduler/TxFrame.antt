-- ===== src/Scheduler/TxFrame.antt =====
-- `TxFrameOutput_util::try_send_packet_nonblocking` and `try_hardware_send`.
use high_performance_gaming.Common.{ℕ, zero, suc, ◌≡◌, ◌==◌, if◌then◌else◌, refl}

-- What one `send(…, MSG_DONTWAIT)` that was not interrupted comes to: a number of bytes, or an error
-- (EAGAIN, EWOULDBLOCK and ENOBUFS on the one side, all others on the other).
pub data SendResult : Type 0 where
  wrote : ℕ → SendResult
  would_block other_error : SendResult

-- The kernel's answers to one call of the loop: some EINTR, then a result.
pub record Kernel : Type 0 where
  pub interrupts : ℕ
  pub result : SendResult

pub data PacketTxTry : Type 0 where
  complete busy error : PacketTxTry

pub data TxResult : Type 0 where
  success congested fatal : TxResult

unfoldable pub classify : ℕ → SendResult → PacketTxTry
classify size (wrote n) = if n == size then complete else error
classify size would_block = busy
classify size other_error = error

-- The loop: an interrupted call is made again.
unfoldable pub send_loop : ℕ → ℕ → SendResult → PacketTxTry
unfolding classify
send_loop size zero r = classify size r
send_loop size (suc interrupts) r = send_loop size interrupts r

unfoldable pub try_send_packet_nonblocking : ℕ → Kernel → PacketTxTry
unfolding send_loop
try_send_packet_nonblocking size k = send_loop size k.interrupts k.result

unfoldable pub try_hardware_send : ℕ → Kernel → TxResult
unfolding try_send_packet_nonblocking
try_hardware_send size k = elim (try_send_packet_nonblocking size k) [
  | complete ↦ success
  | busy ↦ congested
  | error ↦ fatal
]

-- However often the call is interrupted, the loop comes to what its last call comes to.
pub send_loop_lem :
    (size interrupts : ℕ) (r : SendResult) → send_loop size interrupts r ≡ classify size r
unfolding send_loop
send_loop_lem size zero r = refl
send_loop_lem size (suc interrupts) r = send_loop_lem size interrupts r
