-- ===== src/Lib.antt =====
-- A userspace router: frames from a raw socket are parsed, classified into two lanes, translated by
-- the NAT engine and sent, those of the Normal lane through a shaper.
--
-- The modules and the code they stand for:
--   Net.Bytes, Net.Packet  include/Headers_util.hpp (`ParsedPacket`), src/Types_util.cpp
--   NatEngine.State, Sessions, Icmp, Checksum, Engine
--                          src/NatEngine.cpp, include/NatEngine.hpp, `FlowKey` of include/Processor.hpp
--   RingBuffer.Spsc        `SpscRingBuffer` of include/Headers_util.hpp
--   RingBuffer.ZeroAlloc, Scheduler.TokenBucket, Scheduler.Shaper
--                          include/Scheduler_util.hpp, src/Scheduler_util.cpp
--   Scheduler.TxFrame      src/TxFrameOutput_util.cpp (`try_send_packet_nonblocking`)
--   Processor              `HeuristicProcessor` of include/Processor.hpp
--   Telemetry              `commit_batch` of include/Telemetry.hpp, the batches of `PacketConsumer` in
--                          src/App.cpp
--   Forwarding             the Ethernet rewriting steps of src/App.cpp, the snapshots of
--                          src/ForwardingState_util.cpp
--   Config                 src/Config.cpp, `parse_kv`, `load_config` and `save_config` on lists of bytes
--   Lifecycle              include/Lifecycle.hpp, `stop`, `~App` and `wait_for_shutdown` of src/App.cpp
--   Network.Masks, Subnet  the arithmetic of src/Network_util.cpp on prefixes and masks
--   Network.LanSync        src/NetworkConfig.cpp; `get_local_ip` and `set_iface_ipv4_and_prefix`
--   Pipeline               `PacketConsumer`, the route handlers (src/App.cpp), `send_best_effort`
--   Pipeline.Callbacks     include/EventCallbacks_util.hpp, `TelemetryObserver` of src/App.cpp
--   Worker                 `worker_event_loop`, `wake_workers`, `stop` of `Forward_Engine` (src/App.cpp)
--   Control.Services       src/ParameterServices.cpp, `applyDhcpConfig` of src/ControlPlane.cpp
--   Control                the threads of src/ControlPlane.cpp
--   DhcpEngine.Pool, Options, Request, Service
--                          src/DhcpEngine.cpp, include/DhcpEngine.hpp
--
-- A component's state is a record with the fields of the class, and an operation is a function from
-- the state to the next one. A frame is a memory of bytes with a size, a header pointer an offset
-- into it, a null pointer `none`. Addresses and ports are the words that the code loads from the
-- frame, of a little-endian machine, so `ntohs` swaps bytes; arithmetic on `uint16_t` and `uint32_t`
-- wraps as written. Parts of one function that the proofs speak of have names of their own: `claim`
-- is the probe loop of `process_outbound`, `open_session` its branch for a free or expired slot,
-- `rewrite_transport` its end, `read_session` the retry loop of `process_inbound`; those of the
-- echo messages are named alike.
--
-- Each member function of the NAT engine runs as one step, and so does each part of the shaper under
-- its lock. The loop of a reader takes any observations of a session; the engine's own reader sees
-- the session as it stands. Doubles are a parameter, `Float`, with the laws of IEEE 754 that the
-- token bucket needs. The clock and the kernel's answers to `send` are arguments. A hardware address
-- is one number, its first byte the least, and a point in time is a number.
--
-- Loops: the probes have the source's 32 rounds, the allocation of identifiers its 512 and the reader
-- its 8. `process_queue` has one round more than the queue has packets, which is enough: a round that
-- goes on takes a packet out. The DHCP option loop has one round more than the message has bytes left,
-- since a round moves on by a byte or more, and the background task its budget of 32 requests.
--
-- A packet goes through `Pipeline.run_steps`, which calls the engines as the steps do; a worker's
-- processing thread takes it off the queue that its receive thread fills. The threads are step relations:
-- one step is one call that another thread can see, and what the kernel, the clock and the settings
-- answer may differ from step to step. What a reached state has of the past (`received`, `refused`,
-- `processed`) is kept beside the state. The threads of the control plane share the engines among
-- themselves; they and the workers are each taken with nobody else at the engines.
--
-- `Worker.Shutdown` and `Control.Shutdown` tell the steps that a thread makes of its own accord from those
-- where the kernel interrupts or fails a call, which the program cannot count on.
--
-- Not modelled: the opening and closing of file descriptors, the configuration's device registry, what
-- the telemetry thread reads from the system, the self test, the memory-mapped ring of the raw socket,
-- and the dashboard, which are I/O or stand apart from the packets' way.
pub mod Common
pub mod Net
pub mod NatEngine
pub mod RingBuffer
pub mod Scheduler
pub mod DhcpEngine
pub mod Forwarding
pub mod Network
pub mod Processor
pub mod Telemetry
pub mod Pipeline
pub mod Worker
pub mod Control
pub mod Config
pub mod Lifecycle
pub mod Tests
