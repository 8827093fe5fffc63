-- ===== src/Broker.antt =====
-- broker/broker.c: the broker that is a mote itself and runs SBVK.c on every datagram.
pub mod Aliases
use embedded_project_exam.Base.{ℕ, Option, some, List, [], ◌∷◌, ◌>>=◌}
use embedded_project_exam.Protocol.Wire.{Layout, decode}
use embedded_project_exam.Topics.{Frame}
use embedded_project_exam.Device.{Device}
use embedded_project_exam.Device.Handle.{handle_message}

-- udp_rx_callback: the bytes are read as a packet and handled. `c` stands for `&udp_conn`.
unfoldable pub udp_rx_callback : Layout → ℕ → ℕ → List ℕ → Frame → Device → Option Device
udp_rx_callback layout c sender_addr payload f s = do
  p ← decode layout payload
  handle_message p c sender_addr f s

-- A datagram as the network delivers it, and the frame in which it is handled.
pub record Arrival : Type 0 where
  pub sender : ℕ
  pub bytes : List ℕ
  pub frame : Frame

-- The datagrams of a run, in order.
unfoldable pub run : Layout → ℕ → List Arrival → Device → Option Device
run layout c [] s = some s
run layout c (a ∷ arrivals) s = do
  s' ← udp_rx_callback layout c a.sender a.bytes a.frame s
  run layout c arrivals s'
