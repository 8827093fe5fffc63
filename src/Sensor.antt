-- ===== src/Sensor.antt =====
-- Sensors/: what the four motes' main files have in common. `c` stands for `&udp_conn`.
pub mod Light
pub mod Alarm
pub mod Gas
pub mod Washer
pub mod Receives
pub mod Lamp
pub mod Threshold
pub mod Cycle
pub mod Washes
pub mod Life
use embedded_project_exam.Base.{ℕ, Bool, true, false, Option, none, some, List, ◌>>=◌}
use embedded_project_exam.Protocol.Wire.{Layout, decode}
use embedded_project_exam.Topics.{Frame}
use embedded_project_exam.Device.{Device, get_pushed_info}
use embedded_project_exam.Device.Messages.{hello, subscribe}
use embedded_project_exam.Device.Processes.{start_ping_thread}
use embedded_project_exam.Device.Handle.{handle_message}

-- What a mote does in answer to a message; in the code a line in its log.
pub data Reaction : Type 0 where
  light_on light_off alarm_on cycle_started cycle_stopped : Reaction

-- The start of each udp_rx_callback: pings to the sender, and handleMessage on the bytes as a packet.
unfoldable pub receive : Layout → ℕ → ℕ → List ℕ → Frame → Device → Option Device
receive layout c sender_addr payload f s = do
  p ← decode layout payload
  handle_message p c sender_addr f (start_ping_thread c sender_addr s)

-- The array that the result of getPushedINFO points at, unless it is NULL. The call leaves the globals as
-- they are, since it sets `fresh` to 1 where it is 1 already.
unfoldable pub pushed_text : Device → Option (List ℕ)
unfolding get_pushed_info
pushed_text s = elim (get_pushed_info s).0 [ none ↦ none | some a ↦ some (s.memory a).payload ]

-- hello and subscribe, as a mote that is not connected does at its timer.
unfoldable pub announce : ℕ → ℕ → List ℕ → Device → Option Device
announce c dest_ipaddr topicname s =
    hello c dest_ipaddr true s >>= subscribe c dest_ipaddr topicname
