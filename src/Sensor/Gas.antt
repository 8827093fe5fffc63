-- ===== src/Sensor/Gas.antt =====
-- Sensors/gas_sensor/sensor.c
use embedded_project_exam.Base.{
  ℕ, ◌+◌, Bool, true, not, Option, some, List, leb, if◌then◌else◌, ◌>>=◌,
}
use embedded_project_exam.CString.{lit}
use embedded_project_exam.CString.Numbers.{sprintf_d}
use embedded_project_exam.Protocol.Wire.{Layout}
use embedded_project_exam.Topics.{Frame}
use embedded_project_exam.Device.{Device, is_connected}
use embedded_project_exam.Device.Messages.{hello, publish}
use embedded_project_exam.Device.Processes.{start_ping_thread}
use embedded_project_exam.Sensor.{receive}

-- The mote; `gas_value`; and the bytes where `value` points. The pointer is never set, so what lies
-- there, and whether it can be written, is up to the machine.
pub record Gas : Type 0 where
  pub device : Device
  pub gas_value : ℕ
  pub value : List ℕ

-- udp_rx_callback
unfoldable pub gas_callback : Layout → ℕ → ℕ → List ℕ → Frame → Gas → Option Gas
unfolding receive
gas_callback layout c sender_addr payload f s = do
  device' ← receive layout c sender_addr payload f s.device
  some (record s { device = device' })

-- The next value.
unfoldable pub next_value : ℕ → ℕ
next_value g = (if leb 13 g then 0 else g) + 1

-- The value is printed and published reliably.
unfoldable pub publish_value : ℕ → ℕ → Gas → Option Gas
unfolding next_value
publish_value c dest_ipaddr s = do
  let n = next_value s.gas_value
  printed ← sprintf_d s.value n
  device' ←
      publish c dest_ipaddr true (lit "GAS") printed (start_ping_thread c dest_ipaddr s.device)
  some (record { device = device'; gas_value = n; value = printed })

-- udp_client_process at an expiry of its timer; `reachable` is whether there is a route to the root.
unfoldable pub gas_timer : Bool → ℕ → ℕ → Gas → Option Gas
unfolding publish_value
gas_timer reachable c dest_ipaddr s =
    if not reachable
    then some s
    else if not (is_connected s.device)
    then (hello c dest_ipaddr true s.device >>= λ d. some (record s { device = d }))
    else publish_value c dest_ipaddr s
