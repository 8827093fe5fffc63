-- ===== src/Sensor/Alarm.antt =====
-- Sensors/alarm/sensor.c
use embedded_project_exam.Base.{
  ℕ, Bool, not, ◌&&◌, Option, none, some, List, [], ◌∷◌, ◌++◌, leb, if◌then◌else◌, ◌>>=◌,
}
use embedded_project_exam.CString.{lit}
use embedded_project_exam.CString.Numbers.{atoi}
use embedded_project_exam.Protocol.Wire.{Layout}
use embedded_project_exam.Topics.{Frame}
use embedded_project_exam.Device.{Device, is_connected}
use embedded_project_exam.Device.Processes.{start_ping_thread}
use embedded_project_exam.Sensor.{Reaction, alarm_on, receive, pushed_text, announce}

-- The mote and what it did, newest first.
pub record Alarm : Type 0 where
  pub device : Device
  pub log : List Reaction

-- A value of ten or more.
unfoldable pub check_value : List ℕ → Option (List Reaction)
check_value info = do
  (negative, value) ← atoi info
  some (if not negative && leb 10 value then alarm_on ∷ [] else [])

-- What the callback does with the result of getPushedINFO.
abbrev pub answer_alarm : Option (List ℕ) → Option (List Reaction)
answer_alarm none = some []
answer_alarm (some info) = check_value info

-- udp_rx_callback
unfoldable pub alarm_callback : Layout → ℕ → ℕ → List ℕ → Frame → Alarm → Option Alarm
unfolding receive pushed_text check_value
alarm_callback layout c sender_addr payload f s = do
  device' ← receive layout c sender_addr payload f s.device
  done ← answer_alarm (pushed_text device')
  some (record { device = device'; log = done ++ s.log })

-- udp_client_process at an expiry of its timer; `reachable` is whether there is a route to the root.
unfoldable pub alarm_timer : Bool → ℕ → ℕ → Alarm → Option Alarm
unfolding announce
alarm_timer reachable c dest_ipaddr s =
    if not reachable
    then some s
    else if not (is_connected s.device)
    then (announce c dest_ipaddr (lit "GAS") s.device >>= λ d. some (record s { device = d }))
    else some (record s { device = start_ping_thread c dest_ipaddr s.device })
