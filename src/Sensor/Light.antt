-- ===== src/Sensor/Light.antt =====
-- Sensors/light/sensor.c
use embedded_project_exam.Base.{
  ℕ, Bool, false, not, Option, none, some, List, [], ◌∷◌, ◌++◌, if◌then◌else◌, ◌>>=◌,
}
use embedded_project_exam.CString.{lit, strcmp}
use embedded_project_exam.Protocol.Wire.{Layout}
use embedded_project_exam.Topics.{Frame}
use embedded_project_exam.Device.{Device, is_connected}
use embedded_project_exam.Device.Processes.{start_ping_thread}
use embedded_project_exam.Sensor.{Reaction, light_on, light_off, receive, pushed_text, announce}

-- The mote and what it did, newest first.
pub record Light : Type 0 where
  pub device : Device
  pub log : List Reaction

-- ON or OFF.
unfoldable pub switch_light : List ℕ → Option (List Reaction)
switch_light info = do
  on ← strcmp info (lit "ON")
  off ← (if on then some false else strcmp info (lit "OFF"))
  some (if on then light_on ∷ [] else if off then light_off ∷ [] else [])

-- What the callback does with the result of getPushedINFO.
abbrev pub answer_light : Option (List ℕ) → Option (List Reaction)
answer_light none = some []
answer_light (some info) = switch_light info

-- udp_rx_callback
unfoldable pub light_callback : Layout → ℕ → ℕ → List ℕ → Frame → Light → Option Light
unfolding receive pushed_text switch_light
light_callback layout c sender_addr payload f s = do
  device' ← receive layout c sender_addr payload f s.device
  done ← answer_light (pushed_text device')
  some (record { device = device'; log = done ++ s.log })

-- udp_client_process at an expiry of its timer; `reachable` is whether there is a route to the root.
unfoldable pub light_timer : Bool → ℕ → ℕ → Light → Option Light
unfolding announce
light_timer reachable c dest_ipaddr s =
    if not reachable
    then some s
    else if not (is_connected s.device)
    then (announce c dest_ipaddr (lit "Light") s.device >>= λ d. some (record s { device = d }))
    else some (record s { device = start_ping_thread c dest_ipaddr s.device })
