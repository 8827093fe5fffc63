-- ===== src/Sensor/Washer.antt =====
-- Sensors/washing_machine/sensor.c
use embedded_project_exam.Base.{
  ℕ, ◌-◌, Bool, true, not, Option, none, some, List, ◌∷◌, ◌==◌, if◌then◌else◌, ◌>>=◌,
}
use embedded_project_exam.CString.{lit, strcmp}
use embedded_project_exam.CString.Numbers.{sprintf_d}
use embedded_project_exam.Protocol.Wire.{Layout}
use embedded_project_exam.Topics.{Frame}
use embedded_project_exam.Device.{Device, is_connected}
use embedded_project_exam.Device.Messages.{publish}
use embedded_project_exam.Device.Processes.{start_ping_thread}
use embedded_project_exam.Sensor.{
  Reaction, cycle_started, cycle_stopped, receive, pushed_text, announce,
}

-- The mote; `WAMA_timer`; the bytes where `WAMA_timerS` points, which is never set; and what the mote
-- did, newest first.
pub record Washer : Type 0 where
  pub device : Device
  pub wama_timer : ℕ
  pub wama_timer_s : List ℕ
  pub log : List Reaction

-- WAMA_timer is a bool: any number but 0 is stored as 1.
abbrev pub to_bool : ℕ → ℕ
to_bool n = if n == 0 then 0 else 1

-- START, and then STOP.
unfoldable pub obey : List ℕ → Washer → Option Washer
obey info s = do
  start ← strcmp info (lit "START")
  let t = if start then record s { wama_timer = to_bool 20; log = cycle_started ∷ s.log } else s
  stop ← strcmp info (lit "STOP")
  some (if stop then record t { wama_timer = to_bool 0; log = cycle_stopped ∷ t.log } else t)

-- What the callback does with the result of getPushedINFO.
abbrev pub answer_washer : Option (List ℕ) → Washer → Option Washer
answer_washer none s = some s
answer_washer (some info) s = obey info s

-- udp_rx_callback
unfoldable pub washer_callback : Layout → ℕ → ℕ → List ℕ → Frame → Washer → Option Washer
unfolding receive pushed_text obey
washer_callback layout c sender_addr payload f s = do
  device' ← receive layout c sender_addr payload f s.device
  answer_washer (pushed_text device') (record s { device = device' })

-- What a connected mote does while its cycle runs.
unfoldable pub report : ℕ → ℕ → Washer → Option Washer
report c dest_ipaddr s = do
  printed ← sprintf_d s.wama_timer_s s.wama_timer
  device' ← publish c dest_ipaddr true (lit "WAMA/info") printed s.device
  some (record s {
    device = device';
    wama_timer_s = printed;
    wama_timer = to_bool (s.wama_timer - 1);
  })

-- udp_client_process at an expiry of its timer; `reachable` is whether there is a route to the root.
unfoldable pub washer_timer : Bool → ℕ → ℕ → Washer → Option Washer
unfolding announce report
washer_timer reachable c dest_ipaddr s =
    if not reachable
    then some s
    else if not (is_connected s.device)
    then (announce c dest_ipaddr (lit "WAMA/command") s.device >>= λ d.
        some (record s { device = d }))
    else (let t = record s { device = start_ping_thread c dest_ipaddr s.device } in
        if t.wama_timer == 0 then some t else report c dest_ipaddr t)
