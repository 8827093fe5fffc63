-- ===== src/Examples/Sensors.antt =====
-- Sensors at work: the theorems on the motes' main files at concrete values.
use embedded_project_exam.Base.{ℕ, ◌≡◌, refl, true, some, List, [], ◌++◌, arith, replicate, codes}
use embedded_project_exam.CString.{text}
use embedded_project_exam.Protocol.{Packet}
use embedded_project_exam.Protocol.Create.Laws.{Carries}
use embedded_project_exam.Protocol.Wire.{encode}
use embedded_project_exam.Device.Processes.{start_ping_thread}
use embedded_project_exam.Device.Sends.{sent_by}
use embedded_project_exam.Sensor.Light.{Light}
use embedded_project_exam.Sensor.Alarm.{Alarm}
use embedded_project_exam.Sensor.Gas.{Gas}
use embedded_project_exam.Sensor.Washer.{Washer, washer_callback, washer_timer}
use embedded_project_exam.Sensor.Receives.{Listens}
use embedded_project_exam.Sensor.Cycle.{Measures, gas_timers, gas_timers-cycle}
use embedded_project_exam.Sensor.Washes.{washer_callback-timer_after, washer_timer-once}
use embedded_project_exam.System.Handshake.{Handshake, hello-Handshake}
use embedded_project_exam.System.ServerAnswers.{Machines}
use embedded_project_exam.System.ServerHandshake.{ServerHandshake, hello-ServerHandshake}
use embedded_project_exam.Examples.{
  server, clean-Holds, z1, x86, padding, x86_padding, z1-Fills, x86-Fills, packet, mote, frame,
  elsewhere,
}
use embedded_project_exam.Examples.Motes.{mote-IsClean, mote-Ready}

pub mote-Listens : Listens mote
mote-Listens = record { ready = mote-Ready; informed = λ a e. absurd (cc) }

abbrev a_lamp : Light
a_lamp = record { device = mote; log = [] }

-- A push whose payload is ON and nothing else.
abbrev bare : Packet
bare = packet 12 0 (codes "Light") (codes "ON")

-- What a broker pushes on a value.
abbrev pushed : List ℕ → List ℕ → Packet
pushed o v = packet 12 1 o (codes "  " ++ v)

on-Carries :
    Carries
      (pushed (codes "Light") (codes "  ON"))
      12
      1
      (codes "Light")
      (codes "  " ++ codes "  ON")
unfolding text
on-Carries = record {
  mst_eq = refl;
  rel_eq = refl;
  option_stored = record { size = refl; content = refl };
  payload_stored = record { size = refl; content = refl };
}

abbrev pub an_alarm : Alarm
an_alarm = record { device = mote; log = [] }

-- A gas sensor that has just started.
abbrev pub a_gas : Gas
a_gas = record { device = record mote { connected = true }; gas_value = 0; value = replicate 8 0 }

pub a_gas-Measures : Measures a_gas
a_gas-Measures = record {
  clean = mote-IsClean;
  connected = refl;
  room = omega arith;
  small = omega arith;
}

gas_timers-cycle_example :
    (t : Gas) × (gas_timers 14 1 5 a_gas ≡ some t) × (t.gas_value ≡ 1) × Measures t
gas_timers-cycle_example = gas_timers-cycle 13 1 5 a_gas a_gas-Measures refl

-- A washing machine whose cycle has just started.
abbrev a_washer : Washer
a_washer = record {
  device = record mote { connected = true };
  wama_timer = 1;
  wama_timer_s = replicate 8 0;
  log = [];
}

abbrev stop : Packet
stop = packet 12 1 (codes "WAMA/command") (codes "STOP")

washer_callback-timer_after_example :
    (t : Washer) × (washer_callback z1 1 5 (encode padding stop) elsewhere a_washer ≡ some t)
    × (t.wama_timer ≡ 0)
    × Listens t.device
unfolding text
washer_callback-timer_after_example =
    washer_callback-timer_after z1 padding 1 5 1 elsewhere stop (codes "WAMA/command")
      (codes "STOP") a_washer z1-Fills (omega arith)
      (record {
        mst_eq = refl;
        rel_eq = refl;
        option_stored = record { size = refl; content = refl };
        payload_stored = record { size = refl; content = refl };
      })
      (omega arith) (omega arith)
      (record {
        ready = record { clean = mote-IsClean; named = mote-Ready.named };
        informed = λ a e. absurd (cc);
      })

washer_timer-once_example :
    (p : Packet) × (t u : Washer) × (washer_timer true 1 5 a_washer ≡ some t)
    × Carries p 1 1 (codes "WAMA/info") (codes "  1")
    × (t.device ≡ sent_by p 1 5 (start_ping_thread 1 5 a_washer.device))
    × (washer_timer true 1 5 t ≡ some u)
    × (u.device.sent ≡ t.device.sent)
    × (u.wama_timer ≡ 0)
washer_timer-once_example =
    washer_timer-once 1 5 a_washer
      (record { clean = mote-IsClean; connected = refl; room = omega arith }) refl

hello-Handshake_example : Handshake z1 padding 1 8 5 elsewhere frame mote mote
hello-Handshake_example =
    hello-Handshake z1 padding 1 z1-Fills 8 5 elsewhere frame mote mote mote-IsClean mote-IsClean

abbrev machines : Machines
machines = record {
  mote_layout = z1;
  host_layout = x86;
  mote_padding = padding;
  host_padding = x86_padding;
  mote_fills = z1-Fills;
  host_fills = x86-Fills;
  smaller = omega arith;
  fits = omega arith;
}

hello-ServerHandshake_example : ServerHandshake machines 1 8 5 elsewhere frame mote server
hello-ServerHandshake_example =
    hello-ServerHandshake machines 1 8 5 elsewhere frame mote server mote-IsClean (λ n. clean-Holds)
      (record { going = refl; listens = refl; buffer_size = refl })
