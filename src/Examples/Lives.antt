-- ===== src/Examples/Lives.antt =====
-- The lives of the motes of Sensors/ at concrete ones.
use embedded_project_exam.Base.{ℕ, refl, Bool, true, false, List, [], ◌∷◌, arith, codes}
use embedded_project_exam.CString.{text}
use embedded_project_exam.CString.Numbers.{read_number, read_digits}
use embedded_project_exam.Protocol.{Packet, of_code}
use embedded_project_exam.Protocol.Wire.{encode}
use embedded_project_exam.Protocol.Wire.Laws.{decode-encode}
use embedded_project_exam.Device.Accepts.{Fits}
use embedded_project_exam.Sensor.Light.{Light}
use embedded_project_exam.Sensor.Washer.{Washer}
use embedded_project_exam.Sensor.Receives.{IsAny}
use embedded_project_exam.Sensor.Life.{Happening, live_all, IsUsual, AllUsual, Blank}
use embedded_project_exam.Sensor.Life.Steady.{Steady}
use embedded_project_exam.Sensor.Life.Laws.{GoesOn}
use embedded_project_exam.Sensor.Life.Lamp.{the_lamp, Dark, live_all-Dark}
use embedded_project_exam.Sensor.Life.Switching.{Known, live_all-listen}
use embedded_project_exam.Sensor.Life.Hears.{listen, IsThere}
use embedded_project_exam.Sensor.{light_on, light_off, alarm_on}
use embedded_project_exam.Sensor.Life.Washing.{the_washer, Still, live_all-Still}
use embedded_project_exam.Sensor.Life.Measuring.{the_gas_sensor, Measuring, live_all-Measuring}
use embedded_project_exam.Sensor.Life.Ringing.{the_alarm, IsInt, Watched, live_all-ring}
use embedded_project_exam.Examples.{z1, padding, z1-Fills, packet, mote, elsewhere}
use embedded_project_exam.Examples.Motes.{mote-Ready}
use embedded_project_exam.Examples.Events.{mote-Sound}
use embedded_project_exam.Examples.Sensors.{a_gas, an_alarm}

mote-Steady : (P : List ℕ → Type 0) (b : Bool) → Steady P (record mote { connected = b })
mote-Steady P b = record {
  ready = record { clean = mote-Ready.clean; named = mote-Ready.named };
  informed = λ a e. absurd (cc);
  sound = record {
    covered = mote-Sound.covered;
    pings = mote-Sound.pings;
    slots = mote-Sound.slots;
    wide = mote-Sound.wide;
    sized = mote-Sound.sized;
    resends = mote-Sound.resends;
    sends = mote-Sound.sends;
  };
}

-- A mote greets its server, takes a push, pings, and its timers expire.
abbrev life : List ℕ → List ℕ → List Happening
life o v =
    Happening.timer true 5
    ∷ Happening.arrives (encode padding (packet 12 1 o v)) 5 elsewhere (packet 12 1 o v) o v
    ∷ Happening.timer false 5
    ∷ Happening.ack_timer
    ∷ Happening.ping_timer
    ∷ Happening.timer true 5
    ∷ []

-- Only the datagram has something to show.
life-AllUsual :
    (P : List ℕ → Type 0) (o v : List ℕ)
    → IsUsual P z1
        (Happening.arrives (encode padding (packet 12 1 o v)) 5 elsewhere (packet 12 1 o v) o v)
    → AllUsual P z1 (life o v)
life-AllUsual P o v u = (tt, (u, (tt, (tt, (tt, (tt, tt))))))

-- The push of a broker on ON.
abbrev on : Packet
on = packet 12 1 (codes "Light") (codes "    ON")

on-Fits : Fits on (codes "Light") (codes "    ON")
unfolding text
on-Fits = record {
  option_text = refl;
  payload_text = refl;
  option_fits = omega arith;
  payload_fits = omega arith;
}

abbrev a_lamp : Light
a_lamp = record { device = mote; log = [] }

live_all-Dark_example :
    GoesOn (Dark []) (live_all the_lamp z1 1 (life (codes "Light") (codes "    ON")) a_lamp)
live_all-Dark_example =
    live_all-Dark z1 1 [] (life (codes "Light") (codes "    ON")) a_lamp
      (life-AllUsual Blank (codes "Light") (codes "    ON")
        (decode-encode z1 padding on z1-Fills (omega arith), on-Fits, refl, refl))
      (refl, mote-Steady Blank false)

-- The push of a broker on START.
abbrev start : Packet
start = packet 12 1 (codes "WAMA/command") (codes "  START")

start-Fits : Fits start (codes "WAMA/command") (codes "  START")
unfolding text
start-Fits = record {
  option_text = refl;
  payload_text = refl;
  option_fits = omega arith;
  payload_fits = omega arith;
}

abbrev an_idle_washer : Washer
an_idle_washer = record { device = mote; wama_timer = 0; wama_timer_s = []; log = [] }

live_all-Still_example :
    GoesOn
      (Still [])
      (live_all the_washer z1 1 (life (codes "WAMA/command") (codes "  START")) an_idle_washer)
live_all-Still_example =
    live_all-Still z1 1 [] (life (codes "WAMA/command") (codes "  START")) an_idle_washer
      (life-AllUsual Blank (codes "WAMA/command") (codes "  START")
        (decode-encode z1 padding start z1-Fills (omega arith), start-Fits, refl, refl))
      (refl, refl, mote-Steady Blank false)

live_all-Measuring_example :
    GoesOn Measuring (live_all the_gas_sensor z1 1 (life (codes "Light") (codes "    ON")) a_gas)
live_all-Measuring_example =
    live_all-Measuring z1 1 (life (codes "Light") (codes "    ON")) a_gas
      (life-AllUsual IsAny (codes "Light") (codes "    ON")
        (decode-encode z1 padding on z1-Fills (omega arith), on-Fits, tt, refl))
      (omega arith, omega arith, mote-Steady IsAny true)

-- A value of the gas sensor, and a PINGRESP with the next.
abbrev high : Packet
high = packet 12 1 (codes "GAS") (codes "    12")

high-Fits : Fits high (codes "GAS") (codes "    12")
unfolding text
high-Fits = record {
  option_text = refl;
  payload_text = refl;
  option_fits = omega arith;
  payload_fits = omega arith;
}

abbrev higher : Packet
higher = packet 11 0 [] (codes "13")

higher-Fits : Fits higher [] (codes "13")
unfolding text
higher-Fits = record {
  option_text = refl;
  payload_text = refl;
  option_fits = omega arith;
  payload_fits = omega arith;
}

-- The PINGRESP rings only after the PUSH.
abbrev ringing : List Happening
ringing =
    Happening.arrives (encode padding higher) 5 elsewhere higher [] (codes "13")
    ∷ Happening.timer true 5
    ∷ Happening.arrives (encode padding high) 5 elsewhere high (codes "GAS") (codes "    12")
    ∷ Happening.ack_timer
    ∷ Happening.arrives (encode padding higher) 5 elsewhere higher [] (codes "13")
    ∷ []

live_all-ring_example :
    GoesOn
      (Watched 200 (record { heard = true; log = alarm_on ∷ alarm_on ∷ [] }))
      (live_all the_alarm z1 1 ringing an_alarm)
unfolding listen of_code read_number read_digits
live_all-ring_example =
    live_all-ring z1 1 200 ringing (record { heard = false; log = [] }) an_alarm
      (
        higher_there,
        (
          tt,
          (
            (
              (decode-encode z1 padding high z1-Fills (omega arith), high-Fits, omega arith, refl),
              refl,
            ),
            (tt, (higher_there, tt)),
          ),
        ),
      )
      (refl, refl, mote-Steady IsInt false)
  where
    higher_there :
        IsThere IsInt 200 z1
          (Happening.arrives (encode padding higher) 5 elsewhere higher [] (codes "13"))
    higher_there = (
      (decode-encode z1 padding higher z1-Fills (omega arith), higher-Fits, omega arith, refl),
      refl,
    )

-- ON as it stands, which createPacket makes of no text.
abbrev bare_on : Packet
bare_on = packet 12 0 (codes "Light") (codes "ON")

bare_on-Fits : Fits bare_on (codes "Light") (codes "ON")
unfolding text
bare_on-Fits = record {
  option_text = refl;
  payload_text = refl;
  option_fits = omega arith;
  payload_fits = omega arith;
}

-- A PINGRESP whose payload is OFF.
abbrev bare_off : Packet
bare_off = packet 11 0 [] (codes "OFF")

bare_off-Fits : Fits bare_off [] (codes "OFF")
unfolding text
bare_off-Fits = record {
  option_text = refl;
  payload_text = refl;
  option_fits = omega arith;
  payload_fits = omega arith;
}

-- The second OFF switches the lamp, the first does not.
abbrev switching : List Happening
switching =
    Happening.arrives (encode padding bare_off) 5 elsewhere bare_off [] (codes "OFF")
    ∷ Happening.timer true 5
    ∷ Happening.arrives (encode padding bare_on) 5 elsewhere bare_on (codes "Light") (codes "ON")
    ∷ Happening.ping_timer
    ∷ Happening.arrives (encode padding bare_off) 5 elsewhere bare_off [] (codes "OFF")
    ∷ []

live_all-listen_example :
    GoesOn
      (Known 200 (record { heard = true; log = light_off ∷ light_on ∷ [] }))
      (live_all the_lamp z1 1 switching a_lamp)
unfolding listen of_code
live_all-listen_example =
    live_all-listen z1 1 200 switching (record { heard = false; log = [] }) a_lamp
      (
        off_there,
        (
          tt,
          (
            (
              (decode-encode z1 padding bare_on z1-Fills (omega arith), bare_on-Fits, tt, refl),
              refl,
            ),
            (tt, (off_there, tt)),
          ),
        ),
      )
      (refl, refl, mote-Steady _ false)
  where
    off_there :
        IsThere IsAny 200 z1
          (Happening.arrives (encode padding bare_off) 5 elsewhere bare_off [] (codes "OFF"))
    off_there =
        ((decode-encode z1 padding bare_off z1-Fills (omega arith), bare_off-Fits, tt, refl), refl)
