-- ===== src/System/Reading.antt =====
-- One value on its way: the gas sensor (Sensors/gas_sensor/sensor.c) publishes it, the broker (broker/broker.c)
-- acknowledges it and pushes it on, and the alarm (Sensors/alarm/sensor.c) reads it.
use embedded_project_exam.Base.{
  ℕ, ◌≡◌, ◌≤◌, ◌+◌, ◌%◌, subst, refl, inl, true, some, List, [], ◌++◌, arith, take, codes, IsIn,
}
use embedded_project_exam.CString.Numbers.{decimal}
use embedded_project_exam.CString.Decimal.{length-decimal}
use embedded_project_exam.Protocol.{Packet}
use embedded_project_exam.Protocol.Create.Laws.{Carries}
use embedded_project_exam.Protocol.Wire.{Layout, Padding, encode}
use embedded_project_exam.Protocol.Wire.Laws.{Fills}
use embedded_project_exam.Topics.{Frame}
use embedded_project_exam.Topics.Spec.{AllPointAt, everyone}
use embedded_project_exam.Device.{Device}
use embedded_project_exam.Device.Processes.{start_ping_thread}
use embedded_project_exam.Device.Accepts.{Ready}
use embedded_project_exam.Device.Fanout.{sent_by-sent}
use embedded_project_exam.Broker.{udp_rx_callback}
use embedded_project_exam.Sensor.Gas.{Gas, gas_timer, gas_callback, next_value}
use embedded_project_exam.Sensor.Alarm.{Alarm, alarm_callback}
use embedded_project_exam.Sensor.Receives.{Listens}
use embedded_project_exam.Sensor.Threshold.{bell, alarm_callback-bell}
use embedded_project_exam.Sensor.Cycle.{Measures, gas_timer-Published}
use embedded_project_exam.System.Deliveries.{
  datagram, udp_rx_callback-Relays, publish_waits, mote_acknowledged,
}

-- The values go round from 1 to 13.
abbrev pub reading_after : ℕ → ℕ
reading_after g = g % 13 + 1

next_value-reading_after : (g : ℕ) → g ≤ 13 → next_value g ≡ reading_after g
unfolding next_value
next_value-reading_after g h = ground arith

-- The packets of a reading and the states that it leads to. The three run handleMessage in frames `fg`, `fb`
-- and `fa`.
pub record Reading (layout : Layout) (pad : Padding) (c gas_addr broker_addr alarm_addr : ℕ)
    (fg fb fa : Frame) (g : Gas) (b : Device) (a : Alarm) : Type 0 where
  pub published : Packet
  pub puback : Packet
  pub pushed : Packet
  pub g1 : Gas
  pub g2 : Gas
  pub b1 : Device
  pub a1 : Alarm
  pub published_carries :
      Carries published 1 1 (codes "GAS") (codes "  " ++ decimal (reading_after g.gas_value))
  pub puback_carries : Carries puback 2 0 [] (codes "  ")
  pub pushed_carries :
      Carries pushed 12 1 (codes "GAS") (codes "    " ++ decimal (reading_after g.gas_value))
  pub measures : gas_timer true c broker_addr g ≡ some g1
  pub publish_sent : IsIn (datagram c published broker_addr) g1.device.sent
  pub handles : udp_rx_callback layout c gas_addr (encode pad published) fb b ≡ some b1
  pub puback_sent : IsIn (datagram c puback gas_addr) b1.sent
  pub push_sent : IsIn (datagram c pushed alarm_addr) b1.sent
  pub acknowledges : gas_callback layout c broker_addr (encode pad puback) fg g1 ≡ some g2
  pub acknowledged : g2.device.ack_rcv ≡ true
  pub takes : alarm_callback layout c broker_addr (encode pad pushed) fa a ≡ some a1
  pub rings : a1.log ≡ bell (reading_after g.gas_value) ++ a.log

module _ (layout : Layout) (pad : Padding) (c : ℕ) (fills : Fills layout pad) where
  gas_acknowledged :
      (q : Packet) (o v : List ℕ) (addr : ℕ) (f : Frame) (g : Gas)
      → Carries q 2 0 o v
      → g.device.ack_type_wanted ≡ 2
      → (t : Gas) × (gas_callback layout c addr (encode pad q) f g ≡ some t)
        × (t.device.ack_rcv ≡ true)
  unfolding gas_callback
  gas_acknowledged q o v addr f g car wanted =
      let (d, run, over, _) =
        mote_acknowledged layout pad c fills q o v addr f g.device car wanted in
      (record g { device = d }, rw run refl, over)

  -- At its timer a connected gas sensor (an empty modifPayload at every call, room for three bytes
  -- at `value`, value g at most 13) sends a reliable PUBLISH on GAS with n = g modulo 13 plus 1 in
  -- decimal behind two spaces to a broker/broker.c in a state as handleMessage needs it, with all
  -- names pointing at its frame; the broker sends a PUBACK to the sensor and, to an alarm at any
  -- address of the slots in use among the first two, a reliable PUSH on GAS with n behind four
  -- spaces; the PUBACK ends the sensor's wait; and an alarm fit to take a message, on the PUSH to
  -- it, goes off exactly if n is 10 or more, as the code tests it. All three lay out the struct
  -- alike, and nothing faults, the second slot taken as storage of the broker's.
  pub gas_timer-Reading :
      (gas_addr broker_addr alarm_addr : ℕ) (fg fb fa : Frame) (g : Gas) (b : Device) (a : Alarm)
      → Measures g
      → Ready b
      → AllPointAt fb.at b.topics
      → IsIn alarm_addr (everyone (take 2 b.topics))
      → Listens a.device
      → Reading layout pad c gas_addr broker_addr alarm_addr fg fb fa g b a
  gas_timer-Reading gas_addr broker_addr alarm_addr fg fb fa g b a hg hb alias there ha =
      let n = reading_after g.gas_value in
      let next = next_value-reading_after g.gas_value hg.small in
      let short = length-decimal n (omega arith) in
      let (g1, timed, (p, printed, dev, _), _) = gas_timer-Published c broker_addr g hg in
      let car : Carries p 1 1 (codes "GAS") (codes "  " ++ decimal n) =
        subst (λ (m : ℕ). Carries p 1 1 (codes "GAS") (codes "  " ++ decimal m)) next printed in
      let u = start_ping_thread c broker_addr g.device in
      let (b1, handled, ((q, carq, qsent), (r, carr, rsent))) =
        udp_rx_callback-Relays layout pad c fills p (codes "GAS") (codes "  " ++ decimal n) gas_addr
          alarm_addr fb b car (omega arith) (omega arith) hb alias there in
      let (g2, heard, over) = gas_acknowledged q [] (codes "  ") broker_addr fg g1 carq (
        rw dev (
          publish_waits layout pad c fills p (codes "GAS") (codes "  " ++ decimal n) broker_addr u
            car)) in
      let (a1, taken, rung, _) =
        alarm_callback-bell layout pad c broker_addr 1 4 n fa r (codes "GAS") a fills (omega arith)
          carr (omega arith) (omega arith) (omega arith) ha in
      record {
        published = p;
        puback = q;
        pushed = r;
        g1 = g1;
        g2 = g2;
        b1 = b1;
        a1 = a1;
        published_carries = car;
        puback_carries = carq;
        pushed_carries = carr;
        measures = timed;
        publish_sent = rw dev (rw (sent_by-sent p c broker_addr u) (inl refl));
        handles = handled;
        puback_sent = qsent;
        push_sent = rsent;
        acknowledges = heard;
        acknowledged = over;
        takes = taken;
        rings = rung;
      }
