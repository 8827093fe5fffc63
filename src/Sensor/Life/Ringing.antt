-- ===== src/Sensor/Life/Ringing.antt =====
-- When the alarm of Sensors/alarm/sensor.c goes off in its life, by the packets alone, where all lie in one stack frame.
use embedded_project_exam.Base.{
  ℕ, ◌≡◌, ◌≤◌, refl, ◌∙◌, ap, Bool, true, false, not, some, List, [], ◌∷◌, ◌++◌, ◌||◌, ◌&&◌, arith,
  leb, if◌then◌else◌, Bool-cases, inl, inr, ◌>>=◌, codes,
}
use embedded_project_exam.CString.{lit, text}
use embedded_project_exam.CString.Numbers.{read_number, atoi, int_max}
use embedded_project_exam.Protocol.{Packet}
use embedded_project_exam.Protocol.Wire.{Layout}
use embedded_project_exam.Topics.{Frame}
use embedded_project_exam.Device.Processes.{start_ping_thread}
use embedded_project_exam.Sensor.{Reaction, alarm_on, announce}
use embedded_project_exam.Sensor.Alarm.{
  Alarm, check_value, answer_alarm, alarm_callback, alarm_timer,
}
use embedded_project_exam.Sensor.Life.{Happening, arrives, Program, live_all, All, hear_all}
use embedded_project_exam.Sensor.Life.Steady.{
  Steady, start_ping_thread-Steady, receive-StaysSteady, announce-StaysSteady,
}
use embedded_project_exam.Sensor.Life.Untouched.{start_ping_thread-Untouched, announce-Untouched}
use embedded_project_exam.Sensor.Life.Hears.{
  Ear, listen, IsThere, is_push, Tells, reading, Untouched-Tells, receive-Told,
}
use embedded_project_exam.Sensor.Life.Laws.{GoesOn, live_all-hear_all}

abbrev pub the_alarm : Program Alarm
the_alarm = record {
  mote_of = λ s. s.device;
  with_mote = λ d s. record s { device = d };
  callback = alarm_callback;
  loop = alarm_timer;
}

-- A text whose number an int can hold, 0 if it has none.
abbrev pub IsInt : List ℕ → Type 0
IsInt v = (read_number v).1 ≤ int_max

-- Ten or more.
abbrev pub rings : Bool × ℕ → List Reaction
rings n = if not (n.0) && leb 10 (n.1) then alarm_on ∷ [] else []

abbrev pub ring : List ℕ → List Reaction
ring v = rings (read_number v)

-- An alarm that an observer knows so.
abbrev pub Watched : ℕ → Ear → Alarm → Type 0
Watched a x s = (s.log ≡ x.log) × Tells a x.heard s.device × Steady IsInt s.device

check_value-ring :
    (info v : List ℕ) → text info ≡ some v → IsInt v → check_value info ≡ some (ring v)
unfolding check_value atoi
check_value-ring info v h fits = ground (arith, h, fits)

answer-reading :
    (b : Bool) (payload v : List ℕ)
    → text payload ≡ some v
    → IsInt v
    → answer_alarm (reading b payload) ≡ some (if b then ring v else [])
answer-reading true payload v h fits = check_value-ring payload v h fits
answer-reading false payload v h fits = refl

timer_pings :
    (c dest : ℕ) (s : Alarm)
    → s.device.connected ≡ true
    → alarm_timer true c dest s ≡ some (record s { device = start_ping_thread c dest s.device })
unfolding alarm_timer
timer_pings c dest s h = ground arith

timer_announces :
    (c dest : ℕ) (s : Alarm)
    → s.device.connected ≡ false
    → alarm_timer true c dest s
      ≡ (announce c dest (lit "GAS") s.device >>= λ d. some (record s { device = d }))
unfolding alarm_timer
timer_announces c dest s h = ground arith

module _ (layout : Layout) (c a : ℕ) where
  callback-ring :
      (x : Ear) (bytes : List ℕ) (addr : ℕ) (f : Frame) (p : Packet) (o v : List ℕ) (s : Alarm)
      → IsThere IsInt a layout (arrives bytes addr f p o v)
      → Watched a x s
      → GoesOn (Watched a (listen ring p v x)) (alarm_callback layout c addr bytes f s)
  unfolding alarm_callback listen
  callback-ring x bytes addr f p o v s ((read, fit, kind, room), here) (same, tells, h) =
      let (d, run, k) =
        receive-StaysSteady IsInt layout c addr bytes f p o v s.device read fit kind room h in
      let (tells', seen) =
        receive-Told IsInt layout c addr bytes f p x.heard s.device d read h run (rw here tells) in
      let heard = x.heard || is_push p in
      (
        record { device = d; log = (if heard then ring v else []) ++ s.log },
        rw (run, seen, answer-reading heard p.payload v fit.payload_text kind) refl,
        (ap (λ (l : List Reaction). (if heard then ring v else []) ++ l) same, rw⁻¹ here tells', k),
      )

  timer-ring :
      (x : Ear) (reachable : Bool) (dest : ℕ) (s : Alarm)
      → Watched a x s
      → GoesOn (Watched a x) (alarm_timer reachable c dest s)
  unfolding alarm_timer text
  timer-ring x false dest s h = (s, refl, h)
  timer-ring x true dest s (same, tells, h) = elim (Bool-cases s.device.connected) [
    | inl on ↦
        let d = start_ping_thread c dest s.device in
        (
          record s { device = d },
          timer_pings c dest s on,
          (
            same,
            Untouched-Tells a x.heard s.device d (start_ping_thread-Untouched c dest s.device)
                tells,
            start_ping_thread-Steady IsInt c dest s.device h,
          ),
        )
    | inr off ↦
        let (d, run, k) =
          announce-StaysSteady IsInt c dest (lit "GAS") (codes "GAS") s.device refl (omega arith)
            h in
        let quiet = announce-Untouched c dest (lit "GAS") s.device d run in
        (
          record s { device = d },
          timer_announces c dest s off ∙ rw run refl,
          (same, Untouched-Tells a x.heard s.device d quiet tells, k),
        )
  ]

  -- In any order of datagrams (of the mote's layout, with texts that fit the arrays, the payload's
  -- number in the range of int, each handled in the one frame at address a, whose topic has two
  -- addresses), of expiries of its own timer, whether or not the server can be reached, and of the
  -- expiries of ackThread and wait_ping_process, an alarm never faults, and it goes off as the
  -- packets alone say: never before the first PUSH, and from then on, that one included, once for
  -- each packet whose payload's number is 10 or more, which is the code's threshold, of whatever
  -- message type. It starts with an empty modifPayload at every call, names in its table that are
  -- texts, a sound state of its library (whose table has two slots, the second past the declared
  -- array), only texts with numbers in the range of int where its getPushedINFO points, and either
  -- no PUSH so far and no pointer, or getPushedINFO pointing at a; all of this holds at the end
  -- again.
  pub live_all-ring :
      (hs : List Happening) (x : Ear) (s : Alarm)
      → All (IsThere IsInt a layout) hs
      → Watched a x s
      → GoesOn (Watched a (hear_all (listen ring) hs x)) (live_all the_alarm layout c hs s)
  live_all-ring =
      live_all-hear_all the_alarm layout c IsInt (IsThere IsInt a layout) (listen ring) (Watched a)
        (record {
          steady = λ x s h. h.2;
          motes = λ x d s k same h. (h.0, Untouched-Tells a x.heard s.device d same h.1, k);
          callbacks = callback-ring;
          loops = timer-ring;
        })
