-- ===== src/Sensor/Life/Lamp.antt =====
-- The lamp of Sensors/light/sensor.c never switches in a life of messages from createPacket.
use embedded_project_exam.Base.{
  ℕ, ◌≡◌, refl, ◌∙◌, Bool, true, false, Option, none, some, List, [], ◌∷◌, arith, inl, inr, ◌⊎◌,
  Bool-cases, ◌>>=◌, codes,
}
use embedded_project_exam.CString.{lit, text}
use embedded_project_exam.Protocol.{Packet}
use embedded_project_exam.Protocol.Wire.{Layout}
use embedded_project_exam.Topics.{Frame}
use embedded_project_exam.Device.Processes.{start_ping_thread}
use embedded_project_exam.Sensor.{Reaction, pushed_text, announce}
use embedded_project_exam.Sensor.Light.{Light, answer_light, light_callback, light_timer}
use embedded_project_exam.Sensor.Lamp.{lamp, switch_light-lamp}
use embedded_project_exam.Sensor.Receives.{pushed_text-text}
use embedded_project_exam.Sensor.Life.{
  Happening, arrives, Program, live_all, IsUsual, AllUsual, Blank,
}
use embedded_project_exam.Sensor.Life.Steady.{
  Steady, start_ping_thread-Steady, receive-StaysSteady, announce-StaysSteady,
}
use embedded_project_exam.Sensor.Life.Laws.{GoesOn, live_all-GoesOn}

abbrev pub the_lamp : Program Light
the_lamp = record {
  mote_of = λ s. s.device;
  with_mote = λ d s. record s { device = d };
  callback = light_callback;
  loop = light_timer;
}

-- What the lamp did, and a mote whose messages start with a space.
abbrev pub Dark : List Reaction → Light → Type 0
Dark log s = (s.log ≡ log) × Steady Blank s.device

lamp-Blank : (v : List ℕ) → Blank v → lamp v ≡ []
lamp-Blank [] b = absurd b
lamp-Blank (c ∷ cs) b = rw b refl

answer-Blank :
    (r : Option (List ℕ))
    → (r ≡ none) ⊎ ((a v : List ℕ) × (r ≡ some a) × (text a ≡ some v) × Blank v)
    → answer_light r ≡ some []
answer-Blank r (inl e) = rw e refl
answer-Blank r (inr (a, v, e, h, b)) = rw (e, switch_light-lamp a v h, lamp-Blank v b) refl

pub timer_pings :
    (c dest : ℕ) (s : Light)
    → s.device.connected ≡ true
    → light_timer true c dest s ≡ some (record s { device = start_ping_thread c dest s.device })
unfolding light_timer
timer_pings c dest s h = ground arith

pub timer_announces :
    (c dest : ℕ) (s : Light)
    → s.device.connected ≡ false
    → light_timer true c dest s
      ≡ (announce c dest (lit "Light") s.device >>= λ d. some (record s { device = d }))
unfolding light_timer
timer_announces c dest s h = ground arith

module _ (layout : Layout) (c : ℕ) (log : List Reaction) where
  callback-Dark :
      (bytes : List ℕ) (addr : ℕ) (f : Frame) (p : Packet) (o v : List ℕ) (s : Light)
      → IsUsual Blank layout (arrives bytes addr f p o v)
      → Dark log s
      → GoesOn (Dark log) (light_callback layout c addr bytes f s)
  unfolding light_callback
  callback-Dark bytes addr f p o v s (read, fit, kind, room) (same, h) =
      let (d, run, k) =
        receive-StaysSteady Blank layout c addr bytes f p o v s.device read fit kind room h in
      let quiet = answer-Blank (pushed_text d) (pushed_text-text Blank d k.informed) in
      (record { device = d; log = s.log }, rw (run, quiet) refl, (same, k))

  timer-Dark :
      (reachable : Bool) (dest : ℕ) (s : Light)
      → Dark log s
      → GoesOn (Dark log) (light_timer reachable c dest s)
  unfolding light_timer text
  timer-Dark false dest s h = (s, refl, h)
  timer-Dark true dest s (same, h) = elim (Bool-cases s.device.connected) [
    | inl on ↦
        (_, timer_pings c dest s on, (same, start_ping_thread-Steady Blank c dest s.device h))
    | inr off ↦
        let (d, run, k) =
          announce-StaysSteady Blank c dest (lit "Light") (codes "Light") s.device refl
            (omega arith) h in
        (record s { device = d }, timer_announces c dest s off ∙ rw run refl, (same, k))
  ]

  -- In any order of datagrams (of the mote's layout, with texts that fit the arrays and a payload
  -- that starts with a space, as all do that createPacket makes; each handled in a frame whose
  -- topic has two addresses), of expiries of its own timer, whether or not the server can be
  -- reached, and of the expiries of ackThread and wait_ping_process, a lamp never faults and never
  -- logs that its light switches. It starts with an empty modifPayload at every call, names in its
  -- table that are texts, a sound state of its library (whose table has two slots, the second past
  -- the declared array), and nothing but payloads that start with a space where its getPushedINFO
  -- points, and all of this holds at the end again.
  pub live_all-Dark :
      (hs : List Happening) (s : Light)
      → AllUsual Blank layout hs
      → Dark log s
      → GoesOn (Dark log) (live_all the_lamp layout c hs s)
  live_all-Dark = live_all-GoesOn the_lamp layout c Blank (Dark log) (record {
    steady = λ s h. h.1;
    motes = λ d s k h. (h.0, k);
    callbacks = callback-Dark;
    loops = timer-Dark;
  })
