-- ===== src/Sensor/Life/Washing.antt =====
-- The washing machine of Sensors/washing_machine/sensor.c never starts in a life of messages from createPacket.
use embedded_project_exam.Base.{
  ℕ, ◌≡◌, refl, ◌∙◌, Bool, true, false, Option, none, some, List, [], ◌∷◌, arith, inl, inr, ◌⊎◌,
  Bool-cases, ◌>>=◌, codes,
}
use embedded_project_exam.CString.{lit, text}
use embedded_project_exam.Protocol.{Packet}
use embedded_project_exam.Protocol.Wire.{Layout}
use embedded_project_exam.Topics.{Frame}
use embedded_project_exam.Device.Processes.{start_ping_thread}
use embedded_project_exam.Sensor.{Reaction, pushed_text, announce}
use embedded_project_exam.Sensor.Washer.{Washer, answer_washer, washer_callback, washer_timer}
use embedded_project_exam.Sensor.Washes.{obey_lem, washer_timer_idle}
use embedded_project_exam.Sensor.Receives.{pushed_text-text}
use embedded_project_exam.Sensor.Life.{
  Happening, arrives, Program, live_all, IsUsual, AllUsual, Blank,
}
use embedded_project_exam.Sensor.Life.Steady.{
  Steady, start_ping_thread-Steady, receive-StaysSteady, announce-StaysSteady,
}
use embedded_project_exam.Sensor.Life.Laws.{GoesOn, live_all-GoesOn}

abbrev pub the_washer : Program Washer
the_washer = record {
  mote_of = λ s. s.device;
  with_mote = λ d s. record s { device = d };
  callback = washer_callback;
  loop = washer_timer;
}

-- What the machine did, no cycle, and a mote whose messages start with a space.
abbrev pub Still : List Reaction → Washer → Type 0
Still log s = (s.log ≡ log) × (s.wama_timer ≡ 0) × Steady Blank s.device

answer-Blank :
    (r : Option (List ℕ)) (s : Washer)
    → (r ≡ none) ⊎ ((a v : List ℕ) × (r ≡ some a) × (text a ≡ some v) × Blank v)
    → answer_washer r s ≡ some s
answer-Blank r s (inl e) = rw e refl
answer-Blank r s (inr (a, [], e, h, b)) = absurd b
answer-Blank r s (inr (a, c ∷ cs, e, h, b)) = rw e (obey_lem a (c ∷ cs) s h ∙ rw b refl)

timer_announces :
    (c dest : ℕ) (s : Washer)
    → s.device.connected ≡ false
    → washer_timer true c dest s
      ≡ (announce c dest (lit "WAMA/command") s.device >>= λ d. some (record s { device = d }))
unfolding washer_timer
timer_announces c dest s h = ground arith

module _ (layout : Layout) (c : ℕ) (log : List Reaction) where
  callback-Still :
      (bytes : List ℕ) (addr : ℕ) (f : Frame) (p : Packet) (o v : List ℕ) (s : Washer)
      → IsUsual Blank layout (arrives bytes addr f p o v)
      → Still log s
      → GoesOn (Still log) (washer_callback layout c addr bytes f s)
  unfolding washer_callback
  callback-Still bytes addr f p o v s (read, fit, kind, room) (same, idle, h) =
      let (d, run, k) =
        receive-StaysSteady Blank layout c addr bytes f p o v s.device read fit kind room h in
      let t = record s { device = d } in
      (
        t,
        rw run (answer-Blank (pushed_text d) t (pushed_text-text Blank d k.informed)),
        (same, idle, k),
      )

  timer-Still :
      (reachable : Bool) (dest : ℕ) (s : Washer)
      → Still log s
      → GoesOn (Still log) (washer_timer reachable c dest s)
  unfolding washer_timer text
  timer-Still false dest s h = (s, refl, h)
  timer-Still true dest s (same, idle, h) = elim (Bool-cases s.device.connected) [
    | inl on ↦ (
      record s { device = start_ping_thread c dest s.device },
      washer_timer_idle c dest s on idle,
      (same, idle, start_ping_thread-Steady Blank c dest s.device h),
    )
    | inr off ↦
        let (d, run, k) =
          announce-StaysSteady Blank c dest (lit "WAMA/command") (codes "WAMA/command") s.device
            refl (omega arith) h in
        (record s { device = d }, timer_announces c dest s off ∙ rw run refl, (same, idle, k))
  ]

  -- In any order of datagrams (of the mote's layout, with texts that fit the arrays and a payload
  -- that starts with a space, as all do that createPacket makes; each handled in a frame whose
  -- topic has two addresses), of expiries of its own timer, whether or not the server can be
  -- reached, and of the expiries of ackThread and wait_ping_process, a washing machine whose timer
  -- is 0 never faults, never starts or stops a cycle, and its timer is still 0, even where its
  -- pointer `WAMA_timerS` has no room. It starts with an empty modifPayload at every call, names
  -- in its table that are texts, a sound state of its library (whose table has two slots, the
  -- second past the declared array), and nothing but payloads that start with a space where its
  -- getPushedINFO points, and all of this holds at the end again.
  pub live_all-Still :
      (hs : List Happening) (s : Washer)
      → AllUsual Blank layout hs
      → Still log s
      → GoesOn (Still log) (live_all the_washer layout c hs s)
  live_all-Still = live_all-GoesOn the_washer layout c Blank (Still log) (record {
    steady = λ s h. h.2;
    motes = λ d s k h. (h.0, h.1, k);
    callbacks = callback-Still;
    loops = timer-Still;
  })
