-- ===== src/Sensor/Life/Measuring.antt =====
-- The gas sensor of Sensors/gas_sensor/sensor.c goes on measuring whatever it is told.
use embedded_project_exam.Base.{
  ℕ, ◌≡◌, ◌≤◌, refl, ◌∙◌, Bool, true, false, some, List, arith, length, inl, inr, Bool-cases, ◌>>=◌,
  codes,
}
use embedded_project_exam.CString.{lit, text}
use embedded_project_exam.CString.Numbers.{decimal}
use embedded_project_exam.CString.Decimal.{sprintf_d_lem}
use embedded_project_exam.Protocol.{Packet}
use embedded_project_exam.Protocol.Wire.{Layout}
use embedded_project_exam.Topics.{Frame}
use embedded_project_exam.Device.Messages.{hello}
use embedded_project_exam.Device.Processes.{start_ping_thread}
use embedded_project_exam.Sensor.Gas.{Gas, next_value, publish_value, gas_callback, gas_timer}
use embedded_project_exam.Sensor.Cycle.{next_value_lem, timer_publishes}
use embedded_project_exam.Sensor.Receives.{IsAny}
use embedded_project_exam.Sensor.Life.{Happening, arrives, Program, live_all, IsUsual, AllUsual}
use embedded_project_exam.Sensor.Life.Steady.{
  Steady, start_ping_thread-Steady, receive-StaysSteady, hello-StaysSteady, publish-StaysSteady,
}
use embedded_project_exam.Sensor.Life.Laws.{GoesOn, live_all-GoesOn}

abbrev pub the_gas_sensor : Program Gas
the_gas_sensor = record {
  mote_of = λ s. s.device;
  with_mote = λ d s. record s { device = d };
  callback = gas_callback;
  loop = gas_timer;
}

-- A value of the cycle, room to print it, and a mote that is fit for any text.
abbrev pub Measuring : Gas → Type 0
Measuring s = (s.gas_value ≤ 13) × (3 ≤ length s.value) × Steady IsAny s.device

timer_greets :
    (c dest : ℕ) (s : Gas)
    → s.device.connected ≡ false
    → gas_timer true c dest s ≡ (hello c dest true s.device >>= λ d. some (record s { device = d }))
unfolding gas_timer
timer_greets c dest s h = ground arith

publish_value-Measuring :
    (c dest : ℕ) (s : Gas) → Measuring s → GoesOn Measuring (publish_value c dest s)
unfolding publish_value text
publish_value-Measuring c dest s (small, room, h) =
    let n = next_value s.gas_value in
    let (low, high) = next_value_lem s.gas_value small in
    let (out, printed, reads, size, short) = sprintf_d_lem s.value n (omega arith) room in
    let (d, sent, k) =
      publish-StaysSteady IsAny c dest (lit "GAS") out (codes "GAS") (decimal n)
        (start_ping_thread c dest s.device) refl reads (omega arith) (omega arith)
        (start_ping_thread-Steady IsAny c dest s.device h) in
    (
      record { device = d; gas_value = n; value = out },
      rw (printed, sent) refl,
      (high, omega arith, k),
    )

module _ (layout : Layout) (c : ℕ) where
  callback-Measuring :
      (bytes : List ℕ) (addr : ℕ) (f : Frame) (p : Packet) (o v : List ℕ) (s : Gas)
      → IsUsual IsAny layout (arrives bytes addr f p o v)
      → Measuring s
      → GoesOn Measuring (gas_callback layout c addr bytes f s)
  unfolding gas_callback
  callback-Measuring bytes addr f p o v s (read, fit, kind, wide) (small, room, h) =
      let (d, run, k) =
        receive-StaysSteady IsAny layout c addr bytes f p o v s.device read fit kind wide h in
      (record s { device = d }, rw run refl, (small, room, k))

  timer-Measuring :
      (reachable : Bool) (dest : ℕ) (s : Gas)
      → Measuring s
      → GoesOn Measuring (gas_timer reachable c dest s)
  unfolding gas_timer
  timer-Measuring false dest s h = (s, refl, h)
  timer-Measuring true dest s (small, room, h) = elim (Bool-cases s.device.connected) [
    | inl on ↦
        let (t, run, k) = publish_value-Measuring c dest s (small, room, h) in
        (t, timer_publishes c dest s on ∙ run, k)
    | inr off ↦
        let (d, run, k) = hello-StaysSteady IsAny c dest s.device h in
        (record s { device = d }, timer_greets c dest s off ∙ rw run refl, (small, room, k))
  ]

  -- In any order of datagrams (of the mote's layout, with texts that fit the arrays; each handled
  -- in a frame whose topic has two addresses), of expiries of its own timer, whether or not the
  -- server can be reached, and of the expiries of ackThread and wait_ping_process, a gas sensor
  -- whose pointer `value` has room for three bytes and whose value is at most 13 never faults, and
  -- that holds again at the end. It starts with an empty modifPayload at every call, names in its
  -- table that are texts, a sound state of its library (whose table has two slots, the second past
  -- the declared array), and nothing but texts where its getPushedINFO points, and all of this
  -- holds at the end again.
  pub live_all-Measuring :
      (hs : List Happening) (s : Gas)
      → AllUsual IsAny layout hs
      → Measuring s
      → GoesOn Measuring (live_all the_gas_sensor layout c hs s)
  live_all-Measuring = live_all-GoesOn the_gas_sensor layout c IsAny Measuring (record {
    steady = λ s h. h.2;
    motes = λ d s k h. (h.0, h.1, k);
    callbacks = callback-Measuring;
    loops = timer-Measuring;
  })
