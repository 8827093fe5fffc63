-- ===== src/Sensor/Life/Switching.antt =====
-- What the lamp of Sensors/light/sensor.c does in its life, by the packets alone, where all lie in one stack frame.
use embedded_project_exam.Base.{
  ℕ, ◌≡◌, refl, ◌∙◌, ap, Bool, true, false, some, List, [], ◌++◌, ◌||◌, arith, if◌then◌else◌,
  Bool-cases, inl, inr, codes,
}
use embedded_project_exam.CString.{lit, text}
use embedded_project_exam.Protocol.{Packet}
use embedded_project_exam.Protocol.Wire.{Layout}
use embedded_project_exam.Topics.{Frame}
use embedded_project_exam.Device.Processes.{start_ping_thread}
use embedded_project_exam.Sensor.{Reaction}
use embedded_project_exam.Sensor.Light.{Light, answer_light, light_callback, light_timer}
use embedded_project_exam.Sensor.Lamp.{lamp, switch_light-lamp}
use embedded_project_exam.Sensor.Receives.{IsAny}
use embedded_project_exam.Sensor.Life.{Happening, arrives, live_all, All, hear_all}
use embedded_project_exam.Sensor.Life.Steady.{
  Steady, start_ping_thread-Steady, receive-StaysSteady, announce-StaysSteady,
}
use embedded_project_exam.Sensor.Life.Untouched.{start_ping_thread-Untouched, announce-Untouched}
use embedded_project_exam.Sensor.Life.Hears.{
  Ear, listen, IsThere, is_push, Tells, reading, Untouched-Tells, receive-Told,
}
use embedded_project_exam.Sensor.Life.Laws.{GoesOn, live_all-hear_all}
use embedded_project_exam.Sensor.Life.Lamp.{the_lamp, timer_pings, timer_announces}

-- A lamp that an observer knows so.
abbrev pub Known : ℕ → Ear → Light → Type 0
Known a x s = (s.log ≡ x.log) × Tells a x.heard s.device × Steady IsAny s.device

answer-reading :
    (b : Bool) (payload v : List ℕ)
    → text payload ≡ some v
    → answer_light (reading b payload) ≡ some (if b then lamp v else [])
answer-reading true payload v h = switch_light-lamp payload v h
answer-reading false payload v h = refl

module _ (layout : Layout) (c a : ℕ) where
  callback-listen :
      (x : Ear) (bytes : List ℕ) (addr : ℕ) (f : Frame) (p : Packet) (o v : List ℕ) (s : Light)
      → IsThere IsAny a layout (arrives bytes addr f p o v)
      → Known a x s
      → GoesOn (Known a (listen lamp p v x)) (light_callback layout c addr bytes f s)
  unfolding light_callback listen
  callback-listen x bytes addr f p o v s ((read, fit, kind, room), here) (same, tells, h) =
      let (d, run, k) =
        receive-StaysSteady IsAny layout c addr bytes f p o v s.device read fit kind room h in
      let (tells', seen) =
        receive-Told IsAny layout c addr bytes f p x.heard s.device d read h run (rw here tells) in
      let heard = x.heard || is_push p in
      (
        record { device = d; log = (if heard then lamp v else []) ++ s.log },
        rw (run, seen, answer-reading heard p.payload v fit.payload_text) refl,
        (ap (λ (l : List Reaction). (if heard then lamp v else []) ++ l) same, rw⁻¹ here tells', k),
      )

  timer-listen :
      (x : Ear) (reachable : Bool) (dest : ℕ) (s : Light)
      → Known a x s
      → GoesOn (Known a x) (light_timer reachable c dest s)
  unfolding light_timer text
  timer-listen x false dest s h = (s, refl, h)
  timer-listen x true dest s (same, tells, h) = elim (Bool-cases s.device.connected) [
    | inl on ↦
        let d = start_ping_thread c dest s.device in
        (
          record s { device = d },
          timer_pings c dest s on,
          (
            same,
            Untouched-Tells a x.heard s.device d (start_ping_thread-Untouched c dest s.device)
                tells,
            start_ping_thread-Steady IsAny c dest s.device h,
          ),
        )
    | inr off ↦
        let (d, run, k) =
          announce-StaysSteady IsAny c dest (lit "Light") (codes "Light") s.device refl
            (omega arith) h in
        (
          record s { device = d },
          timer_announces c dest s off ∙ rw run refl,
          (
            same,
            Untouched-Tells a x.heard s.device d
                (announce-Untouched c dest (lit "Light") s.device d run) tells,
            k,
          ),
        )
  ]

  -- In any order of datagrams (of the mote's layout, with any texts that fit the arrays, each
  -- handled in the one frame at address a, whose topic has two addresses), of expiries of its own
  -- timer, whether or not the server can be reached, and of the expiries of ackThread and
  -- wait_ping_process, a lamp never faults, and what it logs is what the packets alone say:
  -- nothing before the first PUSH, and from then on, that one included, a switch for each packet
  -- whose payload is ON or OFF, of whatever message type. It starts with an empty modifPayload at
  -- every call, names in its table that are texts, a sound state of its library (whose table has
  -- two slots, the second past the declared array), only texts where its getPushedINFO points, and
  -- either no PUSH so far and no pointer, or getPushedINFO pointing at a; all of this holds at the
  -- end again.
  pub live_all-listen :
      (hs : List Happening) (x : Ear) (s : Light)
      → All (IsThere IsAny a layout) hs
      → Known a x s
      → GoesOn (Known a (hear_all (listen lamp) hs x)) (live_all the_lamp layout c hs s)
  live_all-listen =
      live_all-hear_all the_lamp layout c IsAny (IsThere IsAny a layout) (listen lamp) (Known a)
        (record {
          steady = λ x s h. h.2;
          motes = λ x d s k same h. (h.0, Untouched-Tells a x.heard s.device d same h.1, k);
          callbacks = callback-listen;
          loops = timer-listen;
        })
