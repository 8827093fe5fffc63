-- ===== src/Sensor/Cycle.antt =====
-- The values that the gas sensor of Sensors/gas_sensor/sensor.c publishes.
use embedded_project_exam.Base.{
  ℕ, zero, suc, ◌+◌, ◌%◌, ◌≤◌, ◌≡◌, refl, ◌∙◌, ap, true, Option, some, ◌++◌, arith, length, codes,
  ◌>>=◌,
}
use embedded_project_exam.CString.{lit, text}
use embedded_project_exam.CString.Numbers.{decimal}
use embedded_project_exam.CString.Decimal.{sprintf_d_lem}
use embedded_project_exam.Protocol.{Packet}
use embedded_project_exam.Protocol.Create.Laws.{Carries}
use embedded_project_exam.Device.Processes.{start_ping_thread}
use embedded_project_exam.Device.Fanout.{sent_by-Same}
use embedded_project_exam.Device.Sends.{sent_by, IsClean, publish-Emits}
use embedded_project_exam.Sensor.Gas.{Gas, next_value, publish_value, gas_timer}
use embedded_project_exam.Sensor.Receives.{start_ping_thread-Undisturbed}

-- A connected gas sensor with a clean stack, and room for its value.
pub record Measures (s : Gas) : Type 0 where
  pub clean : IsClean s.device
  pub connected : s.device.connected ≡ true
  pub room : 3 ≤ length s.value
  pub small : s.gas_value ≤ 13

pub next_value_lem : (g : ℕ) → g ≤ 13 → (1 ≤ next_value g) × (next_value g ≤ 13)
unfolding next_value
next_value_lem g h = ground arith

-- One value is published, and the next follows.
abbrev pub Published : ℕ → ℕ → Gas → Gas → Type 0
Published c dest s t =
    (p : Packet) × Carries p 1 1 (codes "GAS") (codes "  " ++ decimal (next_value s.gas_value))
    × (t.device ≡ sent_by p c dest (start_ping_thread c dest s.device))
    × (t.gas_value ≡ next_value s.gas_value)

pub timer_publishes :
    (c dest : ℕ) (s : Gas)
    → s.device.connected ≡ true
    → gas_timer true c dest s ≡ publish_value c dest s
unfolding gas_timer
timer_publishes c dest s h = ground arith

-- A connected gas sensor that finds an empty modifPayload at every call, whose pointer `value` has
-- room for three bytes and whose value is at most 13, at its timer sends exactly one PUBLISH on
-- GAS, reliably, with the next value in decimal behind two spaces, runs without a fault, and is
-- again of that form.
pub gas_timer-Published :
    (c dest : ℕ) (s : Gas)
    → Measures s
    → (t : Gas) × (gas_timer true c dest s ≡ some t) × Published c dest s t × Measures t
unfolding publish_value text
gas_timer-Published c dest s h =
    let n = next_value s.gas_value in
    let (low, high) = next_value_lem s.gas_value h.small in
    let (out, printed, reads, size, short) = sprintf_d_lem s.value n (omega arith) h.room in
    let k = start_ping_thread-Undisturbed c dest s.device in
    let d = start_ping_thread c dest s.device in
    let (p, sent, car) =
      publish-Emits c dest d (λ j. rw k.locals_eq (h.clean j)) true (lit "GAS") out (codes "GAS")
        (decimal n) refl reads (omega arith) (omega arith) in
    let same = sent_by-Same p c dest d in
    (
      record { device = sent_by p c dest d; gas_value = n; value = out },
      timer_publishes c dest s h.connected ∙ rw (printed, sent) refl,
      (p, car, refl, refl),
      record {
        clean = λ j. rw (same.locals_eq, k.locals_eq) (h.clean j);
        connected = same.connected_eq ∙ k.connected_eq ∙ h.connected;
        room = omega arith;
        small = high;
      },
    )

-- Expiries of the timer with nothing else in between.
unfoldable pub gas_timers : ℕ → ℕ → ℕ → Gas → Option Gas
gas_timers zero c dest s = some s
gas_timers (suc k) c dest s = gas_timer true c dest s >>= gas_timers k c dest

-- `next_value`, that often.
unfoldable pub value_after : ℕ → ℕ → ℕ
value_after zero g = g
value_after (suc k) g = value_after k (next_value g)

value_after-cycle : (k m : ℕ) → value_after k (m % 13 + 1) ≡ (m + k) % 13 + 1
unfolding value_after next_value
value_after-cycle zero m = ground arith
value_after-cycle (suc k) m =
    ap (value_after k) (step m)
    ∙ value_after-cycle k (suc m)
    ∙ ap (λ (j : ℕ). j % 13 + 1) (omega arith)
  where
    step : (j : ℕ) → next_value (j % 13 + 1) ≡ suc j % 13 + 1
    step j = ground arith

timers_run :
    (k c dest : ℕ) (s : Gas)
    → Measures s
    → (t : Gas) × (gas_timers k c dest s ≡ some t)
      × (t.gas_value ≡ value_after k s.gas_value)
      × Measures t
unfolding gas_timers value_after
timers_run zero c dest s h = (s, refl, refl, h)
timers_run (suc k) c dest s h =
    let (u, e, (p, car, sent, v), m) = gas_timer-Published c dest s h in
    let (t, run, w, m') = timers_run k c dest u m in (t, rw e run, w ∙ ap (value_after k) v, m')

first_cycle : (k : ℕ) → value_after (suc k) 0 ≡ k % 13 + 1
unfolding value_after next_value
first_cycle k = value_after-cycle k 0 ∙ ap (λ (j : ℕ). j % 13 + 1) (omega arith)

-- A connected gas sensor that finds an empty modifPayload at every call of createPacket and for
-- whose pointer `value`, which the code never sets, three bytes can be written, and that starts at
-- the value 0, has after k + 1 expiries of its timer with nothing in between the value k modulo 13
-- plus 1; none of these expiries faults, and it is then again connected, with an empty
-- modifPayload and room at `value`, its value at most 13.
pub gas_timers-cycle :
    (k c dest : ℕ) (s : Gas)
    → Measures s
    → s.gas_value ≡ 0
    → (t : Gas) × (gas_timers (suc k) c dest s ≡ some t) × (t.gas_value ≡ k % 13 + 1) × Measures t
gas_timers-cycle k c dest s h start =
    let (t, run, v, m) = timers_run (suc k) c dest s h in (t, run, v ∙ rw start (first_cycle k), m)
