-- ===== src/Sensor/Washes.antt =====
-- What the washing machine of Sensors/washing_machine/sensor.c does with a command, and how long its cycle is.
use embedded_project_exam.Base.{
  ℕ, ◌≤◌, ◌<◌, ◌≡◌, refl, sym, subst, ◌∙◌, Bool, true, false, some, List, ◌∷◌, arith, length, codes,
  if◌then◌else◌,
}
use embedded_project_exam.CString.{lit, text}
use embedded_project_exam.CString.Laws.{same, strcmp-same}
use embedded_project_exam.CString.Numbers.{decimal, digits, sprintf_d}
use embedded_project_exam.CString.Decimal.{sprintf_d_lem}
use embedded_project_exam.Protocol.{Packet, of_code}
use embedded_project_exam.Protocol.Create.Laws.{Carries}
use embedded_project_exam.Protocol.Wire.{Layout, Padding, encode}
use embedded_project_exam.Protocol.Wire.Laws.{Fills}
use embedded_project_exam.Topics.{Frame}
use embedded_project_exam.Device.{Device}
use embedded_project_exam.Device.Messages.{publish}
use embedded_project_exam.Device.Processes.{start_ping_thread}
use embedded_project_exam.Device.Fanout.{sent_by-Same}
use embedded_project_exam.Device.Sends.{sent_by, IsClean, publish-Emits}
use embedded_project_exam.Sensor.{cycle_started, cycle_stopped}
use embedded_project_exam.Sensor.Washer.{Washer, obey, washer_callback, report, washer_timer}
use embedded_project_exam.Sensor.Receives.{
  Listens, receive-Listens, receive-push, decode-Carries, Carries-Fits,
  start_ping_thread-Undisturbed,
}

-- The timer by the text that the machine reads.
abbrev pub timer_after : List ℕ → ℕ → ℕ
timer_after v n = if same v (codes "STOP") then 0 else if same v (codes "START") then 1 else n

-- The machine after a text, by what it is equal to.
abbrev pub obeyed : Bool → Bool → Washer → Washer
obeyed start stop s =
    let t = if start then record s { wama_timer = 1; log = cycle_started ∷ s.log } else s in
    if stop then record t { wama_timer = 0; log = cycle_stopped ∷ t.log } else t

obeyed_fields :
    (start stop : Bool) (s : Washer)
    → ((obeyed start stop s).wama_timer ≡ (if stop then 0 else if start then 1 else s.wama_timer))
      × ((obeyed start stop s).device ≡ s.device)
obeyed_fields true true s = (refl, refl)
obeyed_fields true false s = (refl, refl)
obeyed_fields false true s = (refl, refl)
obeyed_fields false false s = (refl, refl)

pub obey_lem :
    (info v : List ℕ) (s : Washer)
    → text info ≡ some v
    → obey info s ≡ some (obeyed (same v (codes "START")) (same v (codes "STOP")) s)
unfolding obey text
obey_lem info v s h =
    rw
      (
        strcmp-same info (lit "START") v (codes "START") h refl,
        strcmp-same info (lit "STOP") v (codes "STOP") h refl,
      )
      refl

-- A washing machine that is fit to take a message, on a PUSH of its layout with texts of at most
-- 19 and 47 bytes, runs without a fault, sets its timer to 0 if the payload is STOP, to 1 if it is
-- START, and else leaves it as it was; it is fit for the next message.
pub washer_callback-timer_after :
    (layout : Layout) (pad : Padding) (c addr r : ℕ) (f : Frame) (q : Packet) (o v : List ℕ)
    (s : Washer)
    → Fills layout pad
    → r < 2
    → Carries q 12 r o v
    → length o < 20
    → length v < 48
    → Listens s.device
    → (t : Washer) × (washer_callback layout c addr (encode pad q) f s ≡ some t)
      × (t.wama_timer ≡ timer_after v s.wama_timer)
      × Listens t.device
unfolding washer_callback of_code
washer_callback-timer_after layout pad c addr r f q o v s fills bit car lo lv h =
    let read = decode-Carries layout pad q 12 r o v fills (omega arith) bit car in
    let (d, run, l) =
      receive-Listens layout c addr (encode pad q) f q o v s.device read
        (Carries-Fits q 12 r o v car lo lv) h in
    let seen =
      receive-push layout c addr (encode pad q) f q s.device d read (rw car.mst_eq) h run in
    let u = record s { device = d } in
    let (timer, dev) = obeyed_fields (same v (codes "START")) (same v (codes "STOP")) u in
    (
      obeyed (same v (codes "START")) (same v (codes "STOP")) u,
      rw (run, seen) (obey_lem q.payload v u car.payload_stored.content),
      timer,
      subst Listens (sym dev) l,
    )

-- A connected washing machine with a clean stack, and room for the number that it prints.
pub record Works (s : Washer) : Type 0 where
  pub clean : IsClean s.device
  pub connected : s.device.connected ≡ true
  pub room : 3 ≤ length s.wama_timer_s

timer_reports :
    (c dest : ℕ) (s : Washer)
    → s.device.connected ≡ true
    → s.wama_timer ≡ 1
    → washer_timer true c dest s
      ≡ report c dest (record s { device = start_ping_thread c dest s.device })
unfolding washer_timer
timer_reports c dest s h k = ground arith

report_last :
    (c dest : ℕ) (s : Washer) (out : List ℕ) (d : Device)
    → s.wama_timer ≡ 1
    → sprintf_d s.wama_timer_s 1 ≡ some out
    → publish c dest true (lit "WAMA/info") out s.device ≡ some d
    → report c dest s ≡ some (record s { device = d; wama_timer_s = out; wama_timer = 0 })
unfolding report
report_last c dest s out d one printed sent = ground arith

pub washer_timer_idle :
    (c dest : ℕ) (s : Washer)
    → s.device.connected ≡ true
    → s.wama_timer ≡ 0
    → washer_timer true c dest s ≡ some (record s { device = start_ping_thread c dest s.device })
unfolding washer_timer
washer_timer_idle c dest s h k = ground arith

-- A connected washing machine that finds an empty modifPayload at every call, whose pointer
-- `WAMA_timerS` has room for three bytes and whose cycle has started, sends 1 on WAMA/info,
-- reliably, at the next expiry of its timer, and at the one after that nothing more: the cycle is
-- over.
pub washer_timer-once :
    (c dest : ℕ) (s : Washer)
    → Works s
    → s.wama_timer ≡ 1
    → (p : Packet) × (t u : Washer) × (washer_timer true c dest s ≡ some t)
      × Carries p 1 1 (codes "WAMA/info") (codes "  1")
      × (t.device ≡ sent_by p c dest (start_ping_thread c dest s.device))
      × (washer_timer true c dest t ≡ some u)
      × (u.device.sent ≡ t.device.sent)
      × (u.wama_timer ≡ 0)
unfolding text digits
washer_timer-once c dest s h one =
    let (out, printed, reads, size, short) = sprintf_d_lem s.wama_timer_s 1 (omega arith) h.room in
    let k = start_ping_thread-Undisturbed c dest s.device in
    let d = start_ping_thread c dest s.device in
    let (p, sent, car) =
      publish-Emits c dest d (λ j. rw k.locals_eq (h.clean j)) true (lit "WAMA/info") out
        (codes "WAMA/info") (decimal 1) refl reads (omega arith) (omega arith) in
    let same = sent_by-Same p c dest d in
    let t = record s { device = sent_by p c dest d; wama_timer_s = out; wama_timer = 0 } in
    let after = start_ping_thread-Undisturbed c dest t.device in
    (
      p,
      t,
      record t { device = start_ping_thread c dest t.device },
      timer_reports c dest s h.connected one
          ∙ report_last c dest (record s { device = d }) out _ one printed sent,
      car,
      refl,
      washer_timer_idle c dest t (same.connected_eq ∙ k.connected_eq ∙ h.connected) refl,
      after.sent_eq,
      refl,
    )
