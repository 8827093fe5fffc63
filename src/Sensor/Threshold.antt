-- ===== src/Sensor/Threshold.antt =====
-- When the alarm of Sensors/alarm/sensor.c goes off.
use embedded_project_exam.Base.{
  ℕ, ◌≤◌, ◌<◌, ◌≡◌, refl, some, List, [], ◌∷◌, ◌++◌, arith, length, replicate, leb, if◌then◌else◌,
}
use embedded_project_exam.CString.{text}
use embedded_project_exam.CString.Numbers.{decimal, int_max}
use embedded_project_exam.CString.Decimal.{atoi-decimal}
use embedded_project_exam.Protocol.{Packet, of_code}
use embedded_project_exam.Protocol.Create.Laws.{Carries}
use embedded_project_exam.Protocol.Wire.{Layout, Padding, encode}
use embedded_project_exam.Protocol.Wire.Laws.{Fills}
use embedded_project_exam.Topics.{Frame}
use embedded_project_exam.Sensor.{Reaction, alarm_on}
use embedded_project_exam.Sensor.Alarm.{Alarm, check_value, alarm_callback}
use embedded_project_exam.Sensor.Receives.{
  Listens, receive-Listens, receive-push, decode-Carries, Carries-Fits,
}

-- The alarm by the number that it reads.
abbrev pub bell : ℕ → List Reaction
bell n = if leb 10 n then alarm_on ∷ [] else []

pub check_value-bell :
    (k n : ℕ) (info : List ℕ)
    → text info ≡ some (replicate k 32 ++ decimal n)
    → n ≤ int_max
    → check_value info ≡ some (bell n)
unfolding check_value
check_value-bell k n info h fits = rw (atoi-decimal k n info h fits)

-- An alarm that is fit to take a message, on a PUSH of its layout whose payload is the decimal
-- number n, at most 32767, behind any number of spaces, in at most 47 bytes, runs without a fault,
-- goes off exactly if n is 10 or more, and is fit for the next message.
pub alarm_callback-bell :
    (layout : Layout) (pad : Padding) (c addr r k n : ℕ) (f : Frame) (q : Packet) (o : List ℕ)
    (s : Alarm)
    → Fills layout pad
    → r < 2
    → Carries q 12 r o (replicate k 32 ++ decimal n)
    → length o < 20
    → length (replicate k 32 ++ decimal n) < 48
    → n ≤ int_max
    → Listens s.device
    → (t : Alarm) × (alarm_callback layout c addr (encode pad q) f s ≡ some t)
      × (t.log ≡ bell n ++ s.log)
      × Listens t.device
unfolding alarm_callback of_code
alarm_callback-bell layout pad c addr r k n f q o s fills bit car lo lv fits h =
    let read = decode-Carries layout pad q 12 r o _ fills (omega arith) bit car in
    let (d, run, l) =
      receive-Listens layout c addr (encode pad q) f q o _ s.device read
        (Carries-Fits q 12 r o _ car lo lv) h in
    let seen =
      receive-push layout c addr (encode pad q) f q s.device d read (rw car.mst_eq) h run in
    (
      record { device = d; log = bell n ++ s.log },
      rw (run, seen, check_value-bell k n q.payload car.payload_stored.content fits),
      refl,
      l,
    )
