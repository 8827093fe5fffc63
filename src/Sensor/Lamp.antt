-- ===== src/Sensor/Lamp.antt =====
-- What makes the lamp of Sensors/light/sensor.c switch, and that nothing a broker relays does.
use embedded_project_exam.Base.{
  ℕ, ◌<◌, ◌≡◌, refl, ◌⊎◌, inl, inr, Option, none, some, List, [], ◌∷◌, ◌++◌, arith, length, codes,
  if◌then◌else◌,
}
use embedded_project_exam.CString.{lit, text}
use embedded_project_exam.CString.Laws.{same, strcmp-same}
use embedded_project_exam.Protocol.{Packet, MessageType, of_code}
use embedded_project_exam.Protocol.Create.Laws.{Carries}
use embedded_project_exam.Protocol.Wire.{Layout, Padding, encode, decode}
use embedded_project_exam.Protocol.Wire.Laws.{Fills}
use embedded_project_exam.Topics.{Frame}
use embedded_project_exam.Device.Accepts.{Fits}
use embedded_project_exam.Sensor.{Reaction, light_on, light_off, pushed_text}
use embedded_project_exam.Sensor.Light.{Light, switch_light, answer_light, light_callback}
use embedded_project_exam.Sensor.Receives.{
  Listens, IsAny, receive-Listens, receive-push, pushed_text-text, decode-Carries, Carries-Fits,
}

-- The lamp by the text that it reads.
abbrev pub lamp : List ℕ → List Reaction
lamp v =
    if same v (codes "ON")
    then light_on ∷ []
    else if same v (codes "OFF")
    then light_off ∷ []
    else []

pub switch_light-lamp : (info v : List ℕ) → text info ≡ some v → switch_light info ≡ some (lamp v)
unfolding switch_light text
switch_light-lamp info v h = ground (
  arith,
  strcmp-same info (lit "ON") v (codes "ON") h refl,
  strcmp-same info (lit "OFF") v (codes "OFF") h refl,
)

answer_total :
    (b : Option (List ℕ))
    → (b ≡ none) ⊎ ((a v : List ℕ) × (b ≡ some a) × (text a ≡ some v) × IsAny v)
    → (r : List Reaction) × (answer_light b ≡ some r)
answer_total b (inl e) = ([], rw e refl)
answer_total b (inr (a, v, e, h, _)) = (lamp v, rw e (switch_light-lamp a v h))

pub light_callback-Listens :
    (layout : Layout) (c addr : ℕ) (bytes : List ℕ) (f : Frame) (p : Packet) (o v : List ℕ)
    (s : Light)
    → decode layout bytes ≡ some p
    → Fits p o v
    → Listens s.device
    → (t : Light) × (light_callback layout c addr bytes f s ≡ some t) × Listens t.device
unfolding light_callback
light_callback-Listens layout c addr bytes f p o v s read fit h =
    let (d, run, k) = receive-Listens layout c addr bytes f p o v s.device read fit h in
    let (r, e) = answer_total (pushed_text d) (pushed_text-text IsAny d k.informed) in
    (record { device = d; log = r ++ s.log }, rw (run, e), k)

-- A lamp that is fit to take a message, on bytes that it reads as a PUSH with texts of at most 19
-- and 47 bytes, runs without a fault and switches on exactly if the payload's text is ON, off
-- exactly if it is OFF, and else does nothing.
pub light_callback-lamp :
    (layout : Layout) (c addr : ℕ) (bytes : List ℕ) (f : Frame) (p : Packet) (o v : List ℕ)
    (s : Light)
    → decode layout bytes ≡ some p
    → of_code p.mst ≡ some MessageType.push
    → Fits p o v
    → Listens s.device
    → (t : Light) × (light_callback layout c addr bytes f s ≡ some t) × (t.log ≡ lamp v ++ s.log)
unfolding light_callback
light_callback-lamp layout c addr bytes f p o v s read push fit h =
    let (d, run, k) = receive-Listens layout c addr bytes f p o v s.device read fit h in
    let seen = receive-push layout c addr bytes f p s.device d read push h run in
    (
      record { device = d; log = lamp v ++ s.log },
      rw (run, seen, switch_light-lamp p.payload v fit.payload_text),
      refl,
    )

-- A PUSH with a text of at most 47 bytes that starts with the two spaces that createPacket puts
-- before every payload, sent by a machine of the same layout to a lamp that is fit to take it, is
-- taken without a fault and never switches the lamp, whatever follows the spaces.
pub light_callback-silent :
    (layout : Layout) (pad : Padding) (c addr r : ℕ) (f : Frame) (q : Packet) (o v : List ℕ)
    (s : Light)
    → Fills layout pad
    → r < 2
    → Carries q 12 r o (codes "  " ++ v)
    → length o < 20
    → length v < 46
    → Listens s.device
    → (t : Light) × (light_callback layout c addr (encode pad q) f s ≡ some t) × (t.log ≡ s.log)
unfolding of_code
light_callback-silent layout pad c addr r f q o v s fills bit car lo lv h =
    light_callback-lamp layout c addr (encode pad q) f q o (codes "  " ++ v) s
      (decode-Carries layout pad q 12 r o _ fills (omega arith) bit car) (rw car.mst_eq)
      (Carries-Fits q 12 r o _ car lo (omega arith)) h
