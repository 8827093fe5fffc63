-- ===== src/Sensor/Life/Hears.antt =====
-- What a mote of Sensors/ reads through getPushedINFO, where all its messages lie in one stack frame.
use embedded_project_exam.Base.{
  ℕ, ◌≡◌, ◌≢◌, refl, sym, ◌∙◌, ap, subst, ◌⊎◌, inl, inr, Bool, true, false, Option, none, some,
  List, [], ◌++◌, if◌then◌else◌, arith, ◌||◌,
}
use mathlib.Core.Option.{some-injective}
use embedded_project_exam.Protocol.{Packet, MessageType, of_code}
use embedded_project_exam.Protocol.Wire.{Layout, decode}
use embedded_project_exam.Topics.{Frame}
use embedded_project_exam.Device.{Device, get_pushed_info}
use embedded_project_exam.Device.Processes.{start_ping_thread}
use embedded_project_exam.Device.Handle.{handle_message}
use embedded_project_exam.Device.Sends.{IsClean}
use embedded_project_exam.Device.Pushes.{
  push-get_pushed_info, get_pushed_info_lem, get_pushed_info-some, get_pushed_info-stale,
  handle_message-not_push,
}
use embedded_project_exam.Sensor.{Reaction, receive, pushed_text}
use embedded_project_exam.Sensor.Life.{Happening, arrives, IsUsual}
use embedded_project_exam.Sensor.Receives.{pushed_at}
use embedded_project_exam.Sensor.Life.Steady.{Steady, start_ping_thread-Steady}
use embedded_project_exam.Sensor.Life.Untouched.{Untouched, start_ping_thread-Untouched}

abbrev pub is_push_type : Option MessageType → Bool
is_push_type (some MessageType.push) = true
is_push_type _ = false

abbrev pub is_push : Packet → Bool
is_push p = is_push_type (of_code p.mst)

is_push_type-cases :
    (l : Option MessageType)
    → ((l ≡ some MessageType.push) × (is_push_type l ≡ true))
      ⊎ ((l ≢ some MessageType.push) × (is_push_type l ≡ false))
is_push_type-cases (some MessageType.push) = inl (refl, refl)
is_push_type-cases other = inr ((λ e. absurd (cc)), refl)

-- Whether there was a PUSH: then getPushedINFO points at the frame.
abbrev pub Tells : ℕ → Bool → Device → Type 0
Tells a true u = get_pushed_info u ≡ (some a, u)
Tells a false u = u.pushed_info ≡ none

-- What the callback then reads.
abbrev pub reading : Bool → List ℕ → Option (List ℕ)
reading b payload = if b then some payload else none

-- Both, after a packet.
abbrev pub Told : ℕ → Bool → Packet → Device → Type 0
Told a b p t = Tells a b t × (pushed_text t ≡ reading b p.payload)

pub Untouched-Tells : (a : ℕ) (b : Bool) (s t : Device) → Untouched s t → Tells a b s → Tells a b t
Untouched-Tells a false s t k h = k.pushed_eq ∙ h
Untouched-Tells a true s t k h =
    let marked = get_pushed_info-some a s s h in
    get_pushed_info_lem (some a) t (k.fresh_eq ∙ marked.0) (k.pushed_eq ∙ marked.1)

pushed_none : (u : Device) → u.pushed_info ≡ none → pushed_text u ≡ none
unfolding pushed_text get_pushed_info
pushed_none u h = ground (arith, h)

push-Told :
    (p : Packet) (c addr : ℕ) (f : Frame) (u t : Device)
    → IsClean u
    → of_code p.mst ≡ some MessageType.push
    → handle_message p c addr f u ≡ some t
    → Told f.at true p t
push-Told p c addr f u t clean push run =
    let (q, w, ran, car, w_eq, got, stored) = push-get_pushed_info p c addr f u clean push in
    subst (Told f.at true p) (some-injective _ _ (sym ran ∙ run))
      (got, pushed_at f.at p.payload w got (ap (λ (q : Packet). q.payload) stored))

not_push-Told :
    (b : Bool) (p : Packet) (c addr : ℕ) (f : Frame) (u t : Device)
    → of_code p.mst ≢ some MessageType.push
    → handle_message p c addr f u ≡ some t
    → Tells f.at b u
    → Told f.at b p t
not_push-Told true p c addr f u t other run h =
    let (got, stored) = get_pushed_info-stale p c addr f u t h run other in
    (got, pushed_at f.at p.payload t got stored)
not_push-Told false p c addr f u t other run h =
    let (same, stored) = handle_message-not_push p c addr f u t run other in
    (same ∙ h, pushed_none t (same ∙ h))

or_false : (b : Bool) → (b || false) ≡ b
or_false true = refl
or_false false = refl

or_true : (b : Bool) → (b || true) ≡ true
or_true true = refl
or_true false = refl

handle_message-Told :
    (b : Bool) (p : Packet) (c addr : ℕ) (f : Frame) (u t : Device)
    → IsClean u
    → handle_message p c addr f u ≡ some t
    → Tells f.at b u
    → Told f.at (b || is_push p) p t
handle_message-Told b p c addr f u t clean run h = elim (is_push_type-cases (of_code p.mst)) [
  | inl (push, is) ↦
      subst (λ (w : Bool). Told f.at w p t) (sym (ap (λ (w : Bool). b || w) is ∙ or_true b))
        (push-Told p c addr f u t clean push run)
  | inr (other, isnt) ↦
      subst (λ (w : Bool). Told f.at w p t) (sym (ap (λ (w : Bool). b || w) isnt ∙ or_false b))
        (not_push-Told b p c addr f u t other run h)
]

pub receive-Told :
    (P : List ℕ → Type 0) (layout : Layout) (c addr : ℕ) (bytes : List ℕ) (f : Frame) (p : Packet)
    (b : Bool) (s t : Device)
    → decode layout bytes ≡ some p
    → Steady P s
    → receive layout c addr bytes f s ≡ some t
    → Tells f.at b s
    → Told f.at (b || is_push p) p t
unfolding receive
receive-Told P layout c addr bytes f p b s t read k run h =
    let u = start_ping_thread c addr s in
    handle_message-Told b p c addr f u t (start_ping_thread-Steady P c addr s k).ready.clean
      (rw read at run) (Untouched-Tells f.at b s u (start_ping_thread-Untouched c addr s) h)

-- What an observer knows: whether there was a PUSH, and what the mote did, newest first.
pub record Ear : Type 0 where
  pub heard : Bool
  pub log : List Reaction

-- From the first PUSH on, the payload of every packet counts, of whatever type it is.
unfoldable pub listen : (List ℕ → List Reaction) → Packet → List ℕ → Ear → Ear
listen act p v x =
    let heard = x.heard || is_push p in
    record { heard = heard; log = (if heard then act v else []) ++ x.log }

-- A packet as in a life with texts of a kind, in the one frame.
abbrev pub IsThere : (List ℕ → Type 0) → ℕ → Layout → Happening → Type 0
IsThere P a layout (arrives bytes addr f p o v) =
    IsUsual P layout (arrives bytes addr f p o v) × (f.at ≡ a)
IsThere P a layout _ = Unit {0}
