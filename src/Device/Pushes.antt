-- ===== src/Device/Pushes.antt =====
-- PUSH in handleMessage of SBVK.c and the pointer that getPushedINFO hands out.
use embedded_project_exam.Base.{
  ℕ, ◌≡◌, ◌≢◌, refl, ◌∙◌, ap, true, Option, some, List, [], arith, codes,
}
use embedded_project_exam.Protocol.{Packet, MessageType, of_code, get_message_type}
use embedded_project_exam.Protocol.Create.Laws.{Carries}
use embedded_project_exam.Topics.{Memory, Frame, store}
use embedded_project_exam.Device.{Device, emit, get_pushed_info}
use embedded_project_exam.Device.Handle.{dispatch, handle_message, handle_push}
use embedded_project_exam.Device.Fanout.{sent_by-Same}
use embedded_project_exam.Device.Keeps.{Keeps, IsFrame, Assigns, dispatch-Keeps}
use embedded_project_exam.Device.Sends.{sent_by, IsClean, push_ack-Emits}
use embedded_project_exam.Device.Accepts.{entered, entered-memory, note_ack-Same}

pub get_pushed_info_lem :
    (a : Option ℕ) (s : Device) → s.fresh ≡ true → s.pushed_info ≡ a → get_pushed_info s ≡ (a, s)
unfolding get_pushed_info
get_pushed_info_lem a s h k = ground arith

-- The state in which the acknowledgement of a push is sent.
abbrev pub noted : Packet → Frame → Device → Device
noted p f s = record (entered p f s) { pushed_info = some f.at; fresh = true }

-- A PUSH handled by SBVK.c, in a state with an empty modifPayload at every call, is answered with
-- a PUSHACK, and getPushedINFO then returns a pointer at the frame of the call, where the packet
-- lies, and changes nothing.
pub push-get_pushed_info :
    (p : Packet) (conn addr : ℕ) (f : Frame) (s : Device)
    → IsClean s
    → of_code p.mst ≡ some MessageType.push
    → (q : Packet) × (t : Device) × (handle_message p conn addr f s ≡ some t)
      × Carries q 13 0 [] (codes "  ")
      × (t ≡ sent_by q conn addr (noted p f s))
      × (get_pushed_info t ≡ (some f.at, t))
      × (t.memory f.at ≡ p)
unfolding handle_message get_message_type dispatch handle_push
push-get_pushed_info p conn addr f s c e =
    let kept = note_ack-Same p (record s { memory = store s.memory f.at p }) in
    let (q, run, k) = push_ack-Emits conn addr (noted p f s) (λ n. rw (kept.locals_eq) (c n)) in
    let same = sent_by-Same q conn addr (noted p f s) in
    (
      q,
      sent_by q conn addr (noted p f s),
      rw e run,
      k,
      refl,
      get_pushed_info_lem (some f.at) (sent_by q conn addr (noted p f s)) same.fresh_eq
          same.pushed_eq,
      ap (λ (m : Memory). m f.at) same.memory_eq ∙ entered-memory p f s,
    )

-- The pointer, its mark and the stack are as before.
record SamePush (s t : Device) : Type 0 where
  pushed_eq : t.pushed_info ≡ s.pushed_info
  fresh_eq : t.fresh ≡ s.fresh
  memory_eq : t.memory ≡ s.memory

emit-SamePush :
    (mst rel : ℕ) (option payload : List ℕ) (conn dest : ℕ) (s : Device)
    → Keeps SamePush (emit mst rel option payload conn dest s) s
unfolding emit
emit-SamePush mst rel option payload conn dest s t e = ground arith

SamePush-refl : (s : Device) → SamePush s s
SamePush-refl s = ground arith

SamePush-trans : (s t u : Device) → SamePush s t → SamePush t u → SamePush s u
SamePush-trans s t u h k = ground arith

SamePush-IsFrame : IsFrame SamePush
SamePush-IsFrame = record { stays = SamePush-refl; chains = SamePush-trans; sends = emit-SamePush }

pub get_pushed_info-some :
    (a : ℕ) (s t : Device)
    → get_pushed_info s ≡ (some a, t)
    → (s.fresh ≡ true) × (s.pushed_info ≡ some a)
unfolding get_pushed_info
get_pushed_info-some a s t g = ground arith

not_push :
    (l : Option MessageType) (p : Packet) (addr : ℕ) (f : Frame)
    → l ≢ some MessageType.push
    → Assigns SamePush l p addr f
not_push l p addr f other = record {
  connects = λ e s. ground arith;
  disconnects = λ e s. ground arith;
  unpings = λ e s. ground arith;
  pushed = λ e s. absurd (other e);
  subscribes = λ e s ts h. ground arith;
}

-- A message that is no push leaves the pointer and its mark as they are.
pub handle_message-not_push :
    (p : Packet) (conn addr : ℕ) (f : Frame) (s t : Device)
    → handle_message p conn addr f s ≡ some t
    → of_code p.mst ≢ some MessageType.push
    → (t.pushed_info ≡ s.pushed_info) × (t.memory ≡ store s.memory f.at p)
unfolding handle_message get_message_type
handle_message-not_push p conn addr f s t e other =
    let start = note_ack-Same p (record s { memory = store s.memory f.at p }) in
    let kept =
      dispatch-Keeps SamePush SamePush-IsFrame p conn addr f (of_code p.mst) (entered p f s)
        (not_push (of_code p.mst) p addr f other) t e in
    (kept.pushed_eq ∙ start.pushed_eq, kept.memory_eq ∙ start.memory_eq)

-- Where getPushedINFO returns a pointer at a frame and changes nothing, and handleMessage then
-- takes a message that is no PUSH in that frame without a fault, getPushedINFO returns the same
-- pointer again, and what it points at is the payload of that later message.
pub get_pushed_info-stale :
    (p : Packet) (conn addr : ℕ) (f : Frame) (s t : Device)
    → get_pushed_info s ≡ (some f.at, s)
    → handle_message p conn addr f s ≡ some t
    → of_code p.mst ≢ some MessageType.push
    → (get_pushed_info t ≡ (some f.at, t)) × ((t.memory f.at).payload ≡ p.payload)
unfolding handle_message get_message_type
get_pushed_info-stale p conn addr f s t g e other =
    let marked = get_pushed_info-some f.at s s g in
    let start = note_ack-Same p (record s { memory = store s.memory f.at p }) in
    let kept =
      dispatch-Keeps SamePush SamePush-IsFrame p conn addr f (of_code p.mst) (entered p f s)
        (not_push (of_code p.mst) p addr f other) t e in
    (
      get_pushed_info_lem (some f.at) t (kept.fresh_eq ∙ start.fresh_eq ∙ marked.0)
          (kept.pushed_eq ∙ start.pushed_eq ∙ marked.1),
      ap (λ (m : Memory). (m f.at).payload) kept.memory_eq
          ∙ ap (λ (q : Packet). q.payload) (entered-memory p f s),
    )
