-- ===== src/Sensor/Receives.antt =====
-- The start of the sensors' udp_rx_callback: it finishes, and what getPushedINFO points at afterwards is a text.
use embedded_project_exam.Base.{
  ℕ, ◌<◌, ◌≡◌, ◌≢◌, refl, sym, ◌∙◌, ap, subst, ◌⊎◌, inl, inr, Option, none, some, List, arith,
  length, ◌==◌, Bool-cases, Option-cases,
}
use mathlib.Core.Option.{some-injective}
use embedded_project_exam.CString.{text}
use embedded_project_exam.Protocol.{Packet, MessageType, of_code}
use embedded_project_exam.Protocol.Create.Laws.{Carries}
use embedded_project_exam.Protocol.Wire.{Layout, Padding, encode, decode}
use embedded_project_exam.Protocol.Wire.Laws.{Fills, decode-encode}
use embedded_project_exam.Topics.{Memory, Frame, store}
use embedded_project_exam.Device.{Device, get_pushed_info}
use embedded_project_exam.Device.Handle.{handle_message}
use embedded_project_exam.Device.Processes.{start_ping_thread}
use embedded_project_exam.Device.Accepts.{Ready, Fits, handle_message-Finishes}
use embedded_project_exam.Device.Pushes.{
  get_pushed_info-some, push-get_pushed_info, handle_message-not_push,
}
use embedded_project_exam.Sensor.{receive, pushed_text}

-- What getPushedINFO may point at is a text of a kind.
abbrev pub InformedBy : (List ℕ → Type 0) → Device → Type 0
InformedBy P s =
    (a : ℕ) → s.pushed_info ≡ some a → (v : List ℕ) × (text (s.memory a).payload ≡ some v) × P v

-- Any text.
abbrev pub IsAny : List ℕ → Type 0
IsAny v = Unit {0}

-- What a sensor needs to take a message.
pub record Listens (s : Device) : Type 0 where
  pub ready : Ready s
  pub informed : InformedBy IsAny s

store-text :
    (P : List ℕ → Type 0) (m : Memory) (b : ℕ) (p : Packet) (v : List ℕ) (a : ℕ)
    → text p.payload ≡ some v
    → P v
    → ((w : List ℕ) × (text (m a).payload ≡ some w) × P w)
    → (w : List ℕ) × (text (store m b p a).payload ≡ some w) × P w
store-text P m b p v a h kind (w, k, k') = elim (Bool-cases (b == a)) [
  | inl here ↦ (v, rw here h, kind)
  | inr there ↦ (w, rw there k, k')
]

pub is_push : (l : Option MessageType) → (l ≡ some MessageType.push) ⊎ (l ≢ some MessageType.push)
is_push (some MessageType.push) = inl refl
is_push other = inr (λ e. absurd (cc))

pointed :
    (P : List ℕ → Type 0) (p : Packet) (f : Frame) (v : List ℕ) (u : Device)
    → text p.payload ≡ some v
    → P v
    → get_pushed_info u ≡ (some f.at, u)
    → u.memory f.at ≡ p
    → InformedBy P u
pointed P p f v u h kind got stored a at =
    let marked = get_pushed_info-some f.at u u got in
    let here : f.at ≡ a = some-injective _ _ (sym marked.1 ∙ at) in
    (v, subst (λ (b : ℕ). text (u.memory b).payload ≡ some v) here (rw stored h), kind)

handle_message-InformedBy :
    (P : List ℕ → Type 0) (p : Packet) (c addr : ℕ) (f : Frame) (o v : List ℕ) (s t : Device)
    → Fits p o v
    → P v
    → Ready s
    → InformedBy P s
    → handle_message p c addr f s ≡ some t
    → InformedBy P t
handle_message-InformedBy P p c addr f o v s t fit kind h k e a at =
    elim (is_push (of_code p.mst)) [
      | inr other ↦
          let (same, mem) = handle_message-not_push p c addr f s t e other in
          rw mem (store-text P s.memory f.at p v a fit.payload_text kind (k a (sym same ∙ at)))
      | inl push ↦
          let (q, u, run, car, u_eq, got, stored) =
            push-get_pushed_info p c addr f s h.clean push in
          let same : u ≡ t = some-injective _ _ (sym run ∙ e) in
          subst (InformedBy P) same (pointed P p f v u fit.payload_text kind got stored) a at
    ]

-- What startPingThread leaves alone.
pub record Undisturbed (s t : Device) : Type 0 where
  pub locals_eq : t.locals ≡ s.locals
  pub memory_eq : t.memory ≡ s.memory
  pub topics_eq : t.topics ≡ s.topics
  pub pushed_eq : t.pushed_info ≡ s.pushed_info
  pub fresh_eq : t.fresh ≡ s.fresh
  pub connected_eq : t.connected ≡ s.connected
  pub sent_eq : t.sent ≡ s.sent
  pub ack_rcv_eq : t.ack_rcv ≡ s.ack_rcv
  pub wanted_eq : t.ack_type_wanted ≡ s.ack_type_wanted

pub start_ping_thread-Undisturbed :
    (c dest : ℕ) (s : Device) → Undisturbed s (start_ping_thread c dest s)
unfolding start_ping_thread
start_ping_thread-Undisturbed c dest s = ground arith

Undisturbed-Listens : (s t : Device) → Undisturbed s t → Listens s → Listens t
Undisturbed-Listens s t k h = record {
  ready = record {
    clean = λ n. rw k.locals_eq (h.ready.clean n);
    named = rw (k.memory_eq, k.topics_eq) h.ready.named;
  };
  informed = λ a at. rw k.memory_eq (h.informed a (sym k.pushed_eq ∙ at));
}

pub start_ping-Listens :
    (c dest : ℕ) (s : Device) → Listens s → Listens (start_ping_thread c dest s)
start_ping-Listens c dest s h = Undisturbed-Listens s _ (start_ping_thread-Undisturbed c dest s) h

-- A mote handles any packet of this form, and is ready for the next.
pub receive-Listens :
    (layout : Layout) (c addr : ℕ) (bytes : List ℕ) (f : Frame) (p : Packet) (o v : List ℕ)
    (s : Device)
    → decode layout bytes ≡ some p
    → Fits p o v
    → Listens s
    → (t : Device) × (receive layout c addr bytes f s ≡ some t) × Listens t
unfolding receive
receive-Listens layout c addr bytes f p o v s read fit h =
    let k = start_ping-Listens c addr s h in
    let (t, run, r) =
      handle_message-Finishes p c addr f o v (start_ping_thread c addr s) fit k.ready in
    (
      t,
      rw read run,
      record {
        ready = r;
        informed =
            handle_message-InformedBy IsAny p c addr f o v (start_ping_thread c addr s) t fit tt
              k.ready k.informed run;
      },
    )

pub pushed_at :
    (a : ℕ) (b : List ℕ) (u : Device)
    → get_pushed_info u ≡ (some a, u)
    → (u.memory a).payload ≡ b
    → pushed_text u ≡ some b
unfolding pushed_text get_pushed_info
pushed_at a b u got stored =
    let (fresh, at) = get_pushed_info-some a u u got in ground (arith, fresh, at, stored)

-- After a PUSH it is the payload.
pub receive-push :
    (layout : Layout) (c addr : ℕ) (bytes : List ℕ) (f : Frame) (p : Packet) (s t : Device)
    → decode layout bytes ≡ some p
    → of_code p.mst ≡ some MessageType.push
    → Listens s
    → receive layout c addr bytes f s ≡ some t
    → pushed_text t ≡ some p.payload
unfolding receive pushed_text
receive-push layout c addr bytes f p s t read push h e =
    let k = start_ping-Listens c addr s h in
    let (q, u, run, car, u_eq, got, stored) =
      push-get_pushed_info p c addr f (start_ping_thread c addr s) k.ready.clean push in
    let same : u ≡ t = some-injective _ _ (sym run ∙ rw read at e) in
    subst (λ (w : Device). pushed_text w ≡ some p.payload) same
      (pushed_at f.at p.payload u got (ap (λ (q : Packet). q.payload) stored))

-- Whatever it is, it is a text of the kind.
pub pushed_text-text :
    (P : List ℕ → Type 0) (s : Device)
    → InformedBy P s
    → (pushed_text s ≡ none) ⊎ ((a v : List ℕ) × (pushed_text s ≡ some a) × (text a ≡ some v) × P v)
unfolding pushed_text get_pushed_info
pushed_text-text P s h = elim (Bool-cases s.fresh) [
  | inr stale ↦ inl (rw stale refl)
  | inl fresh ↦ elim (Option-cases s.pushed_info) [
    | inl null ↦ inl (rw (fresh, null) refl)
    | inr (a, at) ↦
        let (v, k, kind) = h a at in inr ((s.memory a).payload, v, rw (fresh, at) refl, k, kind)
  ]
]

-- The kind stays, on messages of it.
pub receive-InformedBy :
    (P : List ℕ → Type 0) (layout : Layout) (c addr : ℕ) (bytes : List ℕ) (f : Frame) (p : Packet)
    (o v : List ℕ) (s t : Device)
    → decode layout bytes ≡ some p
    → Fits p o v
    → P v
    → Ready s
    → InformedBy P s
    → receive layout c addr bytes f s ≡ some t
    → InformedBy P t
unfolding receive
receive-InformedBy P layout c addr bytes f p o v s t read fit kind h k e =
    let same = start_ping_thread-Undisturbed c addr s in
    handle_message-InformedBy P p c addr f o v (start_ping_thread c addr s) t fit kind
      (record {
        clean = λ n. rw same.locals_eq (h.clean n);
        named = rw (same.memory_eq, same.topics_eq) h.named;
      })
      (λ a at. rw same.memory_eq (k a (sym same.pushed_eq ∙ at))) (rw read at e)

-- A packet that createPacket made is read as it was sent, and has the form that handleMessage needs.
pub decode-Carries :
    (layout : Layout) (pad : Padding) (q : Packet) (mst r : ℕ) (o v : List ℕ)
    → Fills layout pad
    → mst < 16
    → r < 2
    → Carries q mst r o v
    → decode layout (encode pad q) ≡ some q
decode-Carries layout pad q mst r o v fills bits bit car =
    decode-encode layout pad q fills (record {
      mst_bits = omega (arith, car.mst_eq);
      rel_bit = omega (arith, car.rel_eq);
      option_size = car.option_stored.size;
      payload_size = car.payload_stored.size;
    })

pub Carries-Fits :
    (q : Packet) (mst r : ℕ) (o v : List ℕ)
    → Carries q mst r o v
    → length o < 20
    → length v < 48
    → Fits q o v
Carries-Fits q mst r o v car lo lv = record {
  option_text = car.option_stored.content;
  payload_text = car.payload_stored.content;
  option_fits = lo;
  payload_fits = lv;
}
