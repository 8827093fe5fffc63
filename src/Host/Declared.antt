-- ===== src/Host/Declared.antt =====
-- The messages on which handleMessage of ControlServer/SBVK_broker.c stays within the ten slots that the topic
-- table is declared with.
use embedded_project_exam.Base.{
  ℕ, ◌≡◌, ◌≢◌, ◌≤◌, refl, sym, ◌∙◌, ap, Bool, true, false, Option, some, List, [], ◌∷◌, ◌++◌, arith,
  length, take, inl, inr, Bool-cases, Option-cases, ◌==◌, ◌>>=◌, if◌then◌else◌,
}
use embedded_project_exam.CString.{lit, strcmp}
use embedded_project_exam.Protocol.{Packet, MessageType, of_code}
use embedded_project_exam.Protocol.Create.{create_packet}
use embedded_project_exam.Topics.{Topic, Frame, store, matches}
use embedded_project_exam.Topics.Spec.{WellNamed}
use embedded_project_exam.Topics.Loops
use embedded_project_exam.Host.{Host, send_packet, emit}
use embedded_project_exam.Host.Messages.{hello, send_connect, conn_ack, pub_ack, push, pingresp}
use embedded_project_exam.Host.Handle.{
  get_message_type, push_message, note_ack, handle_hello, handle_publish, dispatch, handle_message,
}
use embedded_project_exam.Host.Sends.{IsClean}
use embedded_project_exam.Host.Relay.{Fits}
use embedded_project_exam.Host.Accepts.{handle_message_total}

-- The outcome, with another table.
abbrev pub with_table : List Topic → Option Host → Option Host
with_table ts r = r >>= λ t. some (record t { topics = ts })

-- A step that is the same with any table.
abbrev Blind : (Host → Option Host) → Type 0
Blind step = (s : Host) (ts : List Topic) → step (record s { topics = ts }) ≡ with_table ts (step s)

send_packet-table :
    (sock : ℕ) (p : Packet) (dest : ℕ) (s : Host) (ts : List Topic)
    → send_packet sock p dest (record s { topics = ts })
      ≡ record (send_packet sock p dest s) { topics = ts }
unfolding send_packet
send_packet-table sock p dest s ts = elim (Bool-cases (p.rel == 0)) [
  | inl e ↦ rw e refl
  | inr e ↦ rw e refl
]

emit-Blind :
    (mst rel : ℕ) (option payload : List ℕ) (sock dest : ℕ)
    → Blind (emit mst rel option payload sock dest)
unfolding emit
emit-Blind mst rel option payload sock dest s ts =
    elim (Option-cases (create_packet (s.locals s.calls) mst rel option payload)) [
      | inl e ↦ rw e refl
      | inr (p, e) ↦ rw e (ap some (send_packet-table sock p dest _ ts))
    ]

emit-topics :
    (mst rel : ℕ) (option payload : List ℕ) (sock dest : ℕ) (s t : Host)
    → emit mst rel option payload sock dest s ≡ some t
    → t.topics ≡ s.topics
unfolding emit
emit-topics mst rel option payload sock dest s t e = ground arith

hello-Blind : (sock dest : ℕ) (init : Bool) → Blind (hello sock dest init)
unfolding hello
hello-Blind sock dest true = emit-Blind _ _ _ _ sock dest
hello-Blind sock dest false = emit-Blind _ _ _ _ sock dest

handle_hello-Blind : (p : Packet) (sock addr : ℕ) → Blind (handle_hello p sock addr)
unfolding handle_hello send_connect
handle_hello-Blind p sock addr s ts = elim (Option-cases (strcmp p.header_option (lit "init"))) [
  | inl e ↦ rw e refl
  | inr (true, e) ↦ rw e (hello-Blind sock addr false s ts)
  | inr (false, e) ↦ rw e (emit-Blind _ _ _ _ sock addr s ts)
]

push-Blind :
    (sock ip : ℕ) (command : Bool) (topicname value : List ℕ)
    → Blind (push sock ip command topicname value)
unfolding push
push-Blind sock ip true topicname value = emit-Blind _ _ _ _ sock ip
push-Blind sock ip false topicname value = emit-Blind _ _ _ _ sock ip

-- Steps in a row.
bind-Blind :
    (first next : Host → Option Host) → Blind first → Blind next → Blind (λ s. first s >>= next)
bind-Blind first next h k s ts = elim (Option-cases (first s)) [
  | inl e ↦ rw (h s ts, e) refl
  | inr (t, e) ↦ rw (h s ts, e) (k t ts)
]

push_each-Blind :
    (p : Packet) (sock : ℕ) (ips : List ℕ)
    → Blind (Loops.push_each (λ h. h.memory) (push_message p sock) ips)
unfolding Loops.push_each push_message
push_each-Blind p sock [] s ts = refl
push_each-Blind p sock (ip ∷ ips) s ts =
    bind-Blind (push_message p sock ip) (Loops.push_each (λ h. h.memory) (push_message p sock) ips)
      (push-Blind sock ip _ _ _) (push_each-Blind p sock ips) s ts

if-Blind :
    (b : Bool) (step : Host → Option Host) → Blind step → Blind (λ s. if b then step s else some s)
if-Blind true step h s ts = h s ts
if-Blind false step h s ts = refl

forward-Blind :
    (p : Packet) (sock : ℕ) (xs : List Topic)
    → Blind (Loops.forward (λ h. h.memory) (push_message p sock) p.header_option xs)
unfolding Loops.forward
forward-Blind p sock [] s ts = refl
forward-Blind p sock (x ∷ xs) s ts = elim (Option-cases (matches s.memory p.header_option x)) [
  | inl e ↦ rw e refl
  | inr (hit, e) ↦ rw e (
      bind-Blind
        (λ s. if hit then Loops.push_each (λ h. h.memory) (push_message p sock) x.ips s else some s)
        (Loops.forward (λ h. h.memory) (push_message p sock) p.header_option xs)
        (if-Blind hit (Loops.push_each (λ h. h.memory) (push_message p sock) x.ips)
          (push_each-Blind p sock x.ips))
        (forward-Blind p sock xs) s ts)
]

-- PUBLISH looks at the first two slots.
handle_publish-table :
    (p : Packet) (sock addr : ℕ) (s : Host) (ts : List Topic)
    → take 2 ts ≡ take 2 s.topics
    → handle_publish p sock addr (record s { topics = ts })
      ≡ with_table ts (handle_publish p sock addr s)
unfolding handle_publish pub_ack
handle_publish-table p sock addr s ts same = elim (Bool-cases (p.rel == 1)) [
  | inr e ↦ rw (e, same) (forward-Blind p sock (take 2 s.topics) s ts)
  | inl e ↦ elim (Option-cases (pub_ack sock addr s)) [
    | inl n ↦ rw (e, emit-Blind _ _ _ _ sock addr s ts, n) refl
    | inr (t, acked) ↦
        let kept = emit-topics _ _ _ _ sock addr s t acked in
        rw (e, emit-Blind _ _ _ _ sock addr s ts, acked, same ∙ ap (take 2) (sym kept))
          (forward-Blind p sock (take 2 t.topics) t ts)
  ]
]

note_ack-table :
    (p : Packet) (s : Host) (ts : List Topic)
    → note_ack p (record s { topics = ts }) ≡ record (note_ack p s) { topics = ts }
unfolding note_ack
note_ack-table p s ts = ground arith

note_ack-topics : (p : Packet) (s : Host) → (note_ack p s).topics ≡ s.topics
unfolding note_ack
note_ack-topics p s = ground arith

dispatch-table :
    (l : Option MessageType) (p : Packet) (sock addr : ℕ) (f : Frame)
    → l ≢ some MessageType.subscribe
    → (s : Host) (ts : List Topic) → take 2 ts ≡ take 2 s.topics
    → dispatch l p sock addr f (record s { topics = ts })
      ≡ with_table ts (dispatch l p sock addr f s)
unfolding dispatch conn_ack pingresp
dispatch-table (some MessageType.hello) p sock addr f ns s ts same =
    handle_hello-Blind p sock addr s ts
dispatch-table (some MessageType.publish) p sock addr f ns s ts same =
    handle_publish-table p sock addr s ts same
dispatch-table (some MessageType.subscribe) p sock addr f ns s ts same = absurd (ns refl)
dispatch-table (some MessageType.connect) p sock addr f ns s ts same =
    emit-Blind _ _ _ _ sock addr s ts
dispatch-table (some MessageType.pingreq) p sock addr f ns s ts same =
    emit-Blind _ _ _ _ sock addr s ts
dispatch-table other p sock addr f ns s ts same = refl

handle_message-table :
    (p : Packet) (sock addr : ℕ) (f : Frame)
    → of_code p.mst ≢ some MessageType.subscribe
    → (s : Host) (ts : List Topic) → take 2 ts ≡ take 2 s.topics
    → handle_message p sock addr f (record s { topics = ts })
      ≡ with_table ts (handle_message p sock addr f s)
unfolding handle_message get_message_type
handle_message-table p sock addr f ns s ts same =
    let u = record s { memory = store s.memory f.at p } in
    ap (dispatch (of_code p.mst) p sock addr f) (note_ack-table p u ts)
    ∙ dispatch-table (of_code p.mst) p sock addr f ns (note_ack p u) ts
        (same ∙ ap (take 2) (sym (note_ack-topics p u)))

take_front : (ts rest : List Topic) → 2 ≤ length ts → take 2 (ts ++ rest) ≡ take 2 ts
take_front [] rest h = absurd (omega arith)
take_front (t ∷ []) rest h = absurd (omega arith)
take_front (t ∷ u ∷ ts) rest h = refl

-- On a packet whose arrays hold texts of at most 19 and 47 bytes and whose message is not
-- SUBSCRIBE, from a state in which createPacket finds its modifPayload empty at every call and the
-- names in the ten slots that `topics` is declared with point at texts, handleMessage of
-- ControlServer/SBVK_broker.c runs without a fault; it does the same whatever lies behind the ten
-- slots, so it looks at none there, and it leaves the table as it is; createPacket finds its
-- modifPayload empty again afterwards.
pub handle_message-declared :
    (p : Packet) (sock addr : ℕ) (f : Frame) (o v : List ℕ) (s : Host) (ts : List Topic)
    → Fits p o v
    → IsClean s
    → length ts ≡ 10
    → WellNamed s.memory ts
    → of_code p.mst ≢ some MessageType.subscribe
    → (t : Host) × IsClean t
      × ((rest : List Topic)
          → handle_message p sock addr f (record s { topics = ts ++ rest })
            ≡ some (record t { topics = ts ++ rest }))
handle_message-declared p sock addr f o v s ts fit clean size named ns =
    let (t, run, h) =
      handle_message_total p sock addr f o v fit (record s { topics = ts })
        (record { clean = clean; named = named }) in
    (
      t,
      h.clean,
      λ rest.
          handle_message-table p sock addr f ns (record s { topics = ts }) (ts ++ rest)
            (take_front ts rest (omega (arith, size)))
          ∙ ap (with_table (ts ++ rest)) run,
    )
