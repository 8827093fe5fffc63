-- ===== src/Server/Sizes.antt =====
-- The sizes that C declares for the state of ControlServer/BrokerAndControlServer.c, in every interleaving of its
-- threads.
use embedded_project_exam.Base.{
  ◌≤◌, if◌then◌else◌, ℕ, ◌≡◌, refl, sym, subst, ap, ◌∙◌, false, none, some, List, [], ◌∷◌, ◌++◌,
  arith, length, take, drop, leb, ◌==◌, lengths, Option-cases, Bool-cases, inl, inr,
}
use mathlib.Core.Option.{some-injective}
use embedded_project_exam.Protocol.{Packet}
use embedded_project_exam.Protocol.Create.{create_packet}
use embedded_project_exam.Protocol.Create.Sizes.{Sized, create_packet-IsPacket}
use embedded_project_exam.Protocol.Wire.{Layout}
use embedded_project_exam.Protocol.Wire.Laws.{IsPacket}
use embedded_project_exam.Topics.{Topic, Memory, Frame, subscribe_topic, enroll}
use embedded_project_exam.Topics.Laws.{slot_of, enroll-unchanged, length-claim_slot}
use embedded_project_exam.Host
use embedded_project_exam.Host.{Host, make, emit, send_packet}
use embedded_project_exam.Host.Handle.{note_ack}
use embedded_project_exam.Host.Threads.{thread_ack_wakes}
use embedded_project_exam.Host.Accepts.{entered}
use embedded_project_exam.Host.Keeps.{Keeps}
use embedded_project_exam.Server.{Server}
use embedded_project_exam.Server.Menu.{call_menu}
use embedded_project_exam.Server.Receive.{recvfrom, receive_udp, maxline}
use embedded_project_exam.Server.Typed.{
  Typed, at_main, again, back, commands, messages-Typed, command-inv, receive_udp-Received,
  receive_udp-closed,
}
use embedded_project_exam.Server.Interleavings.{
  Step, receives, types, wakes, Reach, here, next, IsKept, Reach_kept,
}

abbrev pub AllPackets : List Host.Sent → Type 0
AllPackets [] = Unit {0}
AllPackets (x ∷ xs) = IsPacket x.packet × AllPackets xs

-- Slots, the arrays that createPacket finds, the packet to send again and all packets that were sent.
pub record IsLaidOut (s : Host) : Type 0 where
  pub slots : length s.topics ≡ 11
  pub sized : (n : ℕ) → Sized (s.locals n)
  pub resends : IsPacket s.packet_ack
  pub sends : AllPackets s.sent

send_packet-IsLaidOut :
    (sock : ℕ) (p : Packet) (dest : ℕ) (s : Host)
    → IsPacket p
    → IsLaidOut s
    → IsLaidOut (send_packet sock p dest s)
unfolding send_packet
send_packet-IsLaidOut sock p dest s is h = elim (Bool-cases (p.rel == 0)) [
  | inl e ↦ rw e (ground arith)
  | inr e ↦ rw e (ground arith)
]

make-IsLaidOut :
    (mst rel : ℕ) (option payload : List ℕ) (s : Host) (p : Packet) (t : Host)
    → make mst rel option payload s ≡ some (p, t)
    → IsLaidOut s
    → IsPacket p × IsLaidOut t
unfolding make
make-IsLaidOut mst rel option payload s p t e h =
    elim (Option-cases (create_packet (s.locals s.calls) mst rel option payload)) [
      | inl fault ↦ absurd (ground (arith, fault))
      | inr (q, made) ↦
          let is =
            create_packet-IsPacket (s.locals s.calls) mst rel option payload q (h.sized s.calls)
              made in
          ground (arith, made, is)
    ]

emit-IsLaidOut :
    (mst rel : ℕ) (option payload : List ℕ) (sock dest : ℕ) (s : Host)
    → Keeps (λ u v. IsLaidOut u → IsLaidOut v) (emit mst rel option payload sock dest s) s
unfolding emit
emit-IsLaidOut mst rel option payload sock dest s t e h =
    elim (Option-cases (make mst rel option payload s)) [
      | inl fault ↦ absurd (ground (arith, fault))
      | inr ((p, u), made) ↦
          let (is, k) = make-IsLaidOut mst rel option payload s p u made h in
          subst IsLaidOut (some-injective _ _ (rw made at e))
            (send_packet-IsLaidOut sock p dest u is k)
    ]

length-subscribe_topic :
    (m : Memory) (option : List ℕ) (addr : ℕ) (f : Frame) (ts us : List Topic)
    → subscribe_topic m option addr f ts ≡ some us
    → length us ≡ length ts
unfolding subscribe_topic
length-subscribe_topic m option addr f ts us e = elim (Option-cases (enroll m option addr ts)) [
  | inl fault ↦ absurd (ground (arith, fault))
  | inr ((vs, exist), found) ↦ ground (
    arith,
    found,
    enroll-unchanged m option addr ts vs exist found,
    length-claim_slot (slot_of addr f) false ts,
  )
]

entered-IsLaidOut : (p : Packet) (f : Frame) (s : Host) → IsLaidOut s → IsLaidOut (entered p f s)
unfolding note_ack
entered-IsLaidOut p f s h = ground arith

thread_ack_wakes-IsLaidOut : (s : Host) → IsLaidOut s → IsLaidOut (thread_ack_wakes s)
unfolding thread_ack_wakes
thread_ack_wakes-IsLaidOut s h = ground arith

IsLaidOut-IsKept : IsKept IsLaidOut
IsLaidOut-IsKept = record {
  sends = emit-IsLaidOut;
  makes = λ mst rel option payload s p t e h. (make-IsLaidOut mst rel option payload s p t e h).1;
  enters = entered-IsLaidOut;
  enrolls = λ p addr f s ts found h.
      let l = length-subscribe_topic s.memory p.header_option addr f s.topics ts found in
      ground (arith, l);
  wakes = thread_ack_wakes-IsLaidOut;
}

overwritten-length :
    (got buffer : List ℕ)
    → length got ≤ length buffer
    → length (got ++ drop (length got) buffer) ≡ length buffer
overwritten-length got buffer h = grind lengths

overwrite-length :
    (got buffer b : List ℕ)
    → (if leb (length got) (length buffer) then some (got ++ drop (length got) buffer) else none)
      ≡ some b
    → length b ≡ length buffer
overwrite-length got buffer b e = ground (arith, overwritten-length got buffer)

-- The buffer of receiveUDP keeps its size.
recvfrom-length :
    (buffer datagram b : List ℕ) → recvfrom buffer datagram ≡ some b → length b ≡ length buffer
unfolding recvfrom
recvfrom-length buffer datagram b e = overwrite-length (take maxline datagram) buffer b e

abbrev SameBuffer : Server → Server → Type 0
SameBuffer s t = length t.buffer ≡ length s.buffer

receive_udp-SameBuffer :
    (layout : Layout) (datagram : List ℕ) (from : ℕ) (f : Frame) (s t : Server)
    → receive_udp layout datagram from f s ≡ some t
    → SameBuffer s t
receive_udp-SameBuffer layout datagram from f s t e = elim (Bool-cases s.listening) [
  | inl on ↦
      let r = receive_udp-Received layout datagram from f s t e on in
      ap (λ (u : Server). length u.buffer) r.after
      ∙ recvfrom-length s.buffer datagram r.buffer' r.filled
  | inr off ↦
      ap (λ (u : Server). length u.buffer)
        (some-injective _ _ (sym e ∙ receive_udp-closed layout datagram from f s off))
]

call_menu-buffer : (n : ℕ) (s : Server) → (call_menu n s).buffer ≡ s.buffer
unfolding call_menu
call_menu-buffer n s = ground arith

Typed-SameBuffer : (n : ℕ) (s t : Server) → Typed n s t → SameBuffer s t
Typed-SameBuffer n s t (at_main m e) =
    ap (λ (u : Server). length u.buffer) e ∙ ap (λ (b : List ℕ). length b) (call_menu-buffer n s)
Typed-SameBuffer n s t (again e) = ap (λ (u : Server). length u.buffer) e
Typed-SameBuffer n s t (back o e) = ap (λ (u : Server). length u.buffer) e
Typed-SameBuffer n s t (commands o topicname value u sent e) =
    let (p, h, h', made, pushed, after) = command-inv topicname value s u sent in
    ap (λ (w : Server). length w.buffer) e ∙ ap (λ (w : Server). length w.buffer) after

Step-SameBuffer : (layout : Layout) {s t : Server} → Step layout s t → SameBuffer s t
Step-SameBuffer layout (receives datagram from f {s} {t} e) =
    receive_udp-SameBuffer layout datagram from f s t e
Step-SameBuffer layout (types n {s} {t} e) = Typed-SameBuffer n s t (messages-Typed n s t e)
Step-SameBuffer layout (wakes s) = refl

Reach-SameBuffer : (layout : Layout) {s t : Server} → Reach layout s t → SameBuffer s t
Reach-SameBuffer layout here = refl
Reach-SameBuffer layout (next r st) = Step-SameBuffer layout st ∙ Reach-SameBuffer layout r

-- In every interleaving of whole steps of the receiving thread, the menu thread and the
-- acknowledgement threads, if it held at the start: the topic table has eleven slots, what
-- createPacket finds on the stack has the declared sizes, and the packet to send again and all
-- packets sent have a type of four bits, a reliability of one bit, an option of 20 bytes and a
-- payload of 50; and the buffer of receiveUDP keeps its size.
pub Reach-IsLaidOut :
    (layout : Layout) {s t : Server}
    → IsLaidOut s.host
    → Reach layout s t
    → IsLaidOut t.host × (length t.buffer ≡ length s.buffer)
Reach-IsLaidOut layout h r =
    (Reach_kept IsLaidOut IsLaidOut-IsKept layout h r, Reach-SameBuffer layout r)
