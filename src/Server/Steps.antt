-- ===== src/Server/Steps.antt =====
-- The threads of ControlServer/BrokerAndControlServer.c in any order: what every interleaving of their steps
-- keeps.
use embedded_project_exam.Base.{
  ℕ, ◌<◌, ◌≡◌, ◌≢◌, sym, subst, ap, ◌∙◌, ◌⊎◌, inl, inr, true, false, some, List, arith, Bool-cases,
  ==_false,
}
use embedded_project_exam.Protocol.{Packet}
use embedded_project_exam.Protocol.Wire.{Layout}
use embedded_project_exam.Topics.{Frame, store}
use embedded_project_exam.Host.{Host, make, emit}
use embedded_project_exam.Host.Handle.{note_ack}
use embedded_project_exam.Host.Threads.{thread_ack_wakes}
use embedded_project_exam.Host.Keeps.{Keeps}
use embedded_project_exam.Server.{Server, main, ended}
use embedded_project_exam.Server.Menu.{call_menu, go_to}
use embedded_project_exam.Server.Typed.{
  Typed, at_main, again, back, commands, messages-Typed, command-inv, Received,
  receive_udp-Received, receive_udp-closed,
}
use mathlib.Core.Option.{some-injective}
use embedded_project_exam.Server.Receive.{receive_udp}
use embedded_project_exam.Server.Interleavings.{
  receives, types, wakes, Reach, here, next, IsKept, Reach_kept,
}

-- The host either waits for no acknowledgement, or has a thread that sends the packet again.
abbrev pub Covered : Host → Type 0
Covered h = (h.ack_rcv ≡ true) ⊎ (0 < h.threads)

abbrev StaysCovered : Host → Host → Type 0
StaysCovered s t = Covered s → Covered t

emit-StaysCovered :
    (mst rel : ℕ) (option payload : List ℕ) (sock dest : ℕ) (s : Host)
    → Keeps StaysCovered (emit mst rel option payload sock dest s) s
unfolding emit
emit-StaysCovered mst rel option payload sock dest s t e c = ground arith

note_ack-Covered : (p : Packet) (s : Host) → Covered s → Covered (note_ack p s)
unfolding note_ack
note_ack-Covered p s c = ground arith

make-StaysCovered :
    (mst rel : ℕ) (topicname value : List ℕ) (s : Host) (p : Packet) (h : Host)
    → make mst rel topicname value s ≡ some (p, h)
    → StaysCovered s h
unfolding make
make-StaysCovered mst rel topicname value s p h e c = ground arith

wakes-Covered : (s : Host) → StaysCovered s (thread_ack_wakes s)
unfolding thread_ack_wakes
wakes-Covered s c = ground arith

Covered-IsKept : IsKept Covered
Covered-IsKept = record {
  sends = emit-StaysCovered;
  makes = make-StaysCovered;
  enters = λ p f s c. note_ack-Covered p (record s { memory = store s.memory f.at p }) c;
  enrolls = λ p addr f s ts found c. c;
  wakes = wakes-Covered;
}

-- In every interleaving of whole steps of the receiving thread, the menu thread and the
-- acknowledgement threads, from a state in which the host waits for no acknowledgement or has a
-- thread that sends the packet again, this holds in every state reached.
pub Reach-Covered :
    (layout : Layout) {s t : Server} → Covered s.host → Reach layout s t → Covered t.host
Reach-Covered layout c r = Reach_kept Covered Covered-IsKept layout c r

-- The program runs and its menu is open, or it was told to end; receiveUDP leaves its loop only then.
pub record IsRunning (s : Server) : Type 0 where
  pub launched : ((s.launch ≡ 0) × (s.screen ≢ ended)) ⊎ ((s.launch ≡ 1) × (s.screen ≡ ended))
  pub closed : s.listening ≡ false → s.launch ≡ 1

receive_udp-IsRunning :
    (layout : Layout) (datagram : List ℕ) (from : ℕ) (f : Frame) (s t : Server)
    → receive_udp layout datagram from f s ≡ some t
    → IsRunning s
    → IsRunning t
receive_udp-IsRunning layout datagram from f s t e c = elim (Bool-cases s.listening) [
  | inl on ↦
      subst IsRunning (sym ((receive_udp-Received layout datagram from f s t e on).after))
        (record { launched = c.launched; closed = ground arith })
  | inr off ↦
      subst IsRunning
        (some-injective _ _ (sym (receive_udp-closed layout datagram from f s off) ∙ e)) c
]

Typed-IsRunning : (n : ℕ) (s t : Server) → Typed n s t → IsRunning s → IsRunning t
unfolding call_menu
Typed-IsRunning n s t (at_main m e) c = subst IsRunning (sym e) (ground arith)
Typed-IsRunning n s t (again e) c = subst IsRunning (sym e) c
Typed-IsRunning n s t (back o e) c = subst IsRunning (sym e) (ground arith)
Typed-IsRunning n s t (commands o topicname value u sent e) c =
    let (p, h, h', made, sent', after) = command-inv topicname value s u sent in
    subst IsRunning (sym e)
      (subst (λ (w : Server). IsRunning (go_to main w)) (sym after) (ground arith))

-- In every interleaving of whole steps of the threads, if it held at the start: `launch` is 0 and
-- a menu is open, or it is 1 and the menu thread has ended; and receiveUDP has left its loop only
-- if `launch` is 1.
pub Reach-IsRunning :
    (layout : Layout) {s t : Server} → IsRunning s → Reach layout s t → IsRunning t
Reach-IsRunning layout c here = c
Reach-IsRunning layout c (next r (receives datagram from f {s} {t} e)) =
    receive_udp-IsRunning layout datagram from f s t e (Reach-IsRunning layout c r)
Reach-IsRunning layout c (next r (types n {s} {t} e)) =
    Typed-IsRunning n s t (messages-Typed n s t e) (Reach-IsRunning layout c r)
Reach-IsRunning layout c (next r (wakes s)) =
    let k = Reach-IsRunning layout c r in record { launched = k.launched; closed = k.closed }

-- When `launch` is 1 and receiveUDP is still in its loop, a datagram that it takes without a fault
-- is handled in full as any other, and leaves the loop; the one after it does nothing.
pub receive_udp-last :
    (layout : Layout) (datagram later : List ℕ) (from other : ℕ) (f g : Frame) (s t : Server)
    → s.launch ≡ 1
    → s.listening ≡ true
    → receive_udp layout datagram from f s ≡ some t
    → Received layout datagram from f s t × (receive_udp layout later other g t ≡ some t)
receive_udp-last layout datagram later from other f g s t launched on e =
    let r = receive_udp-Received layout datagram from f s t e on in
    (
      r,
      receive_udp-closed layout later other g t
          (ap (λ (u : Server). u.listening) r.after ∙ ==_false s.launch 0 (omega arith)),
    )
