-- ===== src/Server/Interleavings.antt =====
-- The threads of ControlServer/BrokerAndControlServer.c in any order, and a rule for what they keep: a predicate
-- of the host's state that sending, handleMessage's assignments and threadAck keep holds in every state reached.
use embedded_project_exam.Base.{
  ℕ, ◌≡◌, sym, subst, ap, ◌∙◌, inl, inr, some, List, arith, Bool-cases,
}
use embedded_project_exam.Protocol.{Packet, of_code}
use embedded_project_exam.Protocol.Wire.{Layout}
use embedded_project_exam.Topics.{Frame}
use embedded_project_exam.Host.{Host, make, emit}
use embedded_project_exam.Host.Handle.{get_message_type, handle_message}
use embedded_project_exam.Host.Threads.{thread_ack_wakes}
use embedded_project_exam.Host.Keeps.{Keeps, IsFrame, publish_to-Keeps, dispatch-Keeps}
use embedded_project_exam.Server.{Server}
use embedded_project_exam.Server.Menu.{command, messages, call_menu}
use embedded_project_exam.Server.Typed.{
  Typed, at_main, again, back, commands, messages-Typed, command-inv, receive_udp-Received,
  receive_udp-closed,
}
use embedded_project_exam.Topics.{Topic, subscribe_topic}
use embedded_project_exam.Host.Accepts.{entered}
use mathlib.Core.Option.{some-injective}
use embedded_project_exam.Server.Receive.{receive_udp}

-- One step of one thread.
pub data Step (layout : Layout) : Server → Server → Type 0 where
  receives :
      (datagram : List ℕ) (from : ℕ) (f : Frame) {s t : Server}
      → receive_udp layout datagram from f s ≡ some t
      → Step layout s t
  types : (n : ℕ) {s t : Server} → messages n s ≡ some t → Step layout s t
  wakes : (s : Server) → Step layout s (record s { host = thread_ack_wakes s.host })

pub data Reach (layout : Layout) (s : Server) : Server → Type 0 where
  here : Reach layout s s
  next : {t u : Server} → Reach layout s t → Step layout t u → Reach layout s u

-- What the rule asks of a predicate.
pub record IsKept (I : Host → Type 0) : Type 0 where
  pub sends :
      (mst rel : ℕ) (option payload : List ℕ) (sock dest : ℕ) (s : Host)
      → Keeps (λ u v. I u → I v) (emit mst rel option payload sock dest s) s
  pub makes :
      (mst rel : ℕ) (option payload : List ℕ) (s : Host) (p : Packet) (h : Host)
      → make mst rel option payload s ≡ some (p, h)
      → I s
      → I h
  pub enters : (p : Packet) (f : Frame) (s : Host) → I s → I (entered p f s)
  pub enrolls :
      (p : Packet) (addr : ℕ) (f : Frame) (s : Host) (ts : List Topic)
      → subscribe_topic s.memory p.header_option addr f s.topics ≡ some ts
      → I s
      → I (record s { topics = ts })
  pub wakes : (s : Host) → I s → I (thread_ack_wakes s)

module _ (I : Host → Type 0) (kept : IsKept I) where
  frame : IsFrame (λ s t. I s → I t)
  frame = record { stays = λ s h. h; chains = λ s t u h k w. k (h w); sends = kept.sends }

  handle_message_kept :
      (p : Packet) (sock addr : ℕ) (f : Frame) (s t : Host)
      → handle_message p sock addr f s ≡ some t
      → I s
      → I t
  unfolding handle_message
  handle_message_kept p sock addr f s t e h =
      dispatch-Keeps (λ u v. I u → I v) frame p sock addr f (of_code (get_message_type p))
        (entered p f s) (λ is u ts found k. kept.enrolls p addr f u ts found k) t e
        (kept.enters p f s h)

  receive_udp_kept :
      (layout : Layout) (datagram : List ℕ) (from : ℕ) (f : Frame) (s t : Server)
      → receive_udp layout datagram from f s ≡ some t
      → I s.host
      → I t.host
  receive_udp_kept layout datagram from f s t e c = elim (Bool-cases s.listening) [
    | inl on ↦
        let r = receive_udp-Received layout datagram from f s t e on in
        subst (λ (u : Server). I u.host) (sym (r.after))
          (handle_message_kept r.packet s.sock from f s.host r.host' r.handled c)
    | inr off ↦
        subst (λ (u : Server). I u.host)
          (some-injective _ _ (sym (receive_udp-closed layout datagram from f s off) ∙ e)) c
  ]

  command_kept :
      (topicname value : List ℕ) (s u : Server)
      → command topicname value s ≡ some u
      → I s.host
      → I u.host
  command_kept topicname value s u e c =
      let (p, h, h', made, sent, after) = command-inv topicname value s u e in
      subst (λ (w : Server). I w.host) (sym after)
        (publish_to-Keeps (λ u v. I u → I v) frame p s.sock h h' sent
          (kept.makes 1 1 topicname value s.host p h made c))

  call_menu_same : (n : ℕ) (s : Server) → (call_menu n s).host ≡ s.host
  unfolding call_menu
  call_menu_same n s = ground arith

  Typed_kept : (n : ℕ) (s t : Server) → Typed n s t → I s.host → I t.host
  Typed_kept n s t (at_main m e) c =
      subst I (sym (ap (λ (w : Server). w.host) e ∙ call_menu_same n s)) c
  Typed_kept n s t (again e) c = subst (λ (w : Server). I w.host) (sym e) c
  Typed_kept n s t (back o e) c = subst (λ (w : Server). I w.host) (sym e) c
  Typed_kept n s t (commands o topicname value u sent e) c =
      subst (λ (w : Server). I w.host) (sym e) (command_kept topicname value s u sent c)

  Step_kept : (layout : Layout) {s t : Server} → Step layout s t → I s.host → I t.host
  Step_kept layout (receives datagram from f {s} {t} e) c =
      receive_udp_kept layout datagram from f s t e c
  Step_kept layout (types n {s} {t} e) c = Typed_kept n s t (messages-Typed n s t e) c
  Step_kept layout (wakes s) c = kept.wakes s.host c

  pub Reach_kept : (layout : Layout) {s t : Server} → I s.host → Reach layout s t → I t.host
  Reach_kept layout c here = c
  Reach_kept layout c (next r st) = Step_kept layout st (Reach_kept layout c r)
