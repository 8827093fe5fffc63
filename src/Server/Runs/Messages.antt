-- ===== src/Server/Runs/Messages.antt =====
-- receiveUDP and threadAck in a run of the control server, ControlServer/BrokerAndControlServer.c.
use embedded_project_exam.Base.{
  ℕ, zero, suc, ◌≤◌, ◌≡◌, refl, sym, ◌∙◌, ap, subst, true, false, some, List, [], ◌∷◌, ◌++◌, length,
  drop, ◌==◌, arith, Bool-cases, inl, inr,
}
use mathlib.Core.List.{append-nil}
use embedded_project_exam.Protocol.Wire.{Layout}
use embedded_project_exam.Host.{Host}
use embedded_project_exam.Host.Threads.{thread_ack_wakes}
use embedded_project_exam.Host.Handle.{handle_message}
use embedded_project_exam.Host.Sends.{Same}
use embedded_project_exam.Host.Relay.{Same-Ready}
use embedded_project_exam.Host.Runs.{Arrival, handle_message-Represents}
use embedded_project_exam.Server.{Server}
use embedded_project_exam.Server.Receive.{recvfrom, receive_round, receive_udp, maxline}
use embedded_project_exam.Server.Receive.Laws.{recvfrom_short}
use embedded_project_exam.Server.Runs.{datagram, perform, IsIntact, View, observe, Stands}

nothing_left : (xs : List ℕ) (n : ℕ) → n ≡ length xs → drop n xs ≡ []
nothing_left [] zero e = refl
nothing_left [] (suc n) e = absurd (omega arith)
nothing_left (x ∷ xs) zero e = absurd (omega arith)
nothing_left (x ∷ xs) (suc n) e = nothing_left xs n (omega arith)

-- A datagram of the buffer's size takes all of it.
recvfrom_whole :
    (buffer bytes : List ℕ)
    → length bytes ≤ maxline
    → length bytes ≡ length buffer
    → recvfrom buffer bytes ≡ some bytes
recvfrom_whole buffer bytes line full =
    recvfrom_short buffer bytes line (omega arith)
    ∙ ap some (
        ap (λ (xs : List ℕ). bytes ++ xs) (nothing_left buffer (length bytes) full)
        ∙ append-nil bytes)

module _ (layout : Layout) (a : ℕ) (line : layout.size ≤ maxline) where
  heard :
      (bytes : List ℕ) (x : Arrival) (s : Server) (h : Host)
      → IsIntact layout (datagram bytes x)
      → s.listening ≡ true
      → length s.buffer ≡ layout.size
      → handle_message x.packet s.sock x.sender (record { at = a; tp = x.tp }) s.host ≡ some h
      → receive_udp layout bytes x.sender (record { at = a; tp = x.tp }) s
        ≡ some (record s { host = h; buffer = bytes; sin6 = x.sender; listening = s.launch == 0 })
  unfolding receive_udp receive_round
  heard bytes x s h (read, size, fit) on room run =
      let filled =
        recvfrom_whole s.buffer bytes (omega (arith, line, size)) (omega (arith, size, room)) in
      rw (on, filled, read, run) refl

  unheard :
      (bytes : List ℕ) (x : Arrival) (v : View)
      → v.listening ≡ false
      → observe (datagram bytes x) v ≡ v
  unheard bytes x v off = ground arith

  pub datagram-Stands :
      (bytes : List ℕ) (x : Arrival) (s : Server) (v : View)
      → IsIntact layout (datagram bytes x)
      → Stands layout a s v
      → (t : Server) × (perform layout a (datagram bytes x) s ≡ some t)
        × Stands layout a t (observe (datagram bytes x) v)
  unfolding perform receive_udp
  datagram-Stands bytes x s v intact k = elim (Bool-cases v.listening) [
    | inl on ↦
        let (h, run, ready, shows) =
          handle_message-Represents a (record x { sock = s.sock }) s.host v.registry (intact.2)
            k.ready k.represents in
        (
          record s { host = h; buffer = bytes; sin6 = x.sender; listening = s.launch == 0 },
          heard bytes x s h intact (k.listening_eq ∙ on) k.buffer_size run,
          rw on (record {
            represents = shows;
            ready = ready;
            buffer_size = intact.1;
            screen_eq = k.screen_eq;
            launch_eq = k.launch_eq;
            listening_eq = ap (λ (n : ℕ). n == 0) k.launch_eq;
          }),
        )
    | inr off ↦ (
      s,
      rw (k.listening_eq ∙ off) refl,
      subst (Stands layout a s) (sym (unheard bytes x v off)) k,
    )
  ]

module _ (layout : Layout) (a : ℕ) where
  thread_ack_wakes-Same : (h : Host) → Same h (thread_ack_wakes h)
  unfolding thread_ack_wakes
  thread_ack_wakes-Same h = ground arith

  pub woken-Stands :
      (s : Server) (v : View)
      → Stands layout a s v
      → Stands layout a (record s { host = thread_ack_wakes s.host }) v
  woken-Stands s v k =
      let same = thread_ack_wakes-Same s.host in
      record {
        represents = rw (same.memory_eq, same.topics_eq) k.represents;
        ready = Same-Ready s.host _ same k.ready;
        buffer_size = k.buffer_size;
        screen_eq = k.screen_eq;
        launch_eq = k.launch_eq;
        listening_eq = k.listening_eq;
      }
