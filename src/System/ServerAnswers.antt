-- ===== src/System/ServerAnswers.antt =====
-- What the control server sends when it takes a mote's HELLO and its CONNECT.
use embedded_project_exam.Base.{ℕ, ◌≤◌, ◌<◌, ◌≡◌, refl, ap, some, List, ◌∷◌, arith, codes}
use embedded_project_exam.Protocol.{Header, Packet, of_code}
use embedded_project_exam.Protocol.Create.Laws.{Carries}
use embedded_project_exam.Protocol.Wire.{Layout, Padding, encode}
use embedded_project_exam.Protocol.Wire.Laws.{Fills}
use embedded_project_exam.Topics.{Frame}
use embedded_project_exam.Host.{Host, send_packet}
use embedded_project_exam.Host.Handle.{note_ack, handle_message}
use embedded_project_exam.Host.Sends
use embedded_project_exam.Host.Accepts.{entered, entered-Same}
use embedded_project_exam.Server.{Server}
use embedded_project_exam.Server.Receive.{receive_udp, maxline}
use embedded_project_exam.System.ServerRounds.{
  IsOpen, host_reads, received_by, receives, host_init-Emits, host_connect-Emits,
}

-- The layouts of the two machines, and what their padding holds.
pub record Machines : Type 0 where
  pub mote_layout : Layout
  pub host_layout : Layout
  pub mote_padding : Padding
  pub host_padding : Padding
  pub mote_fills : Fills mote_layout mote_padding
  pub host_fills : Fills host_layout host_padding
  pub smaller : mote_layout.size ≤ host_layout.size
  pub fits : host_layout.size ≤ maxline

host_sent :
    (q p : Packet) (sock addr : ℕ) (g : Frame) (s : Host)
    → (Sends.sent_by q sock addr (entered p g s)).sent
      ≡ record { sock = sock; packet = q; dest = addr } ∷ s.sent
unfolding send_packet note_ack
host_sent q p sock addr g s = ground arith

host_clean :
    (q p : Packet) (sock addr : ℕ) (g : Frame) (s : Host)
    → Sends.IsClean s
    → Sends.IsClean (Sends.sent_by q sock addr (entered p g s))
host_clean q p sock addr g s k n =
    rw ((Sends.sent_by-Same q sock addr (entered p g s)).locals_eq, (entered-Same p g s).locals_eq)
      (k n)

module _ (m : Machines) (mote_addr : ℕ) (g : Frame) where
  -- The server takes a packet and sends another one.
  abbrev pub ServerAnswers : Packet → ℕ → ℕ → List ℕ → List ℕ → Server → Type 0
  ServerAnswers p mst r o v s =
      (q : Packet) × (t : Server) × (receive_udp m.host_layout (encode m.mote_padding p) mote_addr g
          s
        ≡ some t)
      × (t.sent ≡ record { sock = s.sock; packet = q; dest = mote_addr } ∷ s.sent)
      × Carries q mst r o v
      × IsOpen m.host_layout t
      × Sends.IsClean t.host

  server_answers :
      (p : Packet) (mst r mst' r' : ℕ) (o v o' v' : List ℕ) (s : Server)
      → mst < 16
      → r < 2
      → Carries p mst r o v
      → IsOpen m.host_layout s
      → Sends.IsClean s.host
      → ((q : Packet)
          → q.header ≡ p.header
          → Sends.Emits
              (handle_message q s.sock mote_addr g s.host)
              (entered q g s.host)
              s.sock
              mote_addr
              mst'
              r'
              o'
              v')
      → ServerAnswers p mst' r' o' v' s
  server_answers p mst r mst' r' o v o' v' s bits bit car open_ k emits =
      let (b, q, got, read, header, size) =
        host_reads m.mote_layout m.host_layout m.mote_padding p mst r o v s m.mote_fills m.smaller
          m.fits open_ bits bit car in
      let (a, handled, car') = emits q header in
      let h = Sends.sent_by a s.sock mote_addr (entered q g s.host) in
      (
        a,
        received_by h b mote_addr s,
        receives m.host_layout (encode m.mote_padding p) b q mote_addr g s h open_ got read handled,
        host_sent a q s.sock mote_addr g s.host,
        car',
        record { going = open_.going; listens = refl; buffer_size = size },
        host_clean a q s.sock mote_addr g s.host k,
      )

  pub server_init :
      (p : Packet) (v : List ℕ) (s : Server)
      → Carries p 0 0 (codes "init") v
      → IsOpen m.host_layout s
      → Sends.IsClean s.host
      → ServerAnswers p 0 0 (codes "response") (codes "  testpayload") s
  unfolding of_code
  server_init p v s car open_ k =
      server_answers p 0 0 0 0 _ v _ _ s (omega arith) (omega arith) car open_ k (λ (q : Packet) e.
        host_init-Emits q s.sock mote_addr g s.host k
          (rw (ap (λ (h : Header). h.mst) e, car.mst_eq) refl)
          (rw (ap (λ (h : Header). h.header_option) e) car.option_stored.content))

  pub server_connect :
      (p : Packet) (o v : List ℕ) (s : Server)
      → Carries p 6 1 o v
      → IsOpen m.host_layout s
      → Sends.IsClean s.host
      → ServerAnswers p 7 0 (codes "CONNACK") (codes "  testpayload") s
  unfolding of_code
  server_connect p o v s car open_ k =
      server_answers p 6 1 7 0 o v _ _ s (omega arith) (omega arith) car open_ k (λ (q : Packet) e.
        host_connect-Emits q s.sock mote_addr g s.host k
          (rw (ap (λ (h : Header). h.mst) e, car.mst_eq) refl))
