-- ===== src/Device/Fanout.antt =====
-- The loops of PUBLISH push the message to the topic's recipients, in order, and do nothing else.
use embedded_project_exam.Base.{
  ℕ, ◌<◌, ◌≡◌, refl, sym, subst, not, some, List, ◌∷◌, ◌++◌, arith, length, ◌==◌, codes,
}
use embedded_project_exam.CString.{text}
use embedded_project_exam.Protocol.{Packet}
use embedded_project_exam.Protocol.Create.Laws.{Carries}
use embedded_project_exam.Topics.{Topic}
use embedded_project_exam.Topics.Spec.{WellNamed, recipients}
use embedded_project_exam.Topics.Loops.{Fanout, Fanout-Keeps, forward-Fanout}
use embedded_project_exam.Device.{Device, send_packet}
use embedded_project_exam.Device.Handle.{push_message, forward}
use embedded_project_exam.Device.Sends.{IsClean, sent_by, flag, push-Emits}

-- What sending leaves alone.
pub record Same (s t : Device) : Type 0 where
  pub connected_eq : t.connected ≡ s.connected
  pub pushed_eq : t.pushed_info ≡ s.pushed_info
  pub fresh_eq : t.fresh ≡ s.fresh
  pub topics_eq : t.topics ≡ s.topics
  pub memory_eq : t.memory ≡ s.memory
  pub locals_eq : t.locals ≡ s.locals
  pub ping_conn_eq : t.udp_conn_ping ≡ s.udp_conn_ping
  pub ping_dest_eq : t.dest_addr_ping ≡ s.dest_addr_ping
  pub count_eq : t.count_ping ≡ s.count_ping
  pub ping_eq : t.wait_ping_process ≡ s.wait_ping_process

pub Same-refl : (s : Device) → Same s s
Same-refl s = ground arith

pub Same-trans : (s t u : Device) → Same s t → Same t u → Same s u
Same-trans s t u h k = ground arith

pub sent_by-Same : (p : Packet) (conn dest : ℕ) (s : Device) → Same s (sent_by p conn dest s)
unfolding send_packet
sent_by-Same p conn dest s = ground arith

pub sent_by-sent :
    (p : Packet) (conn dest : ℕ) (s : Device)
    → (sent_by p conn dest s).sent ≡ record { conn = conn; packet = p; dest = dest } ∷ s.sent
unfolding send_packet
sent_by-sent p conn dest s = ground arith

pub IsClean-Same : (s t : Device) → Same s t → IsClean s → IsClean t
IsClean-Same s t h c n = rw (h.locals_eq) (c n)

-- One push of a message of this content to an address.
abbrev pub Pushes : ℕ → ℕ → List ℕ → List ℕ → ℕ → Device → Device → Type 0
Pushes conn rel o v ip s t = (p : Packet) × Carries p 12 rel o v × (t ≡ sent_by p conn ip s)

-- Pushes of one message to a list of addresses, in order.
abbrev pub PushedTo : ℕ → ℕ → List ℕ → List ℕ → List ℕ → Device → Device → Type 0
PushedTo conn rel o v = Fanout (Pushes conn rel o v)

pub PushedTo-Same :
    (conn rel : ℕ) (o v : List ℕ) {ips : List ℕ} {s t : Device}
    → PushedTo conn rel o v ips s t
    → Same s t
PushedTo-Same conn rel o v f =
    Fanout-Keeps Same Same-refl Same-trans
      (λ ip u w h. subst (Same u) (sym (h.2)) (sent_by-Same h.0 conn ip u)) f

-- The loops of PUBLISH are a push to each of the recipients.
pub forward-PushedTo :
    (p : Packet) (conn : ℕ) (ts : List Topic) (o v : List ℕ) (s : Device)
    → IsClean s
    → WellNamed s.memory ts
    → text p.header_option ≡ some o
    → text p.payload ≡ some v
    → length o < 20
    → length v < 48
    → (t : Device) × (forward p conn ts s ≡ some t)
      × PushedTo conn (flag (not (p.rel == 0))) o (codes "  " ++ v) (recipients s.memory o ts) s t
unfolding forward
forward-PushedTo p conn ts o v s c w ho hv lo lv =
    let (t, e, f, _) =
      forward-Fanout (λ u. u.memory) (push_message p conn) IsClean
        (Pushes conn (flag (not (p.rel == 0))) o (codes "  " ++ v)) one p.header_option o ts s c w
        ho in
    (t, e, f)
  where
    one :
        (ip : ℕ) (u : Device)
        → IsClean u
        → (t : Device) × (push_message p conn ip u ≡ some t)
          × Pushes conn (flag (not (p.rel == 0))) o (codes "  " ++ v) ip u t
          × IsClean t
          × (t.memory ≡ u.memory)
    one ip u k =
        let (q, e, c) =
          push-Emits conn ip u k (not (p.rel == 0)) p.header_option p.payload o v ho hv lo lv in
        let same = sent_by-Same q conn ip u in
        (
          sent_by q conn ip u,
          e,
          (q, c, refl),
          IsClean-Same u (sent_by q conn ip u) same k,
          same.memory_eq,
        )
