-- ===== src/Device/Acks.antt =====
-- Reliable sending in SBVK.c: sendPacket, ackThread, and the acknowledgement test of handleMessage.
use embedded_project_exam.Base.{
  ℕ, zero, suc, ◌+◌, ◌%◌, ◌≡◌, refl, subst, ◌∙◌, ap, true, false, some, List, ◌∷◌, ◌++◌, arith,
  replicate, replicate_snoc, inl, inr, Option-cases,
}
use embedded_project_exam.Protocol.{Packet}
use embedded_project_exam.Protocol.Create.{Locals, create_packet}
use embedded_project_exam.Device.{Device, Sent, emit, send_packet}
use embedded_project_exam.Device.Processes.{ack_thread_expires}

-- Expiries of the timer of ackThread, with nothing else in between.
unfoldable pub ack_expiries : ℕ → Device → Device
ack_expiries zero s = s
ack_expiries (suc n) s = ack_expiries n (ack_thread_expires s)

-- The datagram that ackThread sends.
abbrev pub retry : Device → Sent
retry s = record { conn = s.udp_conn_ack; packet = s.packet_ack; dest = s.dest_addr_ack }

step_waiting :
    (s : Device)
    → s.ack_thread ≡ true
    → s.ack_rcv ≡ false
    → ack_thread_expires s ≡ record s { sent = retry s ∷ s.sent }
unfolding ack_thread_expires
step_waiting s r w = ground arith

step_done : (s : Device) → s.ack_rcv ≡ true → ack_thread_expires s ≡ record s { ack_thread = false }
unfolding ack_thread_expires
step_done s w = ground arith

-- Until the acknowledgement comes, every expiry sends the stored packet once more, and changes
-- nothing else.
pub ack_expiries_waiting :
    (n : ℕ) (s : Device)
    → s.ack_thread ≡ true
    → s.ack_rcv ≡ false
    → ack_expiries n s ≡ record s { sent = replicate n (retry s) ++ s.sent }
unfolding ack_expiries
ack_expiries_waiting zero s r w = refl
ack_expiries_waiting (suc n) s r w =
    ap (ack_expiries n) (step_waiting s r w)
    ∙ ack_expiries_waiting n (record s { sent = retry s ∷ s.sent }) r w
    ∙ ap (λ (xs : List Sent). record s { sent = xs }) (replicate_snoc n (retry s) s.sent)

-- Once the acknowledgement is there, ackThread ends at the next expiry of its timer, and no
-- further expiry sends or changes anything.
pub ack_expiries_done :
    (n : ℕ) (s : Device)
    → s.ack_rcv ≡ true
    → ack_expiries (suc n) s ≡ record s { ack_thread = false }
unfolding ack_expiries
ack_expiries_done zero s w = step_done s w
ack_expiries_done (suc n) s w =
    ap (λ (t : Device). ack_expiries (suc n) t) (step_done s w)
    ∙ ack_expiries_done n (record s { ack_thread = false }) w

-- The state after a packet went out reliably.
abbrev pub awaiting : Packet → ℕ → ℕ → Device → Device
awaiting p conn dest s = record s {
  ack_rcv = false;
  ack_type_wanted = p.mst + 1;
  udp_conn_ack = conn;
  packet_ack = p;
  dest_addr_ack = dest;
  ack_thread = true;
  sent = record { conn = conn; packet = p; dest = dest } ∷ s.sent;
}

pub send_reliable :
    (p : Packet) (conn dest : ℕ) (s : Device)
    → p.rel ≡ 1
    → send_packet p conn dest s ≡ awaiting p conn dest s
unfolding send_packet
send_reliable p conn dest s h = ground arith

-- A packet sent reliably is sent again at each expiry of the timer, the same to the same address.
pub send_packet-resent :
    (n : ℕ) (p : Packet) (conn dest : ℕ) (s : Device)
    → p.rel ≡ 1
    → (ack_expiries n (send_packet p conn dest s)).sent
      ≡ replicate (suc n) (record { conn = conn; packet = p; dest = dest }) ++ s.sent
send_packet-resent n p conn dest s h =
    rw (send_reliable p conn dest s h, ack_expiries_waiting n (awaiting p conn dest s) refl refl)
      (replicate_snoc n (record { conn = conn; packet = p; dest = dest }) s.sent)

create_packet-bits :
    (l : Locals) (mst rel : ℕ) (option payload : List ℕ) (p : Packet)
    → create_packet l mst rel option payload ≡ some p
    → (p.mst ≡ mst % 16) × (p.rel ≡ rel % 2)
unfolding create_packet
create_packet-bits l mst rel option payload p e = ground arith

-- A message that a mote sent reliably (the lowest bit of `rel` is set, and nothing faulted) goes
-- out once at first and once at each of any number of expiries of ackThread's timer with nothing
-- in between: the same packet, whose type is the lowest four bits of the one given, to the same
-- address.
pub emit-resent :
    (n mst rel : ℕ) (option payload : List ℕ) (conn dest : ℕ) (s t : Device)
    → emit mst rel option payload conn dest s ≡ some t
    → rel % 2 ≡ 1
    → (p : Packet) × (p.mst ≡ mst % 16)
      × ((ack_expiries n t).sent
          ≡ replicate (suc n) (record { conn = conn; packet = p; dest = dest }) ++ s.sent)
unfolding emit
emit-resent n mst rel option payload conn dest s t e r =
    elim (Option-cases (create_packet (s.locals s.calls) mst rel option payload)) [
      | inl fault ↦ ground (arith, fault)
      | inr (p, made) ↦
          let bits = create_packet-bits _ mst rel option payload p made in
          let sent : some (send_packet p conn dest (record s { calls = suc s.calls })) ≡ some t =
            rw made at e in
          (
            p,
            bits.0,
            subst
                (λ (u : Device).
                  (ack_expiries n u).sent
                  ≡ replicate (suc n) (record { conn = conn; packet = p; dest = dest }) ++ s.sent)
                (cc sent)
                (send_packet-resent n p conn dest (record s { calls = suc s.calls }) (bits.1 ∙ r)),
          )
    ]

-- If a mote sends a second packet reliably right after a first one, then at each of any number of
-- expiries of ackThread's timer the second one goes out again, and the first never does.
pub send_packet_forgets :
    (n : ℕ) (p q : Packet) (conn dest other : ℕ) (s : Device)
    → p.rel ≡ 1
    → q.rel ≡ 1
    → (ack_expiries n (send_packet q conn other (send_packet p conn dest s))).sent
      ≡ replicate (suc n) (record { conn = conn; packet = q; dest = other })
        ++ record { conn = conn; packet = p; dest = dest } ∷ s.sent
send_packet_forgets n p q conn dest other s hp hq = rw (
  send_packet-resent n q conn other (send_packet p conn dest s) hq,
  send_reliable p conn dest s hp,
)
