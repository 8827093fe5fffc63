-- ===== src/Host/Acks.antt =====
-- Reliable sending on the host: sendPacket and threadAck of ControlServer/SBVK_broker.c.
use embedded_project_exam.Base.{
  ℕ, zero, suc, ◌+◌, ◌-◌, ◌<◌, ◌≡◌, refl, ◌∙◌, ap, true, false, List, ◌∷◌, ◌++◌, arith, replicate,
  replicate_snoc,
}
use embedded_project_exam.Protocol.{Packet}
use embedded_project_exam.Host.{Host, Sent, send_packet}
use embedded_project_exam.Host.Threads.{thread_ack_wakes}

-- Wakings of threads that run threadAck, with nothing else in between.
unfoldable pub wakes : ℕ → Host → Host
wakes zero s = s
wakes (suc n) s = wakes n (thread_ack_wakes s)

-- The datagram that a thread sends.
abbrev pub retry : Host → Sent
retry s = record { sock = s.sock_ack; packet = s.packet_ack; dest = s.dest_addr_ack }

wake_waiting :
    (s : Host)
    → 0 < s.threads
    → s.ack_rcv ≡ false
    → thread_ack_wakes s ≡ record s { sent = retry s ∷ s.sent }
unfolding thread_ack_wakes
wake_waiting s r w = ground arith

wake_done :
    (s : Host) → s.ack_rcv ≡ true → thread_ack_wakes s ≡ record s { threads = s.threads - 1 }
unfolding thread_ack_wakes
wake_done s w = ground arith

-- While a thread runs on the host and the acknowledgement is not there, every one of any number of
-- wakings of threadAck sends the stored packet once more to the stored address, and changes
-- nothing else.
pub wakes_waiting :
    (n : ℕ) (s : Host)
    → 0 < s.threads
    → s.ack_rcv ≡ false
    → wakes n s ≡ record s { sent = replicate n (retry s) ++ s.sent }
unfolding wakes
wakes_waiting zero s r w = refl
wakes_waiting (suc n) s r w =
    ap (wakes n) (wake_waiting s r w)
    ∙ wakes_waiting n (record s { sent = retry s ∷ s.sent }) r w
    ∙ ap (λ (xs : List Sent). record s { sent = xs }) (replicate_snoc n (retry s) s.sent)

-- Once the acknowledgement is there, n wakings of threadAck end n of the threads, or all where
-- there are fewer, and send nothing.
pub wakes_done :
    (n : ℕ) (s : Host) → s.ack_rcv ≡ true → wakes n s ≡ record s { threads = s.threads - n }
unfolding wakes
wakes_done zero s w = ap (λ (k : ℕ). record s { threads = k }) (omega arith)
wakes_done (suc n) s w =
    ap (wakes n) (wake_done s w)
    ∙ wakes_done n (record s { threads = s.threads - 1 }) w
    ∙ ap (λ (k : ℕ). record s { threads = k }) (omega arith)

-- The state after a packet went out reliably.
abbrev awaiting : ℕ → Packet → ℕ → Host → Host
awaiting sock p dest s = record s {
  ack_rcv = false;
  ack_type_wanted = p.mst + 1;
  sock_ack = sock;
  packet_ack = p;
  dest_addr_ack = dest;
  threads = suc s.threads;
  sent = record { sock = sock; packet = p; dest = dest } ∷ s.sent;
}

send_reliable :
    (sock : ℕ) (p : Packet) (dest : ℕ) (s : Host)
    → p.rel ≡ 1
    → send_packet sock p dest s ≡ awaiting sock p dest s
unfolding send_packet
send_reliable sock p dest s h = ground arith

-- If the host sends two packets reliably, one right after the other, two more threads run, and at
-- each of any number of wakings the second packet goes out again to its address, and the first
-- never does.
pub wakes_forget :
    (n sock : ℕ) (p q : Packet) (dest other : ℕ) (s : Host)
    → p.rel ≡ 1
    → q.rel ≡ 1
    → let t = wakes n (send_packet sock q other (send_packet sock p dest s)) in
      (t.threads ≡ s.threads + 2)
      × (t.sent
          ≡ replicate (suc n) (record { sock = sock; packet = q; dest = other })
            ++ record { sock = sock; packet = p; dest = dest } ∷ s.sent)
wakes_forget n sock p q dest other s hp hq =
    rw
      (
        send_reliable sock q other (send_packet sock p dest s) hq,
        send_reliable sock p dest s hp,
        wakes_waiting n (awaiting sock q other (awaiting sock p dest s)) (omega arith) refl,
      )
      (omega arith, replicate_snoc n (record { sock = sock; packet = q; dest = other }) _)
