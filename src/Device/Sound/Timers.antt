-- ===== src/Device/Sound/Timers.antt =====
-- Timers of a mote and its state: ackThread and wait_ping_process of SBVK.c.
use embedded_project_exam.Base.{
  ℕ, suc, ◌≡◌, sym, subst, inl, inr, Bool, true, false, Option, some, List, arith, ◌==◌, ltb,
  Option-cases, Bool-cases, >>=-eq_some, ◌>>=◌, if◌then◌else◌,
}
use mathlib.Core.Option.{some-injective}
use embedded_project_exam.Protocol.{Packet}
use embedded_project_exam.Protocol.Create.{create_packet}
use embedded_project_exam.Protocol.Create.Sizes.{Sized, create_packet-IsPacket}
use embedded_project_exam.Protocol.Wire.Laws.{IsPacket}
use embedded_project_exam.Device.{Device, make, emit, send_packet}
use embedded_project_exam.Device.Processes.{
  ack_thread_expires, start_ping_thread, wait_ping_expires, wait_ping_round,
}
use embedded_project_exam.Device.Messages.{pingreq, disconnect}
use embedded_project_exam.Device.Sound.{Sound, emit-Sound}

pub ack_thread_expires-Sound : (s : Device) → Sound s → Sound (ack_thread_expires s)
unfolding ack_thread_expires
ack_thread_expires-Sound s h = ground arith

pub start_ping_thread-Sound :
    (conn dest : ℕ) (s : Device) → Sound s → Sound (start_ping_thread conn dest s)
unfolding start_ping_thread
start_ping_thread-Sound conn dest s h = ground arith

-- What a call that sends leaves behind.
emit-sent :
    (mst rel : ℕ) (option payload : List ℕ) (conn dest : ℕ) (s t : Device)
    → Sized (s.locals s.calls)
    → emit mst rel option payload conn dest s ≡ some t
    → (p : Packet) × IsPacket p × (t ≡ send_packet p conn dest (record s { calls = suc s.calls }))
unfolding emit make
emit-sent mst rel option payload conn dest s t h e =
    elim (Option-cases (create_packet (s.locals s.calls) mst rel option payload)) [
      | inl fault ↦ absurd (ground (arith, fault))
      | inr (p, made) ↦ (
        p,
        create_packet-IsPacket (s.locals s.calls) mst rel option payload p h made,
        sym (some-injective _ _ (rw made at e)),
      )
    ]

-- The last ping: the count reaches five as the process ends.
gave_up-Sound :
    (p : Packet) (conn dest n k : ℕ) (s : Device)
    → IsPacket p
    → Sound s
    → Sound (record (send_packet p conn dest (record s { count_ping = n; calls = k })) {
      wait_ping_process = false;
    })
unfolding send_packet
gave_up-Sound p conn dest n k s is h = elim (Bool-cases (p.rel == 0)) [
  | inl e ↦ rw e (ground arith)
  | inr e ↦ rw e (ground arith)
]

-- After the fifth ping the mote disconnects.
disconnects-Sound :
    (conn dest n : ℕ) (u t : Device)
    → (disconnect conn dest (record u { count_ping = n }) >>= λ (w : Device).
        some (record w { wait_ping_process = false }))
      ≡ some t
    → Sound u
    → Sound t
unfolding disconnect
disconnects-Sound conn dest n u t e k =
    let (w, gone, end) = >>=-eq_some (disconnect conn dest (record u { count_ping = n })) _ e in
    let (p, is, after) =
      emit-sent _ _ _ _ conn dest (record u { count_ping = n }) w (k.sized u.calls) gone in
    subst Sound (some-injective _ _ end)
      (rw after (gave_up-Sound p conn dest n (suc u.calls) u is k))

wait_ping_round-Sound : (s t : Device) → wait_ping_round s ≡ some t → Sound s → Sound t
unfolding wait_ping_round pingreq
wait_ping_round-Sound s t e h =
    let (u, pinged, rest) = >>=-eq_some (pingreq s.udp_conn_ping s.dest_addr_ping s) _ e in
    let k = emit-Sound _ _ _ _ _ _ s u pinged h in
    elim (Bool-cases (ltb (suc u.count_ping) 5)) [
      | inl more ↦ subst Sound (some-injective _ _ (rw more at rest)) (ground arith)
      | inr last ↦ disconnects-Sound _ _ (suc u.count_ping) u t (rw last at rest) k
    ]

when-Sound :
    (b : Bool) (r : Option Device) (s t : Device)
    → (r ≡ some t → Sound s → Sound t)
    → (if b then r else some s) ≡ some t
    → Sound s
    → Sound t
when-Sound true r s t f e h = f e h
when-Sound false r s t f e h = subst Sound (some-injective _ _ e) h

pub wait_ping_expires-Sound : (s t : Device) → wait_ping_expires s ≡ some t → Sound s → Sound t
unfolding wait_ping_expires
wait_ping_expires-Sound s t e h =
    when-Sound s.wait_ping_process (wait_ping_round s) s t (wait_ping_round-Sound s t) e h
