-- ===== src/System/Deliveries.antt =====
-- A reliable publication of a mote that reaches broker/broker.c: what the broker sends, and what its PUBACK
-- does to the mote.
use embedded_project_exam.Base.{
  ℕ, suc, ◌<◌, ◌≡◌, refl, sym, subst, ◌∙◌, ap, inl, inr, true, not, some, List, [], ◌++◌, arith,
  length, take, codes, IsIn, ◌==◌, ==_true, Bool, false, if◌then◌else◌, Option,
}
use embedded_project_exam.Protocol.{Packet, MessageType, of_code, get_message_type}
use embedded_project_exam.Protocol.Create.Laws.{Carries}
use embedded_project_exam.Protocol.Wire.{Layout, Padding, encode}
use embedded_project_exam.Protocol.Wire.Laws.{Fills}
use embedded_project_exam.Topics.{Frame}
use embedded_project_exam.Topics.Spec.{AllPointAt, everyone}
use embedded_project_exam.Topics.Loops.{done, more}
use embedded_project_exam.Device
use embedded_project_exam.Device.{Device}
use embedded_project_exam.Device.Handle.{dispatch, handle_message}
use embedded_project_exam.Device.Processes.{start_ping_thread}
use embedded_project_exam.Device.Accepts.{Ready, entered}
use embedded_project_exam.Device.Acks.{send_reliable}
use embedded_project_exam.Device.Fanout.{PushedTo, sent_by-sent}
use embedded_project_exam.Device.Sends.{sent_by, flag}
use embedded_project_exam.Device.Relay.{Publishes, publish-everyone}
use embedded_project_exam.Broker.{udp_rx_callback}
use embedded_project_exam.Sensor.{receive}
use embedded_project_exam.Sensor.Receives.{
  decode-Carries, Carries-Fits, start_ping_thread-Undisturbed,
}
use embedded_project_exam.System.Answers.{entered-ack_rcv, entered-sent}

-- A datagram from `c`.
abbrev pub datagram : ℕ → Packet → ℕ → Device.Sent
datagram c p dest = record { conn = c; packet = p; dest = dest }

-- A log only grows, and a push to an address is in it.
sent_by-grows :
    (q : Packet) (c dest : ℕ) (x : Device.Sent) (s : Device)
    → IsIn x s.sent
    → IsIn x (sent_by q c dest s).sent
sent_by-grows q c dest x s h = rw (sent_by-sent q c dest s) (inr h)

PushedTo-grows :
    (c rel : ℕ) (o v : List ℕ) (x : Device.Sent) {ips : List ℕ} {s t : Device}
    → PushedTo c rel o v ips s t
    → IsIn x s.sent
    → IsIn x t.sent
PushedTo-grows c rel o v x (done s) h = h
PushedTo-grows c rel o v x (more {ip} {ips} {s} {t} (q, car, e) f) h =
    PushedTo-grows c rel o v x f
      (subst (λ (u : Device). IsIn x u.sent) (sym e) (sent_by-grows q c ip x s h))

PushedTo-reaches :
    (c rel : ℕ) (o v : List ℕ) (dest : ℕ) {ips : List ℕ} {s t : Device}
    → PushedTo c rel o v ips s t
    → IsIn dest ips
    → (q : Packet) × Carries q 12 rel o v × IsIn (datagram c q dest) t.sent
PushedTo-reaches c rel o v dest (done s) h = absurd h
PushedTo-reaches c rel o v dest (more {ip} {ips} {s} {t} (q, car, e) f) (inl here) =
    let first : IsIn (datagram c q dest) (sent_by q c ip s).sent =
      rw (sent_by-sent q c ip s) (inl (ap (λ (i : ℕ). datagram c q i) here)) in
    (
      q,
      car,
      PushedTo-grows c rel o v _ f
          (subst (λ (u : Device). IsIn (datagram c q dest) u.sent) (sym e) first),
    )
PushedTo-reaches c rel o v dest (more {ip} {ips} {s} {t} st f) (inr later) =
    PushedTo-reaches c rel o v dest f later

-- A PUBACK to the sender of a message and a PUSH to a subscriber are in a mote's log.
abbrev pub Relays : ℕ → ℕ → ℕ → List ℕ → List ℕ → Device → Type 0
Relays c sender dest o v t =
    ((q : Packet) × Carries q 2 0 [] (codes "  ") × IsIn (datagram c q sender) t.sent)
    × ((q : Packet) × Carries q 12 1 o (codes "  " ++ v) × IsIn (datagram c q dest) t.sent)

if_true : (X Y : Type 0) (b : Bool) → b ≡ true → (if b then X else Y) → X
if_true X Y true e h = h
if_true X Y false e h = cc

Publishes-Relays :
    (r : Option Device) (p : Packet) (c sender dest : ℕ) (f : Frame) (o v ips : List ℕ) (b : Device)
    → p.rel ≡ 1
    → Publishes r p c sender f o v ips b
    → IsIn dest ips
    → (t : Device) × (r ≡ some t) × Relays c sender dest o v t
Publishes-Relays r p c sender dest f o v ips b e (s', t, run, acked, fan) there =
    let (q, car, after) = if_true _ _ (p.rel == 1) (==_true p.rel 1 e) acked in
    let set : flag (not (p.rel == 0)) ≡ 1 = rw e refl in
    let pushes = subst (λ (k : ℕ). PushedTo c k o (codes "  " ++ v) ips s' t) set fan in
    let logged : IsIn (datagram c q sender) (sent_by q c sender (entered p f b)).sent =
      rw (sent_by-sent q c sender (entered p f b)) (inl refl) in
    let first = subst (λ (u : Device). IsIn (datagram c q sender) u.sent) (sym after) logged in
    (
      t,
      run,
      (
        (q, car, PushedTo-grows c 1 o (codes "  " ++ v) (datagram c q sender) pushes first),
        PushedTo-reaches c 1 o (codes "  " ++ v) dest pushes there,
      ),
    )

-- A PUBACK ends the wait for it, and nothing else happens.
puback_lem :
    (p : Packet) (c addr : ℕ) (f : Frame) (s : Device)
    → of_code p.mst ≡ some MessageType.puback
    → handle_message p c addr f s ≡ some (entered p f s)
unfolding handle_message get_message_type dispatch
puback_lem p c addr f s e = rw e refl

module _ (layout : Layout) (pad : Padding) (c : ℕ) (fills : Fills layout pad) where
  -- The broker acknowledges a reliable publication and pushes it to whoever is in the first two slots.
  pub udp_rx_callback-Relays :
      (p : Packet) (o v : List ℕ) (sender dest : ℕ) (f : Frame) (b : Device)
      → Carries p 1 1 o v
      → length o < 20
      → length v < 48
      → Ready b
      → AllPointAt f.at b.topics
      → IsIn dest (everyone (take 2 b.topics))
      → (t : Device) × (udp_rx_callback layout c sender (encode pad p) f b ≡ some t)
        × Relays c sender dest o v t
  unfolding udp_rx_callback of_code
  udp_rx_callback-Relays p o v sender dest f b car lo lv ready alias there =
      let published =
        publish-everyone p c sender f o v b (Carries-Fits p 1 1 o v car lo lv) ready
          (rw car.mst_eq refl) alias in
      let (t, run, relayed) =
        Publishes-Relays _ p c sender dest f o v _ b car.rel_eq published there in
      (
        t,
        rw (decode-Carries layout pad p 1 1 o v fills (omega arith) (omega arith) car) run,
        relayed,
      )

  -- The mote waits for a PUBACK.
  pub publish_waits :
      (p : Packet) (o v : List ℕ) (dest : ℕ) (d : Device)
      → Carries p 1 1 o v
      → (sent_by p c dest d).ack_type_wanted ≡ 2
  publish_waits p o v dest d car =
      rw (send_reliable p c dest (record d { calls = suc d.calls }) car.rel_eq, car.mst_eq) refl

  -- And takes it.
  pub mote_acknowledged :
      (q : Packet) (o v : List ℕ) (addr : ℕ) (f : Frame) (s : Device)
      → Carries q 2 0 o v
      → s.ack_type_wanted ≡ 2
      → (t : Device) × (receive layout c addr (encode pad q) f s ≡ some t)
        × (t.ack_rcv ≡ true)
        × (t.sent ≡ s.sent)
  unfolding receive of_code
  mote_acknowledged q o v addr f s car wanted =
      let u = start_ping_thread c addr s in
      let k = start_ping_thread-Undisturbed c addr s in
      let read = decode-Carries layout pad q 2 0 o v fills (omega arith) (omega arith) car in
      (
        entered q f u,
        rw (read, puback_lem q c addr f u (rw car.mst_eq refl)) refl,
        entered-ack_rcv q f u (k.wanted_eq ∙ wanted ∙ sym car.mst_eq),
        entered-sent q f u ∙ k.sent_eq,
      )
