-- ===== src/Device/Sound.antt =====
-- What a mote keeps true of its own state, whatever it does: SBVK.c.
pub mod Timers
use embedded_project_exam.Base.{
  ℕ, suc, ◌+◌, ◌<◌, ◌≡◌, refl, sym, ◌∙◌, subst, ap, ◌⊎◌, inl, inr, Bool, true, false, Option, none,
  some, List, [], ◌∷◌, arith, length, ◌==◌, ltb, Option-cases, Bool-cases, >>=-eq_some, ◌>>=◌,
  if◌then◌else◌,
}
use mathlib.Core.Option.{some-injective}
use embedded_project_exam.CString.{lit}
use embedded_project_exam.Protocol.{Packet, MessageType, of_code, get_message_type}
use embedded_project_exam.Protocol.Create.{create_packet}
use embedded_project_exam.Protocol.Create.Sizes.{Sized, create_packet-IsPacket}
use embedded_project_exam.Protocol.Wire.Laws.{IsPacket}
use embedded_project_exam.Topics.{
  Topic, Frame, set_first, claim_slot, subscribe_topic, enroll, store, Memory,
}
use embedded_project_exam.Topics.Laws.{slot_of, enroll-unchanged, length-claim_slot}
use embedded_project_exam.Device
use embedded_project_exam.Device.{Device, make, emit, send_packet}
use embedded_project_exam.Device.Processes.{
  ack_thread_expires, start_ping_thread, wait_ping_expires, wait_ping_round,
}
use embedded_project_exam.Device.Messages.{pingreq, disconnect}
use embedded_project_exam.Device.Handle.{note_ack, handle_message}
use embedded_project_exam.Device.Keeps.{Keeps, IsFrame, Assigns, dispatch-Keeps}

abbrev pub AllPackets : List Device.Sent → Type 0
AllPackets [] = Unit {0}
AllPackets (x ∷ xs) = IsPacket x.packet × AllPackets xs

-- Every slot has room for two addresses.
abbrev pub AllWide : List Topic → Type 0
AllWide [] = Unit {0}
AllWide (t ∷ ts) = (length t.ips ≡ 2) × AllWide ts

-- Who waits for an acknowledgement has the process that sends again running; a ping process has pings left;
-- arrays and packets have the sizes that C declares.
pub record Sound (s : Device) : Type 0 where
  pub covered : (s.ack_rcv ≡ true) ⊎ ((s.ack_thread ≡ true) ⊎ (s.ack_type_wanted ≡ 0))
  pub pings : s.wait_ping_process ≡ true → s.count_ping < 5
  pub slots : length s.topics ≡ 2
  pub wide : AllWide s.topics
  pub sized : (n : ℕ) → Sized (s.locals n)
  pub resends : IsPacket s.packet_ack
  pub sends : AllPackets s.sent

abbrev pub StaysSound : Device → Device → Type 0
StaysSound s t = Sound s → Sound t

send_packet-Sound :
    (p : Packet) (conn dest : ℕ) (s : Device)
    → IsPacket p
    → Sound s
    → Sound (send_packet p conn dest s)
unfolding send_packet
send_packet-Sound p conn dest s is h = elim (Bool-cases (p.rel == 0)) [
  | inl e ↦ rw e (ground arith)
  | inr e ↦ rw e (ground arith)
]

pub emit-Sound :
    (mst rel : ℕ) (option payload : List ℕ) (conn dest : ℕ) (s : Device)
    → Keeps StaysSound (emit mst rel option payload conn dest s) s
unfolding emit make
emit-Sound mst rel option payload conn dest s t e h =
    elim (Option-cases (create_packet (s.locals s.calls) mst rel option payload)) [
      | inl fault ↦ absurd (ground (arith, fault))
      | inr (p, made) ↦ subst Sound (some-injective _ _ (rw made at e)) (
          send_packet-Sound p conn dest (record s { calls = suc s.calls })
            (create_packet-IsPacket (s.locals s.calls) mst rel option payload p (h.sized s.calls)
              made)
            (ground arith))
    ]

StaysSound-IsFrame : IsFrame StaysSound
StaysSound-IsFrame = record {
  stays = λ s h. h;
  chains = λ s t u h k w. k (h w);
  sends = emit-Sound;
}

AllWide-claim_slot :
    (tp : Topic) (created : Bool) (ts : List Topic)
    → length tp.ips ≡ 2
    → AllWide ts
    → AllWide (claim_slot tp created ts)
unfolding claim_slot
AllWide-claim_slot tp created [] h w = tt
AllWide-claim_slot tp created (t ∷ ts) h w =
    ground (arith, AllWide-claim_slot tp created ts h w.1, AllWide-claim_slot tp true ts h w.1)

length-set_first : (addr : ℕ) (ips : List ℕ) → length (set_first addr ips) ≡ length ips
length-set_first addr [] = refl
length-set_first addr (ip ∷ ips) = refl

AllWide-subscribe_topic :
    (m : Memory) (option : List ℕ) (addr : ℕ) (f : Frame) (ts us : List Topic)
    → length f.tp.ips ≡ 2
    → subscribe_topic m option addr f ts ≡ some us
    → AllWide ts
    → AllWide us × (length us ≡ length ts)
unfolding subscribe_topic
AllWide-subscribe_topic m option addr f ts us l e w =
    elim (Option-cases (enroll m option addr ts)) [
      | inl fault ↦ absurd (ground (arith, fault))
      | inr ((vs, true), found) ↦
          let after : us ≡ ts =
            sym (some-injective _ _ (rw found at e))
            ∙ enroll-unchanged m option addr ts vs true found in
          rw after (w, refl)
      | inr ((vs, false), found) ↦
          let same = enroll-unchanged m option addr ts vs false found in
          let after : us ≡ claim_slot (slot_of addr f) false ts =
            sym (some-injective _ _ (rw found at e))
            ∙ ap (λ (xs : List Topic). claim_slot (slot_of addr f) false xs) same in
          rw after (
            AllWide-claim_slot (slot_of addr f) false ts (length-set_first addr f.tp.ips ∙ l) w,
            length-claim_slot (slot_of addr f) false ts,
          )
    ]

entered-Sound :
    (p : Packet) (f : Frame) (s : Device)
    → Sound s
    → Sound (note_ack p (record s { memory = store s.memory f.at p }))
unfolding note_ack
entered-Sound p f s h = ground arith

pub handle_message-Sound :
    (p : Packet) (conn addr : ℕ) (f : Frame) (s t : Device)
    → length f.tp.ips ≡ 2
    → handle_message p conn addr f s ≡ some t
    → Sound s
    → Sound t
unfolding handle_message
handle_message-Sound p conn addr f s t l e h =
    dispatch-Keeps StaysSound StaysSound-IsFrame p conn addr f (of_code (get_message_type p)) _
      (record {
        connects = λ c u k. ground arith;
        disconnects = λ c u k. ground arith;
        unpings = λ c u k. ground arith;
        pushed = λ c u k. ground arith;
        subscribes = λ c u ts found k.
            let (w, n) =
              AllWide-subscribe_topic u.memory p.header_option addr f u.topics ts l found k.wide in
            ground arith;
      })
      t e (entered-Sound p f s h)
