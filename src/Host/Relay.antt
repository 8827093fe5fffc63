-- ===== src/Host/Relay.antt =====
-- publishTo and handleMessage of ControlServer/SBVK_broker.c, against what the topic table stands for.
use embedded_project_exam.Base.{
  ℕ, ◌<◌, ◌≡◌, refl, sym, subst, not, some, List, ◌++◌, length, take, ◌==◌, if◌then◌else◌, codes,
}
use embedded_project_exam.CString.{text}
use embedded_project_exam.Protocol.{Packet}
use embedded_project_exam.Protocol.Create.Laws.{Carries}
use embedded_project_exam.Topics.{Topic}
use embedded_project_exam.Topics.Spec.{WellNamed, recipients}
use embedded_project_exam.Topics.Names.{WellNamed-take}
use embedded_project_exam.Topics.Loops.{Fanout, Fanout-Keeps, forward, forward-Fanout}
use embedded_project_exam.Host.{Host}
use embedded_project_exam.Host.Handle.{push_message, publish_to}
use embedded_project_exam.Host.Sends.{
  sent_by, IsClean, Same, Same-refl, Same-trans, sent_by-Same, IsClean-Same, push-Emits,
}

-- What the host needs to take a message: a stack that createPacket finds clean, readable names.
pub record Ready (s : Host) : Type 0 where
  pub clean : IsClean s
  pub named : WellNamed s.memory s.topics

-- A packet whose arrays hold texts, and whose payload leaves room for the two spaces of a relay.
pub record Fits (p : Packet) (o v : List ℕ) : Type 0 where
  pub option_text : text p.header_option ≡ some o
  pub payload_text : text p.payload ≡ some v
  pub option_fits : length o < 20
  pub payload_fits : length v < 48

-- Pushes of the message to a list of addresses, in order.
abbrev pub Pushes : ℕ → Packet → List ℕ → List ℕ → ℕ → Host → Host → Type 0
Pushes sock p o v ip s t =
    (q : Packet) × Carries q 12 (if not (p.rel == 0) then 1 else 0) o (codes "  " ++ v)
    × (t ≡ sent_by q sock ip s)

abbrev pub PushedTo : ℕ → Packet → List ℕ → List ℕ → List ℕ → Host → Host → Type 0
PushedTo sock p o v = Fanout (Pushes sock p o v)

pub PushedTo-Same :
    (sock : ℕ) (p : Packet) (o v : List ℕ) {ips : List ℕ} {s t : Host}
    → PushedTo sock p o v ips s t
    → Same s t
PushedTo-Same sock p o v f =
    Fanout-Keeps Same Same-refl Same-trans
      (λ ip u w h. subst (Same u) (sym (h.2)) (sent_by-Same h.0 sock ip u)) f

pub Same-Ready : (s t : Host) → Same s t → Ready s → Ready t
Same-Ready s t k h = record {
  clean = IsClean-Same s t k h.clean;
  named = rw (k.memory_eq, k.topics_eq) h.named;
}

module _ (p : Packet) (sock : ℕ) (o v : List ℕ) (fit : Fits p o v) where
  push_message-Pushes :
      (ip : ℕ) (u : Host)
      → IsClean u
      → (t : Host) × (push_message p sock ip u ≡ some t)
        × Pushes sock p o v ip u t
        × IsClean t
        × (t.memory ≡ u.memory)
  unfolding push_message
  push_message-Pushes ip u k =
      let (q, e, c) =
        push-Emits sock ip u k (not (p.rel == 0)) p.header_option p.payload o v fit.option_text
          fit.payload_text fit.option_fits fit.payload_fits in
      let same = sent_by-Same q sock ip u in
      (
        sent_by q sock ip u,
        e,
        (q, c, refl),
        IsClean-Same u (sent_by q sock ip u) same k,
        same.memory_eq,
      )

  pub loops_push :
      (ts : List Topic) (s : Host)
      → IsClean s
      → WellNamed s.memory ts
      → (t : Host) × (forward (λ h. h.memory) (push_message p sock) p.header_option ts s ≡ some t)
        × PushedTo sock p o v (recipients s.memory o ts) s t
  loops_push ts s c w =
      let (t, e, f, _) =
        forward-Fanout (λ h. h.memory) (push_message p sock) IsClean (Pushes sock p o v)
          push_message-Pushes p.header_option o ts s c w fit.option_text in
      (t, e, f)

  -- publishTo, on a packet and in a state as handleMessage needs them (texts of at most 19 and 47
  -- bytes in the arrays, an empty modifPayload at every call of createPacket, names in the table
  -- that point at texts), runs without a fault and pushes the message, reliably exactly if its
  -- `rel` is set and with two spaces before its payload, to the addresses of all slots among the
  -- first eleven whose name reads as its topic, in their order, and sends nothing else.
  pub publish_to-recipients :
      (s : Host)
      → Ready s
      → (t : Host) × (publish_to p sock s ≡ some t)
        × PushedTo sock p o v (recipients s.memory o (take 11 s.topics)) s t
  unfolding publish_to
  publish_to-recipients s h =
      loops_push (take 11 s.topics) s h.clean (WellNamed-take s.memory 11 s.topics h.named)
