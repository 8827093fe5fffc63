-- ===== src/Host/Runs.antt =====
-- Runs of ControlServer/SBVK_broker.c: messages handled one after another in one frame, then publishTo, against
-- the registry.
use embedded_project_exam.Base.{
  ℕ, ◌≡◌, ◌≢◌, true, refl, sym, ◌∙◌, ap, ◌⊎◌, inl, inr, Option, some, List, [], ◌∷◌, arith, ◌>>=◌,
  ==_true,
}
use embedded_project_exam.CString.{text}
use embedded_project_exam.Topics.Laws.{subscribed}
use mathlib.Core.Option.{some-injective}
use embedded_project_exam.Protocol.{Packet, MessageType, of_code}
use embedded_project_exam.Topics.{Topic, Frame, set_first, store}
use embedded_project_exam.Topics.Spec.{has_free, AreFree}
use embedded_project_exam.Host.{Host, emit}
use embedded_project_exam.Host.Handle.{get_message_type, handle_message, publish_to}
use embedded_project_exam.Host.Keeps.{Keeps, IsFrame, dispatch-Keeps}
use embedded_project_exam.Host.Sends.{sent_by, sent_by-Same}
use embedded_project_exam.Host.Relay.{Ready, Fits, PushedTo, publish_to-recipients}
use embedded_project_exam.Host.Accepts.{entered, entered-Same, handle_message_total}
use embedded_project_exam.Host.Table.{enrolled, handle_message-Enrolls}
use embedded_project_exam.Host.Registry.{
  Registry, nobody, claims, targets, Shows, Shows-store, Shows-subscribed, Shows-recipients,
}

-- A message as it comes in, the texts of its arrays, and what the stack holds in `tp`.
pub record Arrival : Type 0 where
  pub packet : Packet
  pub sock : ℕ
  pub sender : ℕ
  pub tp : Topic
  pub option_text : List ℕ
  pub payload_text : List ℕ

abbrev pub AllFit : List Arrival → Type 0
AllFit [] = Unit {0}
AllFit (x ∷ xs) = Fits x.packet x.option_text x.payload_text × AllFit xs

-- All calls of handleMessage, each with its packet at the address `a`.
unfoldable pub handle_all : ℕ → List Arrival → Host → Option Host
handle_all a [] s = some s
handle_all a (x ∷ xs) s = do
  s' ← handle_message x.packet x.sock x.sender (record { at = a; tp = x.tp }) s
  handle_all a xs s'

-- What a message means to the registry.
abbrev pub note : Arrival → Registry → Registry
note x r = record {
  holder = claims (of_code x.packet.mst) (set_first x.sender x.tp.ips) r.holder;
  topic = x.option_text;
}

unfoldable pub replay : List Arrival → Registry → Registry
replay [] r = r
replay (x ∷ xs) r = replay xs (note x r)

-- The memory and the table are as before.
record SameTable (s t : Host) : Type 0 where
  memory_eq : t.memory ≡ s.memory
  topics_eq : t.topics ≡ s.topics

emit-SameTable :
    (mst rel : ℕ) (option payload : List ℕ) (sock dest : ℕ) (s : Host)
    → Keeps SameTable (emit mst rel option payload sock dest s) s
unfolding emit
emit-SameTable mst rel option payload sock dest s t e = ground arith

SameTable-IsFrame : IsFrame SameTable
SameTable-IsFrame = record {
  stays = λ s. record { memory_eq = refl; topics_eq = refl };
  chains = λ s t u h k. record {
    memory_eq = k.memory_eq ∙ h.memory_eq;
    topics_eq = k.topics_eq ∙ h.topics_eq;
  };
  sends = emit-SameTable;
}

-- Messages that are no subscription leave the table alone.
handle_message-SameTable :
    (p : Packet) (sock addr : ℕ) (f : Frame) (s t : Host)
    → of_code p.mst ≢ some MessageType.subscribe
    → handle_message p sock addr f s ≡ some t
    → (t.memory ≡ store s.memory f.at p) × (t.topics ≡ s.topics)
unfolding handle_message get_message_type
handle_message-SameTable p sock addr f s t n e =
    let k =
      dispatch-Keeps SameTable SameTable-IsFrame p sock addr f (of_code p.mst) (entered p f s)
        (λ is. absurd (n is)) t e in
    let same = entered-Same p f s in (k.memory_eq ∙ same.memory_eq, k.topics_eq ∙ same.topics_eq)

-- A subscription leaves the table that `subscribed` states.
handle_message-subscribed :
    (p : Packet) (sock addr : ℕ) (f : Frame) (o v : List ℕ) (s t : Host)
    → Fits p o v
    → Ready s
    → of_code p.mst ≡ some MessageType.subscribe
    → handle_message p sock addr f s ≡ some t
    → (t.memory ≡ store s.memory f.at p)
      × (t.topics ≡ subscribed (store s.memory f.at p) o addr f s.topics)
handle_message-subscribed p sock addr f o v s t fit ready is e =
    let (q, u, run, _, sent) = handle_message-Enrolls p sock addr f o v fit s ready is in
    let after : t ≡ sent_by q sock addr (enrolled p addr f o s) =
      some-injective _ _ (sym e ∙ run) ∙ sent in
    let same = sent_by-Same q sock addr (enrolled p addr f o s) in
    (
      ap (λ (h : Host). h.memory) after ∙ same.memory_eq ∙ (entered-Same p f s).memory_eq,
      ap (λ (h : Host). h.topics) after ∙ same.topics_eq,
    )

claims-cases :
    (l : Option MessageType)
    → (l ≡ some MessageType.subscribe)
      ⊎ ((l ≢ some MessageType.subscribe)
          × ((ips : List ℕ) (held : Option (List ℕ)) → claims l ips held ≡ held))
claims-cases (some MessageType.subscribe) = inl refl
claims-cases _ = inr (λ e. cc e, λ ips held. refl)

-- The host after a message stands for the registry after it.
abbrev pub Represents : ℕ → Host → Registry → Type 0
Represents a s r = Shows a s.memory s.topics r.holder r.topic

pub handle_message-Represents :
    (a : ℕ) (x : Arrival) (s : Host) (r : Registry)
    → Fits x.packet x.option_text x.payload_text
    → Ready s
    → Represents a s r
    → (t : Host) × (handle_message x.packet x.sock x.sender (record { at = a; tp = x.tp }) s
        ≡ some t)
      × Ready t
      × Represents a t (note x r)
handle_message-Represents a x s r fit ready shows =
    let p = x.packet in
    let f : Frame = record { at = a; tp = x.tp } in
    let (t, run, k) =
      handle_message_total p x.sock x.sender f x.option_text x.payload_text fit s ready in
    let stored =
      Shows-store a s.memory p s.topics r.holder r.topic x.option_text fit.option_text shows in
    elim (claims-cases (of_code p.mst)) [
      | inl is ↦
          let (m, ts) =
            handle_message-subscribed p x.sock x.sender f x.option_text x.payload_text s t fit ready
              is run in
          let stored_text : text (store s.memory a p a).header_option ≡ some x.option_text =
            rw (==_true a a refl) fit.option_text in
          let after =
            Shows-subscribed a (store s.memory a p) x.sender x.tp s.topics r.holder x.option_text
              stored_text stored in
          (t, run, k, rw (m, ts, is) after)
      | inr (is_not, unclaimed) ↦
          let (m, ts) = handle_message-SameTable p x.sock x.sender f s t is_not run in
          (t, run, k, rw (m, ts, unclaimed) stored)
    ]

pub handle_all-Represents :
    (a : ℕ) (xs : List Arrival) (s : Host) (r : Registry)
    → AllFit xs
    → Ready s
    → Represents a s r
    → (t : Host) × (handle_all a xs s ≡ some t) × Ready t × Represents a t (replay xs r)
unfolding handle_all replay
handle_all-Represents a [] s r fit ready shows = (s, refl, ready, shows)
handle_all-Represents a (x ∷ xs) s r fit ready shows =
    let (u, first, k, w) = handle_message-Represents a x s r fit.0 ready shows in
    let (t, rest, k', w') = handle_all-Represents a xs u (note x r) fit.1 k w in
    (t, rw first rest, k', w')

module _ (a : ℕ) (xs : List Arrival) (p : Packet) (sock : ℕ) (o v : List ℕ) where
  -- A host that starts with an empty table with a free slot, in a state as handleMessage needs
  -- them, and handles any run of messages as handleMessage needs them, each in the one frame at
  -- address a, implements a registry of one subscription: that of the first SUBSCRIBE, whatever
  -- its topic, with what the stack held beside its address, read as a subscription to the topic of
  -- the last message. Nothing faults, and publishTo then pushes any message as it needs them to
  -- those addresses if the message is on the topic of the last one handled, and to nobody
  -- otherwise.
  pub publish_to-replay :
      (s : Host)
      → AllFit xs
      → Fits p o v
      → Ready s
      → AreFree s.topics
      → has_free s.topics ≡ true
      → (t : Host) × (u : Host) × (handle_all a xs s ≡ some t)
        × (publish_to p sock t ≡ some u)
        × PushedTo sock p o v (targets (replay xs nobody) o) t u
  publish_to-replay s fits fit ready free some_free =
      let (t, run, k, w) = handle_all-Represents a xs s nobody fits ready (free, some_free) in
      let (u, pushed, f) = publish_to-recipients p sock o v fit t k in
      (
        t,
        u,
        run,
        pushed,
        rw
            (Shows-recipients a t.memory t.topics (replay xs nobody).holder (replay xs nobody).topic
              10 o w)
            at f,
      )
