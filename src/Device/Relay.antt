-- ===== src/Device/Relay.antt =====
-- PUBLISH and SUBSCRIBE in handleMessage of SBVK.c, against what the topic table stands for.
use embedded_project_exam.Base.{
  ℕ, ◌≡◌, refl, ◌∙◌, not, Option, some, List, [], ◌++◌, take, ◌==◌, ==_true, if◌then◌else◌,
  Bool-cases, inl, inr, codes,
}
use embedded_project_exam.Protocol.{Packet, MessageType, of_code, get_message_type}
use embedded_project_exam.Protocol.Create.Laws.{Carries}
use embedded_project_exam.Topics.{Frame, set_first, subscribe_topic, store}
use embedded_project_exam.Topics.Spec.{recipients, everyone, registered, AllPointAt, NoneAt}
use embedded_project_exam.Topics.Laws.{subscribe_topic_lem, subscribed, recipients-subscribed}
use embedded_project_exam.Topics.Names.{
  WellNamed-take, WellNamed-store, AllPointAt-take, recipients-store_alias, recipients-store_fresh,
  registered-store_fresh,
}
use embedded_project_exam.Device.{Device}
use embedded_project_exam.Device.Handle.{
  forward, handle_publish, handle_subscribe, dispatch, handle_message,
}
use embedded_project_exam.Device.Fanout.{
  Same, Same-refl, sent_by-Same, IsClean-Same, PushedTo, forward-PushedTo,
}
use embedded_project_exam.Device.Sends.{sent_by, flag, sub_ack-Emits, pub_ack-Emits}
use embedded_project_exam.Device.Accepts.{Ready, Fits, entered, entered-Ready, note_ack-Same}

-- The state in which the pushes of a publication start: a reliable one was acknowledged to its sender.
abbrev pub Acknowledged : Packet → ℕ → ℕ → Device → Device → Type 0
Acknowledged p conn addr s t =
    if p.rel == 1
    then ((q : Packet) × Carries q 2 0 [] (codes "  ") × (t ≡ sent_by q conn addr s))
    else (t ≡ s)

-- A publication is acknowledged if it is reliable, and then pushed, as reliably, to the topic's
-- recipients in the first two slots.
abbrev pub Publishes :
    Option Device → Packet → ℕ → ℕ → Frame → List ℕ → List ℕ → List ℕ → Device → Type 0
Publishes r p conn addr f o v ips s =
    (s' : Device) × (t : Device) × (r ≡ some t)
    × Acknowledged p conn addr (entered p f s) s'
    × PushedTo conn (flag (not (p.rel == 0))) o (codes "  " ++ v) ips s' t

-- The state in which the acknowledgement of a subscription is sent.
abbrev pub enrolled : Packet → ℕ → Frame → List ℕ → Device → Device
enrolled p addr f o s = record (entered p f s) {
  topics = subscribed (store s.memory f.at p) o addr f s.topics;
}

-- A subscription is acknowledged, and the table is as the loops leave it.
abbrev pub Enrolls : Option Device → Packet → ℕ → ℕ → Frame → List ℕ → Device → Type 0
Enrolls r p conn addr f o s =
    (q : Packet) × (t : Device) × (r ≡ some t)
    × Carries q 4 0 [] (codes "  ")
    × (t ≡ sent_by q conn addr (enrolled p addr f o s))

-- It has on every topic the effect that `registered` states, from where messages went before the call to where
-- they go after it.
abbrev pub Subscribes : Option Device → Packet → ℕ → ℕ → Frame → List ℕ → Device → Type 0
Subscribes r p conn addr f o s =
    (q : Packet) × (t : Device) × (r ≡ some t)
    × Carries q 4 0 [] (codes "  ")
    × (t ≡ sent_by q conn addr (enrolled p addr f o s))
    × ((w : List ℕ)
        → recipients t.memory w t.topics
          ≡ registered s.memory o (set_first addr f.tp.ips) s.topics w)

module _ (p : Packet) (conn addr : ℕ) (f : Frame) (o v : List ℕ) (s : Device) (fit : Fits p o v)
    (h : Ready s) where
  entered-topics : (entered p f s).topics ≡ s.topics
  entered-topics = (note_ack-Same p (record s { memory = store s.memory f.at p })).topics_eq

  entered-stored : (entered p f s).memory ≡ store s.memory f.at p
  entered-stored = (note_ack-Same p (record s { memory = store s.memory f.at p })).memory_eq

  pushes_from :
      (s' : Device)
      → Ready (entered p f s)
      → Same (entered p f s) s'
      → (t : Device) × (forward p conn (take 2 s'.topics) s' ≡ some t)
        × PushedTo conn
            (flag (not (p.rel == 0)))
            o
            (codes "  " ++ v)
            (recipients (store s.memory f.at p) o (take 2 s.topics))
            s'
            t
  pushes_from s' k same =
      let topics = same.topics_eq ∙ entered-topics in
      let memory = same.memory_eq ∙ entered-stored in
      rw (← memory, ← topics)
        (forward-PushedTo p conn (take 2 s'.topics) o v s' (IsClean-Same _ s' same k.clean)
          (WellNamed-take s'.memory 2 s'.topics (rw (same.memory_eq, same.topics_eq) k.named))
          fit.option_text fit.payload_text fit.option_fits fit.payload_fits)

  handle_publish-Publishes :
      Publishes
        (handle_publish p conn addr (entered p f s))
        p
        conn
        addr
        f
        o
        v
        (recipients (store s.memory f.at p) o (take 2 s.topics))
        s
  unfolding handle_publish
  handle_publish-Publishes =
      let k = entered-Ready p f o s fit.option_text h in
      elim (Bool-cases (p.rel == 1)) [
        | inr e ↦
            let (t, run, fan) = pushes_from (entered p f s) k (Same-refl (entered p f s)) in
            (entered p f s, t, rw e run, rw e refl, fan)
        | inl e ↦
            let (q, acked, c) = pub_ack-Emits conn addr (entered p f s) k.clean in
            let s' = sent_by q conn addr (entered p f s) in
            let (t, run, fan) = pushes_from s' k (sent_by-Same q conn addr (entered p f s)) in
            (s', t, rw (e, acked) run, rw e (q, c, refl), fan)
      ]

  -- A PUBLISH handled by SBVK.c, on a packet and in a state as handleMessage needs them (texts of
  -- at most 19 and 47 bytes in the arrays, an empty modifPayload at every call of createPacket,
  -- names in the table that point at texts), in a stack frame that no name in the first two slots
  -- points at: the sender gets a PUBACK exactly if `rel` is 1, and then the message is pushed,
  -- reliably exactly if it came reliably and with two spaces before its payload, to the addresses
  -- of the slots among the first two whose name reads as its topic, in their order, and nothing
  -- else is sent.
  pub publish-recipients :
      of_code p.mst ≡ some MessageType.publish
      → NoneAt f.at (take 2 s.topics)
      → Publishes
          (handle_message p conn addr f s)
          p
          conn
          addr
          f
          o
          v
          (recipients s.memory o (take 2 s.topics))
          s
  unfolding handle_message get_message_type dispatch
  publish-recipients e away =
      rw (e, ← recipients-store_fresh s.memory f.at p o (take 2 s.topics) away)
        handle_publish-Publishes

  -- In the frame that every name points at, it goes to every subscriber of every topic there.
  pub publish-everyone :
      of_code p.mst ≡ some MessageType.publish
      → AllPointAt f.at s.topics
      → Publishes (handle_message p conn addr f s) p conn addr f o v (everyone (take 2 s.topics)) s
  unfolding handle_message get_message_type dispatch
  publish-everyone e alias =
      rw
        (
          e,
          ← recipients-store_alias s.memory f.at p o (take 2 s.topics)
              (AllPointAt-take f.at 2 s.topics alias) fit.option_text,
        )
        handle_publish-Publishes

  table_after :
      subscribe_topic (entered p f s).memory p.header_option addr f (entered p f s).topics
      ≡ some (subscribed (store s.memory f.at p) o addr f s.topics)
  table_after =
      rw (entered-stored, entered-topics)
        (subscribe_topic_lem (store s.memory f.at p) p.header_option o addr f s.topics
          fit.option_text (WellNamed-store s.memory f.at p o s.topics fit.option_text h.named))

  recipients_after :
      (q : Packet) (w : List ℕ)
      → recipients
          (sent_by q conn addr (enrolled p addr f o s)).memory
          w
          (sent_by q conn addr (enrolled p addr f o s)).topics
        ≡ registered (store s.memory f.at p) o (set_first addr f.tp.ips) s.topics w
  recipients_after q w =
      let k = sent_by-Same q conn addr (enrolled p addr f o s) in
      rw (k.memory_eq, k.topics_eq, entered-stored)
        (recipients-subscribed (store s.memory f.at p) o addr f s.topics w
          (rw (==_true f.at f.at refl) fit.option_text))

  subscribe-Enrolls :
      of_code p.mst ≡ some MessageType.subscribe
      → Enrolls (handle_message p conn addr f s) p conn addr f o s
  unfolding handle_message get_message_type dispatch handle_subscribe
  subscribe-Enrolls e =
      let (q, run, c) =
        sub_ack-Emits conn addr (enrolled p addr f o s)
          (entered-Ready p f o s fit.option_text h).clean in
      (q, sent_by q conn addr (enrolled p addr f o s), rw (e, table_after) run, c, refl)

  -- A SUBSCRIBE handled by SBVK.c, on a packet and in a state as handleMessage needs them (texts
  -- of at most 19 and 47 bytes in the arrays, an empty modifPayload at every call of createPacket,
  -- names in the table that point at texts), in a stack frame that no name in the table points at,
  -- is answered with a SUBACK in every case, and changes where messages go, from before the call
  -- to after it, as follows: if the topic is in the table nothing changes for any topic; if it is
  -- new and a slot is free, it gets the subscriber's address and what the stack held beside it,
  -- and no other topic changes; if the table is full nothing changes. The table is the two slots
  -- that the loops visit; the second lies past the declared array.
  pub subscribe-registered :
      of_code p.mst ≡ some MessageType.subscribe
      → NoneAt f.at s.topics
      → Subscribes (handle_message p conn addr f s) p conn addr f o s
  subscribe-registered e away =
      let (q, t, run, c, sent) = subscribe-Enrolls e in
      (
        q,
        t,
        run,
        c,
        sent,
        λ w. rw sent (
            recipients_after q w
            ∙ registered-store_fresh s.memory f.at p o (set_first addr f.tp.ips) w s.topics away),
      )
