-- ===== src/Host/Table.antt =====
-- PUBLISH and SUBSCRIBE in handleMessage of ControlServer/SBVK_broker.c, against the topic table.
use embedded_project_exam.Base.{
  ℕ, ◌≡◌, refl, sym, ◌∙◌, subst, false, Option, some, List, [], take, ==_true, codes,
}
use embedded_project_exam.Protocol.{Packet, MessageType, of_code}
use embedded_project_exam.Protocol.Create.Laws.{Carries}
use embedded_project_exam.Topics.{Frame, set_first, subscribe_topic, store}
use embedded_project_exam.Topics.Spec.{recipients, registered}
use embedded_project_exam.Topics.Laws.{subscribe_topic_lem, subscribed, recipients-subscribed}
use embedded_project_exam.Topics.Names.{WellNamed-store}
use embedded_project_exam.Topics.Loops.{Fanout-nil}
use embedded_project_exam.Host.{Host}
use embedded_project_exam.Host.Handle.{get_message_type, handle_subscribe, dispatch, handle_message}
use embedded_project_exam.Host.Sends.{sent_by, sent_by-Same, sub_ack-Emits}
use embedded_project_exam.Topics.Spec.{has_topic, NoneAt}
use embedded_project_exam.Topics.Names.{recipients-store_fresh, registered-store_fresh}
use embedded_project_exam.Topics.Laws.{recipients_missing}
use embedded_project_exam.Host.Relay.{Ready, Fits, PushedTo}
use embedded_project_exam.Host.Accepts.{
  entered, entered-Same, entered-Ready, Acknowledged, handle_publish_lem,
}

-- The state in which the acknowledgement of a subscription is sent.
abbrev pub enrolled : Packet → ℕ → Frame → List ℕ → Host → Host
enrolled p addr f o s = record (entered p f s) {
  topics = subscribed (store s.memory f.at p) o addr f s.topics;
}

-- A subscription is acknowledged, and the table is as the loops leave it.
abbrev pub Enrolls : Option Host → Packet → ℕ → ℕ → Frame → List ℕ → Host → Type 0
Enrolls r p sock addr f o s =
    (q : Packet) × (t : Host) × (r ≡ some t)
    × Carries q 4 0 [] (codes "  ")
    × (t ≡ sent_by q sock addr (enrolled p addr f o s))

-- It has on every topic the effect that `registered` states, from where messages went before the call to where
-- they go after it.
abbrev pub Subscribes : Option Host → Packet → ℕ → ℕ → Frame → List ℕ → Host → Type 0
Subscribes r p sock addr f o s =
    (q : Packet) × (t : Host) × (r ≡ some t)
    × Carries q 4 0 [] (codes "  ")
    × (t ≡ sent_by q sock addr (enrolled p addr f o s))
    × ((w : List ℕ)
        → recipients t.memory w t.topics
          ≡ registered s.memory o (set_first addr f.tp.ips) s.topics w)

module _ (p : Packet) (sock addr : ℕ) (f : Frame) (o v : List ℕ) (fit : Fits p o v) where
  -- A PUBLISH handled by the host, on a packet and in a state as handleMessage needs them, in a
  -- frame that no name in the first two slots points at, whose topic none of the first two slots
  -- carries, is acknowledged exactly if its `rel` is 1 and goes to nobody, whoever subscribed to
  -- it in the other slots.
  pub publish_misses :
      (s : Host)
      → Ready s
      → of_code p.mst ≡ some MessageType.publish
      → NoneAt f.at (take 2 s.topics)
      → has_topic s.memory o (take 2 s.topics) ≡ false
      → (t : Host) × (handle_message p sock addr f s ≡ some t)
        × Acknowledged p sock addr (entered p f s) t
  unfolding handle_message get_message_type dispatch
  publish_misses s h e away missing =
      let (s', t, run, a, g, k) =
        handle_publish_lem p sock addr f o v fit (entered p f s)
          (entered-Ready p f o s fit.option_text h) in
      let none_there =
        recipients-store_fresh s.memory f.at p o (take 2 s.topics) away
        ∙ recipients_missing s.memory o (take 2 s.topics) missing in
      let same = entered-Same p f s in
      let nobody : PushedTo sock p o v [] s' t =
        rw (same.memory_eq, same.topics_eq, none_there) at g in
      (t, rw e run, subst (Acknowledged p sock addr (entered p f s)) (sym (Fanout-nil nobody)) a)

  table_after :
      (s : Host)
      → Ready s
      → subscribe_topic (entered p f s).memory p.header_option addr f (entered p f s).topics
        ≡ some (subscribed (store s.memory f.at p) o addr f s.topics)
  table_after s h =
      rw ((entered-Same p f s).memory_eq, (entered-Same p f s).topics_eq)
        (subscribe_topic_lem (store s.memory f.at p) p.header_option o addr f s.topics
          fit.option_text (WellNamed-store s.memory f.at p o s.topics fit.option_text h.named))

  recipients_after :
      (s : Host) (q : Packet) (w : List ℕ)
      → recipients
          (sent_by q sock addr (enrolled p addr f o s)).memory
          w
          (sent_by q sock addr (enrolled p addr f o s)).topics
        ≡ registered (store s.memory f.at p) o (set_first addr f.tp.ips) s.topics w
  recipients_after s q w =
      let k = sent_by-Same q sock addr (enrolled p addr f o s) in
      rw (k.memory_eq, k.topics_eq, (entered-Same p f s).memory_eq)
        (recipients-subscribed (store s.memory f.at p) o addr f s.topics w
          (rw (==_true f.at f.at refl) fit.option_text))

  pub handle_message-Enrolls :
      (s : Host)
      → Ready s
      → of_code p.mst ≡ some MessageType.subscribe
      → Enrolls (handle_message p sock addr f s) p sock addr f o s
  unfolding handle_message get_message_type dispatch handle_subscribe
  handle_message-Enrolls s h e =
      let (q, run, c) =
        sub_ack-Emits sock addr (enrolled p addr f o s)
          (entered-Ready p f o s fit.option_text h).clean in
      (q, sent_by q sock addr (enrolled p addr f o s), rw (e, table_after s h) run, c, refl)

  -- A SUBSCRIBE handled by the host, on a packet and in a state as handleMessage needs them (texts
  -- of at most 19 and 47 bytes in the arrays, an empty modifPayload at every call of createPacket,
  -- names in the table that point at texts), in a stack frame that no name in the table points at,
  -- is answered with a SUBACK in every case, and changes where messages go, from before the call
  -- to after it, as follows: if the topic is in the table nothing changes for any topic; if it is
  -- new and a slot is free, it gets the subscriber's address and what the stack held beside it,
  -- and no other topic changes; if the table is full nothing changes. The table is the eleven
  -- slots that the loops visit; the last lies past the declared array.
  pub handle_message-registered :
      (s : Host)
      → Ready s
      → of_code p.mst ≡ some MessageType.subscribe
      → NoneAt f.at s.topics
      → Subscribes (handle_message p sock addr f s) p sock addr f o s
  handle_message-registered s h e away =
      let (q, t, run, c, sent) = handle_message-Enrolls s h e in
      (
        q,
        t,
        run,
        c,
        sent,
        λ w. rw sent (
            recipients_after s q w
            ∙ registered-store_fresh s.memory f.at p o (set_first addr f.tp.ips) w s.topics away),
      )
