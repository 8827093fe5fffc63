-- ===== src/Host/Accepts.antt =====
-- handleMessage of ControlServer/SBVK_broker.c: it finishes.
use embedded_project_exam.Base.{
  ℕ, ◌≡◌, refl, Option, some, List, [], arith, take, ◌==◌, ==_true, if◌then◌else◌, Bool-cases, inl,
  inr, codes,
}
use embedded_project_exam.CString.{lit, text}
use embedded_project_exam.CString.Laws.{same, strcmp-same}
use embedded_project_exam.Protocol.{Packet, MessageType, of_code}
use embedded_project_exam.Protocol.Create.Laws.{Carries}
use embedded_project_exam.Topics.{Frame, store}
use embedded_project_exam.Topics.Spec.{recipients}
use embedded_project_exam.Topics.Laws.{subscribe_topic_lem, subscribed}
use embedded_project_exam.Topics.Names.{WellNamed-store, WellNamed-subscribed, WellNamed-take}
use embedded_project_exam.Topics.Loops.{forward}
use embedded_project_exam.Host.{Host}
use embedded_project_exam.Host.Handle.{
  get_message_type, push_message, note_ack, handle_hello, handle_publish, handle_subscribe,
  dispatch, handle_message,
}
use embedded_project_exam.Host.Sends.{
  sent_by, Emits, Same, Same-refl, sent_by-Same, hello_response-Emits, send_connect-Emits,
  conn_ack-Emits, sub_ack-Emits, pub_ack-Emits, pingresp-Emits,
}
use embedded_project_exam.Host.Relay.{Ready, Fits, PushedTo, PushedTo-Same, Same-Ready, loops_push}

note_ack-Same : (p : Packet) (s : Host) → Same s (note_ack p s)
unfolding note_ack
note_ack-Same p s = ground arith

-- The state in which the switch starts.
abbrev pub entered : Packet → Frame → Host → Host
entered p f s = note_ack p (record s { memory = store s.memory f.at p })

pub entered-Same :
    (p : Packet) (f : Frame) (s : Host)
    → Same (record s { memory = store s.memory f.at p }) (entered p f s)
entered-Same p f s = note_ack-Same p (record s { memory = store s.memory f.at p })

pub entered-Ready :
    (p : Packet) (f : Frame) (o : List ℕ) (s : Host)
    → text p.header_option ≡ some o
    → Ready s
    → Ready (entered p f s)
entered-Ready p f o s e h =
    Same-Ready _ _ (entered-Same p f s)
      (record { clean = h.clean; named = WellNamed-store s.memory f.at p o s.topics e h.named })

abbrev pub Finishes : Option Host → Type 0
Finishes r = (t : Host) × (r ≡ some t) × Ready t

Emits-Finishes :
    {r : Option Host} {s : Host} (sock dest : ℕ) {mst rel : ℕ} {o v : List ℕ}
    → Emits r s sock dest mst rel o v
    → Ready s
    → Finishes r
Emits-Finishes {s} sock dest (p, e, c) h =
    (sent_by p sock dest s, e, Same-Ready s _ (sent_by-Same p sock dest s) h)

-- The state in which the pushes of a publication start: a reliable one was acknowledged to its sender.
abbrev pub Acknowledged : Packet → ℕ → ℕ → Host → Host → Type 0
Acknowledged p sock addr s t =
    if p.rel == 1
    then ((q : Packet) × Carries q 2 0 [] (codes "  ") × (t ≡ sent_by q sock addr s))
    else (t ≡ s)

module _ (p : Packet) (sock addr : ℕ) (f : Frame) (o v : List ℕ) (fit : Fits p o v) where
  hello-Finishes : (s : Host) → Ready s → Finishes (handle_hello p sock addr s)
  unfolding handle_hello text
  hello-Finishes s h =
      let compared =
        strcmp-same p.header_option (lit "init") o (codes "init") fit.option_text refl in
      elim (Bool-cases (same o (codes "init"))) [
        | inl e ↦
            rw (compared, e) (Emits-Finishes sock addr (hello_response-Emits sock addr s h.clean) h)
        | inr e ↦
            rw (compared, e) (Emits-Finishes sock addr (send_connect-Emits sock addr s h.clean) h)
      ]

  pushes_from :
      (s s' : Host)
      → Ready s
      → Same s s'
      → (t : Host) × (forward
            (λ h. h.memory)
            (push_message p sock)
            p.header_option
            (take 2 s'.topics)
            s'
          ≡ some t)
        × PushedTo sock p o v (recipients s.memory o (take 2 s.topics)) s' t
        × Ready t
  pushes_from s s' h same =
      let k = Same-Ready s s' same h in
      let (t, run, g) =
        loops_push p sock o v fit (take 2 s'.topics) s' k.clean
          (WellNamed-take s'.memory 2 s'.topics k.named) in
      (
        t,
        run,
        rw (← same.memory_eq, ← same.topics_eq) g,
        Same-Ready s' t (PushedTo-Same sock p o v g) k,
      )

  -- Acknowledgement and pushes of a publication, from the state in which the switch starts.
  pub handle_publish_lem :
      (s : Host)
      → Ready s
      → (s' : Host) × (t : Host) × (handle_publish p sock addr s ≡ some t)
        × Acknowledged p sock addr s s'
        × PushedTo sock p o v (recipients s.memory o (take 2 s.topics)) s' t
        × Ready t
  unfolding handle_publish
  handle_publish_lem s h = elim (Bool-cases (p.rel == 1)) [
    | inr e ↦
        let (t, run, g, k) = pushes_from s s h (Same-refl s) in (s, t, rw e run, rw e refl, g, k)
    | inl e ↦
        let (q, acked, c) = pub_ack-Emits sock addr s h.clean in
        let s' = sent_by q sock addr s in
        let (t, run, g, k) = pushes_from s s' h (sent_by-Same q sock addr s) in
        (s', t, rw (e, acked) run, rw e (q, c, refl), g, k)
  ]

  subscribe-Finishes :
      (s : Host)
      → text (s.memory f.at).header_option ≡ some o
      → Ready s
      → Finishes (handle_subscribe p sock addr f s)
  unfolding handle_subscribe
  subscribe-Finishes s stored h =
      rw (subscribe_topic_lem s.memory p.header_option o addr f s.topics fit.option_text h.named) (
        Emits-Finishes sock addr
          (sub_ack-Emits sock addr (record s { topics = subscribed s.memory o addr f s.topics })
            h.clean)
          (record {
            clean = h.clean;
            named = WellNamed-subscribed s.memory o addr f s.topics stored h.named;
          }))

  dispatch-Finishes :
      (l : Option MessageType) (s : Host)
      → text (s.memory f.at).header_option ≡ some o
      → Ready s
      → Finishes (dispatch l p sock addr f s)
  unfolding dispatch
  dispatch-Finishes (some MessageType.hello) s st h = hello-Finishes s h
  dispatch-Finishes (some MessageType.publish) s st h =
      let (s', t, run, a, g, k) = handle_publish_lem s h in (t, run, k)
  dispatch-Finishes (some MessageType.subscribe) s st h = subscribe-Finishes s st h
  dispatch-Finishes (some MessageType.connect) s st h =
      Emits-Finishes sock addr (conn_ack-Emits sock addr s h.clean) h
  dispatch-Finishes (some MessageType.pingreq) s st h =
      Emits-Finishes sock addr (pingresp-Emits sock addr s h.clean) h
  dispatch-Finishes _ s st h = (s, refl, h)

  stored_option : (s : Host) → text ((entered p f s).memory f.at).header_option ≡ some o
  stored_option s = rw ((entered-Same p f s).memory_eq, ==_true f.at f.at refl) fit.option_text

  -- On a packet as above and from a state that is Ready, with the table's eleventh slot as storage, the call has
  -- an outcome, and that is Ready.
  pub handle_message_total : (s : Host) → Ready s → Finishes (handle_message p sock addr f s)
  unfolding handle_message
  handle_message_total s h =
      dispatch-Finishes (of_code (get_message_type p)) (entered p f s) (stored_option s)
        (entered-Ready p f o s fit.option_text h)
