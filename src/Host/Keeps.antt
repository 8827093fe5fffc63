-- ===== src/Host/Keeps.antt =====
-- A rule for what handleMessage and publishTo of ControlServer/SBVK_broker.c leaves true, whatever it does: a relation between the state
-- before and after that is reflexive, transitive and holds of sending, and of each assignment that the
-- message's case makes, holds of the whole handler.
use embedded_project_exam.Base.{
  ℕ, ◌≡◌, refl, subst, Bool, true, false, Option, none, some, List, arith, take, ◌==◌,
  if◌then◌else◌, ◌>>=◌, inl, inr, Option-cases, >>=-eq_some,
}
use mathlib.Core.Option.{some-injective}
use embedded_project_exam.CString.{strcmp, lit}
use embedded_project_exam.Protocol.{Packet, MessageType}
use embedded_project_exam.Topics.{Topic, Frame, subscribe_topic}
use embedded_project_exam.Topics.Loops.{forward-Keeps}
use embedded_project_exam.Host.{Host, emit}
use embedded_project_exam.Host.Messages.{
  hello, send_connect, conn_ack, sub_ack, pub_ack, push, pingresp,
}
use embedded_project_exam.Topics.Loops
use embedded_project_exam.Host.Handle.{
  push_message, publish_to, handle_hello, handle_publish, handle_subscribe, dispatch,
}

-- The relation holds of the state after, if the call finishes.
abbrev pub Keeps : (Host → Host → Type 0) → Option Host → Host → Type 0
Keeps R r s = (t : Host) → r ≡ some t → R s t

-- What the rule asks of the relation in every case.
pub record IsFrame (R : Host → Host → Type 0) : Type 0 where
  pub stays : (s : Host) → R s s
  pub chains : (s t u : Host) → R s t → R t u → R s u
  pub sends :
      (mst rel : ℕ) (option payload : List ℕ) (sock dest : ℕ) (s : Host)
      → Keeps R (emit mst rel option payload sock dest s) s

-- What it asks of the one assignment that a case makes.
abbrev pub Subscribing : (Host → Host → Type 0) → Packet → ℕ → Frame → Type 0
Subscribing R p addr f =
    (s : Host) (ts : List Topic)
    → subscribe_topic s.memory p.header_option addr f s.topics ≡ some ts
    → R s (record s { topics = ts })

module _ (R : Host → Host → Type 0) (frame : IsFrame R) where
  stay : (s : Host) → Keeps R (some s) s
  stay s t e = subst (R s) (some-injective _ _ e) (frame.stays s)

  bind :
      (r : Option Host) (k : Host → Option Host) (s : Host)
      → Keeps R r s
      → ((u : Host) → Keeps R (k u) u)
      → Keeps R (r >>= k) s
  bind none k s h hk t e = cc
  bind (some u) k s h hk t e = frame.chains s u t (h u refl) (hk u t e)

  when : (b : Bool) (r : Option Host) (s : Host) → Keeps R r s → Keeps R (if b then r else some s) s
  when true r s h = h
  when false r s h = stay s

  push_kept :
      (sock dest : ℕ) (command : Bool) (option payload : List ℕ) (s : Host)
      → Keeps R (push sock dest command option payload s) s
  unfolding push
  push_kept sock dest true option payload s = frame.sends _ _ option payload sock dest s
  push_kept sock dest false option payload s = frame.sends _ _ option payload sock dest s

  loops_kept :
      (p : Packet) (sock : ℕ) (ts : List Topic) (s : Host)
      → Keeps R (Loops.forward (λ h. h.memory) (push_message p sock) p.header_option ts s) s
  unfolding push_message
  loops_kept p sock ts s t e =
      forward-Keeps (λ h. h.memory) (push_message p sock) R frame.stays frame.chains
        (λ ip u w h. push_kept sock ip _ _ _ u w h) p.header_option ts s t e

  -- The rule for publishTo.
  pub publish_to-Keeps : (p : Packet) (sock : ℕ) (s : Host) → Keeps R (publish_to p sock s) s
  unfolding publish_to
  publish_to-Keeps p sock s = loops_kept p sock (take 11 s.topics) s

  module _ (p : Packet) (sock addr : ℕ) (f : Frame) where
    hello_kept : (s : Host) → Keeps R (handle_hello p sock addr s) s
    unfolding handle_hello hello send_connect
    hello_kept s t e = elim (Option-cases (strcmp p.header_option (lit "init"))) [
      | inl fault ↦ absurd (ground (arith, fault))
      | inr (true, found) ↦
          frame.sends _ _ (lit "response") (lit "testpayload") sock addr s t (rw found at e)
      | inr (false, found) ↦
          frame.sends _ _ (lit "CONNECT") (lit "testpayload") sock addr s t (rw found at e)
    ]

    publish_kept : (s : Host) → Keeps R (handle_publish p sock addr s) s
    unfolding handle_publish pub_ack
    publish_kept s =
        bind (if p.rel == 1 then pub_ack sock addr s else some s)
          (λ u.
            Loops.forward (λ h. h.memory) (push_message p sock) p.header_option (take 2 u.topics) u)
          s (when (p.rel == 1) _ s (frame.sends _ _ (lit "") (lit "") sock addr s))
          (λ u. loops_kept p sock (take 2 u.topics) u)

    -- The rule for the switch of handleMessage.
    pub dispatch-Keeps :
        (l : Option MessageType) (s : Host)
        → (l ≡ some MessageType.subscribe → Subscribing R p addr f)
        → Keeps R (dispatch l p sock addr f s) s
    unfolding dispatch conn_ack pingresp sub_ack handle_subscribe
    dispatch-Keeps (some MessageType.hello) s a t e = hello_kept s t e
    dispatch-Keeps (some MessageType.publish) s a t e = publish_kept s t e
    dispatch-Keeps (some MessageType.subscribe) s a t e =
        let (ts, found, sent) =
          >>=-eq_some (subscribe_topic s.memory p.header_option addr f s.topics) _ e in
        frame.chains s (record s { topics = ts }) t (a refl s ts found)
          (frame.sends _ _ (lit "") (lit "") sock addr (record s { topics = ts }) t sent)
    dispatch-Keeps (some MessageType.connect) s a t e =
        frame.sends _ _ (lit "CONNACK") (lit "testpayload") sock addr s t e
    dispatch-Keeps (some MessageType.pingreq) s a t e =
        frame.sends _ _ (lit "PINGRESP") (lit "pingRespTestPayload") sock addr s t e
    dispatch-Keeps _ s a t e = stay s t e
