-- ===== src/Device/Keeps.antt =====
-- A rule for what handleMessage of SBVK.c leaves true, whatever it does: a relation between the state
-- before and after that is reflexive, transitive and holds of sending, and of each assignment that the
-- message's case makes, holds of the whole handler.
use embedded_project_exam.Base.{
  ℕ, ◌≡◌, refl, subst, Bool, true, false, Option, none, some, List, arith, take, ◌==◌,
  if◌then◌else◌, ◌>>=◌, inl, inr, Option-cases,
}
use mathlib.Core.Option.{some-injective}
use embedded_project_exam.CString.{strcmp, lit}
use embedded_project_exam.Protocol.{Packet, MessageType}
use embedded_project_exam.Topics.{Topic, Frame, subscribe_topic}
use embedded_project_exam.Topics.Loops.{forward-Keeps}
use embedded_project_exam.Device.{Device, emit}
use embedded_project_exam.Device.Messages.{
  hello, connect, conn_ack, sub_ack, pub_ack, push, push_ack, pingresp,
}
use embedded_project_exam.Device.Processes.{stop_ping_thread}
use embedded_project_exam.Device.Handle.{
  push_message, forward, handle_hello, handle_publish, handle_subscribe, handle_push, dispatch,
}

-- The relation holds of the state after, if the call finishes.
abbrev pub Keeps : (Device → Device → Type 0) → Option Device → Device → Type 0
Keeps R r s = (t : Device) → r ≡ some t → R s t

-- What the rule asks of the relation in every case.
pub record IsFrame (R : Device → Device → Type 0) : Type 0 where
  pub stays : (s : Device) → R s s
  pub chains : (s t u : Device) → R s t → R t u → R s u
  pub sends :
      (mst rel : ℕ) (option payload : List ℕ) (conn dest : ℕ) (s : Device)
      → Keeps R (emit mst rel option payload conn dest s) s

-- What it asks in the case `l`, of the assignments made there.
pub record Assigns (R : Device → Device → Type 0) (l : Option MessageType) (p : Packet) (addr : ℕ)
    (f : Frame) : Type 0 where
  pub connects : l ≡ some MessageType.connack → (s : Device) → R s (record s { connected = true })
  pub disconnects :
      l ≡ some MessageType.disconnect → (s : Device) → R s (record s { connected = false })
  pub unpings :
      l ≡ some MessageType.pingresp → (s : Device) → R s (record s { wait_ping_process = false })
  pub pushed :
      l ≡ some MessageType.push
      → (s : Device) → R s (record s { pushed_info = some f.at; fresh = true })
  pub subscribes :
      l ≡ some MessageType.subscribe
      → (s : Device) (ts : List Topic)
      → subscribe_topic s.memory p.header_option addr f s.topics ≡ some ts
      → R s (record s { topics = ts })

module _ (R : Device → Device → Type 0) (frame : IsFrame R) where
  stay : (s : Device) → Keeps R (some s) s
  stay s t e = subst (R s) (some-injective _ _ e) (frame.stays s)

  bind :
      (r : Option Device) (k : Device → Option Device) (s : Device)
      → Keeps R r s
      → ((u : Device) → Keeps R (k u) u)
      → Keeps R (r >>= k) s
  bind none k s h hk t e = cc
  bind (some u) k s h hk t e = frame.chains s u t (h u refl) (hk u t e)

  when :
      (b : Bool) (r : Option Device) (s : Device)
      → Keeps R r s
      → Keeps R (if b then r else some s) s
  when true r s h = h
  when false r s h = stay s

  push_kept :
      (conn dest : ℕ) (command : Bool) (option payload : List ℕ) (s : Device)
      → Keeps R (push conn dest command option payload s) s
  unfolding push
  push_kept conn dest true option payload s = frame.sends _ _ option payload conn dest s
  push_kept conn dest false option payload s = frame.sends _ _ option payload conn dest s

  forward_kept :
      (p : Packet) (conn : ℕ) (ts : List Topic) (s : Device) → Keeps R (forward p conn ts s) s
  unfolding forward
  forward_kept p conn ts s t e =
      forward-Keeps (λ u. u.memory) (push_message p conn) R frame.stays frame.chains
        (λ ip u w h. push_kept conn ip _ _ _ u w h) p.header_option ts s t e

  module _ (p : Packet) (conn addr : ℕ) (f : Frame) where
    hello_kept : (s : Device) → Keeps R (handle_hello p conn addr s) s
    unfolding handle_hello hello connect
    hello_kept s t e = elim (Option-cases (strcmp p.header_option (lit "init"))) [
      | inl fault ↦ absurd (ground (arith, fault))
      | inr (true, found) ↦
          frame.sends _ _ (lit "response") (lit "testpayload") conn addr s t (rw found at e)
      | inr (false, found) ↦
          frame.sends _ _ (lit "CONNECT") (lit "testpayload") conn addr s t (rw found at e)
    ]

    publish_kept : (s : Device) → Keeps R (handle_publish p conn addr s) s
    unfolding handle_publish pub_ack
    publish_kept s =
        bind (if p.rel == 1 then pub_ack conn addr s else some s)
          (λ u. forward p conn (take 2 u.topics) u) s
          (when (p.rel == 1) _ s (frame.sends _ _ (lit "") (lit "") conn addr s))
          (λ u. forward_kept p conn (take 2 u.topics) u)

    -- The rule.
    pub dispatch-Keeps :
        (l : Option MessageType) (s : Device)
        → Assigns R l p addr f
        → Keeps R (dispatch l p conn addr f s) s
    unfolding dispatch conn_ack pingresp push_ack sub_ack handle_push handle_subscribe
        stop_ping_thread
    dispatch-Keeps (some MessageType.hello) s a t e = hello_kept s t e
    dispatch-Keeps (some MessageType.publish) s a t e = publish_kept s t e
    dispatch-Keeps (some MessageType.subscribe) s a t e =
        elim (Option-cases (subscribe_topic s.memory p.header_option addr f s.topics)) [
          | inl fault ↦ absurd (ground (arith, fault))
          | inr (ts, found) ↦
              frame.chains s (record s { topics = ts }) t (a.subscribes refl s ts found)
                (frame.sends _ _ (lit "") (lit "") conn addr (record s { topics = ts }) t
                  (rw found at e))
        ]
    dispatch-Keeps (some MessageType.connect) s a t e =
        frame.sends _ _ (lit "CONNACK") (lit "testpayload") conn addr s t e
    dispatch-Keeps (some MessageType.pingreq) s a t e =
        frame.sends _ _ (lit "PINGRESP") (lit "pingRespTestPayload") conn addr s t e
    dispatch-Keeps (some MessageType.push) s a t e =
        frame.chains s (record s { pushed_info = some f.at; fresh = true }) t (a.pushed refl s)
          (frame.sends _ _ (lit "") (lit "") conn addr
            (record s { pushed_info = some f.at; fresh = true }) t e)
    dispatch-Keeps (some MessageType.connack) s a t e =
        subst (R s) (some-injective _ _ e) (a.connects refl s)
    dispatch-Keeps (some MessageType.disconnect) s a t e =
        subst (R s) (some-injective _ _ e) (a.disconnects refl s)
    dispatch-Keeps (some MessageType.pingresp) s a t e =
        subst (R s) (some-injective _ _ e) (a.unpings refl s)
    dispatch-Keeps _ s a t e = stay s t e
