-- ===== src/Device/Events/Finish.antt =====
-- No event of a mote that runs SBVK.c faults.
use embedded_project_exam.Base.{
  ℕ, suc, refl, sym, subst, Bool, true, false, Option, none, some, arith, ◌>>=◌, if◌then◌else◌, ltb,
}
use mathlib.Core.Option.{some-injective}
use embedded_project_exam.Device.{Device, get_pushed_info}
use embedded_project_exam.Device.Messages.{hello, unsub, unsub_ack}
use embedded_project_exam.Device.Processes.{
  ack_thread_expires, start_ping_thread, stop_ping_thread, wait_ping_expires, wait_ping_round,
}
use embedded_project_exam.Device.Sends.{
  hello_init-Emits, hello_response-Emits, connect-Emits, conn_ack-Emits, disconnect-Emits,
  subscribe-Emits, sub_ack-Emits, publish-Emits, pub_ack-Emits, push-Emits, push_ack-Emits,
  pingreq-Emits, pingresp-Emits,
}
use embedded_project_exam.Device.Accepts.{Ready, Finishes, Emits-Finishes, handle_message-Finishes}
use embedded_project_exam.Device.Events.{Event, perform, Acceptable}

hello-Finishes :
    (conn dest : ℕ) (init : Bool) (s : Device) → Ready s → Finishes (hello conn dest init s)
hello-Finishes conn dest true s h =
    Emits-Finishes conn dest (hello_init-Emits conn dest s h.clean) h
hello-Finishes conn dest false s h =
    Emits-Finishes conn dest (hello_response-Emits conn dest s h.clean) h

pub ack_thread_expires-Ready : (s : Device) → Ready s → Ready (ack_thread_expires s)
unfolding ack_thread_expires
ack_thread_expires-Ready s h = ground arith

pub start_ping_thread-Ready :
    (conn dest : ℕ) (s : Device) → Ready s → Ready (start_ping_thread conn dest s)
unfolding start_ping_thread
start_ping_thread-Ready conn dest s h = ground arith

Finishes-bind :
    (r : Option Device) (k : Device → Option Device)
    → Finishes r
    → ((u : Device) → Ready u → Finishes (k u))
    → Finishes (r >>= k)
Finishes-bind none k (t, e, w) f = cc
Finishes-bind (some u) k (t, e, w) f = f u (subst Ready (sym (some-injective _ _ e)) w)

Finishes-if :
    (b : Bool) (r r' : Option Device) → Finishes r → Finishes r' → Finishes (if b then r else r')
Finishes-if true r r' h h' = h
Finishes-if false r r' h h' = h'

wait_ping_round-Finishes : (s : Device) → Ready s → Finishes (wait_ping_round s)
unfolding wait_ping_round
wait_ping_round-Finishes s h =
    Finishes-bind _ _
      (Emits-Finishes _ _ (pingreq-Emits s.udp_conn_ping s.dest_addr_ping s h.clean) h)
      (λ u k.
        let t = record u { count_ping = suc u.count_ping } in
        let t-Ready : Ready t = record { clean = k.clean; named = k.named } in
        Finishes-if (ltb (suc u.count_ping) 5) _ _ (t, refl, t-Ready)
          (Finishes-bind _ _
            (Emits-Finishes _ _ (disconnect-Emits u.udp_conn_ping u.dest_addr_ping t t-Ready.clean)
              t-Ready)
            (λ w k'. (
              record w { wait_ping_process = false },
              refl,
              record { clean = k'.clean; named = k'.named },
            ))))

pub wait_ping_expires-Finishes : (s : Device) → Ready s → Finishes (wait_ping_expires s)
unfolding wait_ping_expires
wait_ping_expires-Finishes s h =
    Finishes-if s.wait_ping_process _ _ (wait_ping_round-Finishes s h) (s, refl, h)

get_pushed_info-Ready : (s : Device) → Ready s → Ready (get_pushed_info s).1
unfolding get_pushed_info
get_pushed_info-Ready s h = ground arith

-- No event faults.
pub perform-Finishes : (e : Event) (s : Device) → Acceptable e → Ready s → Finishes (perform e s)
unfolding perform stop_ping_thread unsub unsub_ack
perform-Finishes (Event.receives p conn addr f) s (o, v, fit, _) h =
    handle_message-Finishes p conn addr f o v s fit h
perform-Finishes Event.ack_timer s a h = (_, refl, ack_thread_expires-Ready s h)
perform-Finishes Event.ping_timer s a h = wait_ping_expires-Finishes s h
perform-Finishes Event.stops_ping s a h = (_, refl, record { clean = h.clean; named = h.named })
perform-Finishes Event.unsubscribed s a h = (s, refl, h)
perform-Finishes Event.takes_pushed_info s a h = (_, refl, get_pushed_info-Ready s h)
perform-Finishes (Event.starts_ping conn dest) s a h =
    (_, refl, start_ping_thread-Ready conn dest s h)
perform-Finishes (Event.says_connect conn dest) s a h =
    Emits-Finishes conn dest (connect-Emits conn dest s h.clean) h
perform-Finishes (Event.says_conn_ack conn dest) s a h =
    Emits-Finishes conn dest (conn_ack-Emits conn dest s h.clean) h
perform-Finishes (Event.says_disconnect conn dest) s a h =
    Emits-Finishes conn dest (disconnect-Emits conn dest s h.clean) h
perform-Finishes (Event.says_sub_ack conn dest) s a h =
    Emits-Finishes conn dest (sub_ack-Emits conn dest s h.clean) h
perform-Finishes (Event.says_pub_ack conn dest) s a h =
    Emits-Finishes conn dest (pub_ack-Emits conn dest s h.clean) h
perform-Finishes (Event.says_push_ack conn dest) s a h =
    Emits-Finishes conn dest (push_ack-Emits conn dest s h.clean) h
perform-Finishes (Event.says_pingreq conn dest) s a h =
    Emits-Finishes conn dest (pingreq-Emits conn dest s h.clean) h
perform-Finishes (Event.says_pingresp conn dest) s a h =
    Emits-Finishes conn dest (pingresp-Emits conn dest s h.clean) h
perform-Finishes (Event.says_hello conn dest init) s a h = hello-Finishes conn dest init s h
perform-Finishes (Event.subscribes conn dest topicname) s (o, e, l) h =
    Emits-Finishes conn dest (subscribe-Emits conn dest s h.clean topicname o e l) h
perform-Finishes (Event.unsubscribes conn dest topicname) s a h = (s, refl, h)
perform-Finishes (Event.publishes conn dest command topicname value) s ((o, e, l), (v, e', l')) h =
    Emits-Finishes conn dest
      (publish-Emits conn dest s h.clean command topicname value o v e e' l l') h
perform-Finishes (Event.pushes conn dest command topicname value) s ((o, e, l), (v, e', l')) h =
    Emits-Finishes conn dest (push-Emits conn dest s h.clean command topicname value o v e e' l l')
      h
