-- ===== src/Device/Events/Keep.antt =====
-- No event of a mote that runs SBVK.c breaks what the mote keeps true of its state.
use embedded_project_exam.Base.{◌≡◌, refl, subst, true, false, some, List, [], ◌∷◌, arith}
use mathlib.Core.Option.{some-injective}
use embedded_project_exam.Device.{Device, get_pushed_info}
use embedded_project_exam.Device.Messages.{
  hello, connect, conn_ack, disconnect, subscribe, sub_ack, unsub, unsub_ack, publish, pub_ack,
  push, push_ack, pingreq, pingresp,
}
use embedded_project_exam.Device.Processes.{stop_ping_thread}
use embedded_project_exam.Device.Accepts.{Ready}
use embedded_project_exam.Device.Sound.{Sound, emit-Sound, handle_message-Sound}
use embedded_project_exam.Device.Sound.Timers.{
  ack_thread_expires-Sound, start_ping_thread-Sound, wait_ping_expires-Sound,
}
use embedded_project_exam.Device.Events.{Event, perform, perform_all, Acceptable, AllAcceptable}
use embedded_project_exam.Device.Events.Finish.{perform-Finishes}

get_pushed_info-Sound : (s : Device) → Sound s → Sound (get_pushed_info s).1
unfolding get_pushed_info
get_pushed_info-Sound s h = ground arith

-- No event breaks what the mote keeps.
perform-Sound : (e : Event) (s t : Device) → Acceptable e → perform e s ≡ some t → Sound s → Sound t
unfolding perform stop_ping_thread unsub unsub_ack hello connect conn_ack disconnect subscribe
    sub_ack publish pub_ack push push_ack pingreq pingresp
perform-Sound (Event.receives p conn addr f) s t a e h =
    handle_message-Sound p conn addr f s t a.3 e h
perform-Sound Event.ack_timer s t a e h =
    subst Sound (some-injective _ _ e) (ack_thread_expires-Sound s h)
perform-Sound Event.ping_timer s t a e h = wait_ping_expires-Sound s t e h
perform-Sound Event.stops_ping s t a e h = subst Sound (some-injective _ _ e) (ground arith)
perform-Sound Event.unsubscribed s t a e h = subst Sound (some-injective _ _ e) h
perform-Sound Event.takes_pushed_info s t a e h =
    subst Sound (some-injective _ _ e) (get_pushed_info-Sound s h)
perform-Sound (Event.starts_ping conn dest) s t a e h =
    subst Sound (some-injective _ _ e) (start_ping_thread-Sound conn dest s h)
perform-Sound (Event.says_connect conn dest) s t a e h = emit-Sound _ _ _ _ conn dest s t e h
perform-Sound (Event.says_conn_ack conn dest) s t a e h = emit-Sound _ _ _ _ conn dest s t e h
perform-Sound (Event.says_disconnect conn dest) s t a e h = emit-Sound _ _ _ _ conn dest s t e h
perform-Sound (Event.says_sub_ack conn dest) s t a e h = emit-Sound _ _ _ _ conn dest s t e h
perform-Sound (Event.says_pub_ack conn dest) s t a e h = emit-Sound _ _ _ _ conn dest s t e h
perform-Sound (Event.says_push_ack conn dest) s t a e h = emit-Sound _ _ _ _ conn dest s t e h
perform-Sound (Event.says_pingreq conn dest) s t a e h = emit-Sound _ _ _ _ conn dest s t e h
perform-Sound (Event.says_pingresp conn dest) s t a e h = emit-Sound _ _ _ _ conn dest s t e h
perform-Sound (Event.says_hello conn dest true) s t a e h = emit-Sound _ _ _ _ conn dest s t e h
perform-Sound (Event.says_hello conn dest false) s t a e h = emit-Sound _ _ _ _ conn dest s t e h
perform-Sound (Event.subscribes conn dest topicname) s t a e h =
    emit-Sound _ _ _ _ conn dest s t e h
perform-Sound (Event.unsubscribes conn dest topicname) s t a e h =
    subst Sound (some-injective _ _ e) h
perform-Sound (Event.publishes conn dest true topicname value) s t a e h =
    emit-Sound _ _ _ _ conn dest s t e h
perform-Sound (Event.publishes conn dest false topicname value) s t a e h =
    emit-Sound _ _ _ _ conn dest s t e h
perform-Sound (Event.pushes conn dest true topicname value) s t a e h =
    emit-Sound _ _ _ _ conn dest s t e h
perform-Sound (Event.pushes conn dest false topicname value) s t a e h =
    emit-Sound _ _ _ _ conn dest s t e h

-- Any sequence of messages, expiries of the two timers and calls of the functions that SBVK.h
-- declares, on texts that fit a packet's arrays and frames with room for two addresses, runs
-- without a fault from a mote whose createPacket finds an empty modifPayload at every call and
-- whose topics' names can be read, and keeps that and the following, if it held at the start: the
-- mote waits for no acknowledgement, has ackThread running, or never sent reliably (the awaited
-- type is 0); a running wait_ping_process has sent fewer than five pings; there are two slots, the
-- second one past the declared array, with room for two addresses each; and the packet to send
-- again and all packets sent have bit-fields and arrays of the declared sizes.
pub perform_all-Sound :
    (es : List Event) (s : Device)
    → AllAcceptable es
    → Ready s
    → Sound s
    → (t : Device) × (perform_all es s ≡ some t) × Ready t × Sound t
unfolding perform_all
perform_all-Sound [] s a h w = (s, refl, h, w)
perform_all-Sound (e ∷ es) s a h w =
    let (u, first, k) = perform-Finishes e s a.0 h in
    let (t, rest, k', w') = perform_all-Sound es u a.1 k (perform-Sound e s u a.0 first w) in
    (t, rw first rest, k', w')
