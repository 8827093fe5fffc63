-- ===== src/Sensor/Life/Steady.antt =====
-- What a mote of Sensors/ keeps of its library through its life: it is fit for the next message, and whatever
-- getPushedINFO points at is a text of a kind.
use embedded_project_exam.Base.{ℕ, ◌<◌, ◌≡◌, true, Option, some, List, length}
use embedded_project_exam.CString.{text}
use embedded_project_exam.Protocol.{Packet}
use embedded_project_exam.Protocol.Wire.{Layout, decode}
use embedded_project_exam.Topics.{Frame}
use embedded_project_exam.Device.{Device}
use embedded_project_exam.Device.Messages.{hello, publish, subscribe}
use embedded_project_exam.Device.Processes.{
  ack_thread_expires, start_ping_thread, wait_ping_expires,
}
use embedded_project_exam.Device.Fanout.{sent_by-Same}
use embedded_project_exam.Device.Sends.{
  sent_by, Emits, hello_init-Emits, publish-Emits, subscribe-Emits,
}
use embedded_project_exam.Device.Accepts.{Ready, Fits, Same-Ready, handle_message-Finishes}
use embedded_project_exam.Device.Sound.{Sound, emit-Sound, handle_message-Sound}
use embedded_project_exam.Device.Sound.Timers.{
  ack_thread_expires-Sound, start_ping_thread-Sound, wait_ping_expires-Sound,
}
use embedded_project_exam.Device.Events.Finish.{
  ack_thread_expires-Ready, start_ping_thread-Ready, wait_ping_expires-Finishes,
}
use embedded_project_exam.Sensor.{receive, announce}
use embedded_project_exam.Sensor.Receives.{
  InformedBy, receive-InformedBy, start_ping_thread-Undisturbed,
}
use embedded_project_exam.Sensor.Life.Untouched.{
  Untouched-InformedBy, ack_thread_expires-Untouched, wait_ping_expires-Untouched,
}

module _ (P : List ℕ → Type 0) where
  pub record Steady (s : Device) : Type 0 where
    pub ready : Ready s
    pub informed : InformedBy P s
    pub sound : Sound s

  -- The outcome is such a state.
  abbrev pub StaysSteady : Option Device → Type 0
  StaysSteady r = (t : Device) × (r ≡ some t) × Steady t

  -- A message that is sent.
  Emits-StaysSteady :
      (r : Option Device) (s : Device) (conn dest mst rel : ℕ) (o v : List ℕ)
      → Emits r s conn dest mst rel o v
      → ((t : Device) → r ≡ some t → Sound s → Sound t)
      → Steady s
      → StaysSteady r
  Emits-StaysSteady r s conn dest mst rel o v (p, e, car) keeps h =
      let t = sent_by p conn dest s in
      let same = sent_by-Same p conn dest s in
      (
        t,
        e,
        record {
          ready = Same-Ready s t same h.ready;
          informed =
              Untouched-InformedBy P s t
                (record {
                  pushed_eq = same.pushed_eq;
                  fresh_eq = same.fresh_eq;
                  memory_eq = same.memory_eq;
                })
                h.informed;
          sound = keeps t e h.sound;
        },
      )

  pub start_ping_thread-Steady :
      (conn dest : ℕ) (s : Device) → Steady s → Steady (start_ping_thread conn dest s)
  start_ping_thread-Steady conn dest s h =
      let same = start_ping_thread-Undisturbed conn dest s in
      record {
        ready = start_ping_thread-Ready conn dest s h.ready;
        informed =
            Untouched-InformedBy P s (start_ping_thread conn dest s)
              (record {
                pushed_eq = same.pushed_eq;
                fresh_eq = same.fresh_eq;
                memory_eq = same.memory_eq;
              })
              h.informed;
        sound = start_ping_thread-Sound conn dest s h.sound;
      }

  pub ack_thread_expires-Steady : (s : Device) → Steady s → Steady (ack_thread_expires s)
  ack_thread_expires-Steady s h = record {
    ready = ack_thread_expires-Ready s h.ready;
    informed = Untouched-InformedBy P s _ (ack_thread_expires-Untouched s) h.informed;
    sound = ack_thread_expires-Sound s h.sound;
  }

  pub wait_ping_expires-StaysSteady : (s : Device) → Steady s → StaysSteady (wait_ping_expires s)
  wait_ping_expires-StaysSteady s h =
      let (t, run, ready) = wait_ping_expires-Finishes s h.ready in
      (
        t,
        run,
        record {
          ready = ready;
          informed = Untouched-InformedBy P s t (wait_ping_expires-Untouched s t run) h.informed;
          sound = wait_ping_expires-Sound s t run h.sound;
        },
      )

  -- Each udp_rx_callback starts so.
  pub receive-StaysSteady :
      (layout : Layout) (c addr : ℕ) (bytes : List ℕ) (f : Frame) (p : Packet) (o v : List ℕ)
      (s : Device)
      → decode layout bytes ≡ some p
      → Fits p o v
      → P v
      → length f.tp.ips ≡ 2
      → Steady s
      → StaysSteady (receive layout c addr bytes f s)
  unfolding receive
  receive-StaysSteady layout c addr bytes f p o v s read fit kind room h =
      let u = start_ping_thread c addr s in
      let k = start_ping_thread-Steady c addr s h in
      let (t, run, ready) = handle_message-Finishes p c addr f o v u fit k.ready in
      let all : receive layout c addr bytes f s ≡ some t = rw read run in
      (
        t,
        all,
        record {
          ready = ready;
          informed =
              receive-InformedBy P layout c addr bytes f p o v s t read fit kind h.ready h.informed
                all;
          sound = handle_message-Sound p c addr f u t room run k.sound;
        },
      )

  pub hello-StaysSteady : (c dest : ℕ) (s : Device) → Steady s → StaysSteady (hello c dest true s)
  unfolding hello
  hello-StaysSteady c dest s h =
      Emits-StaysSteady (hello c dest true s) s c dest _ _ _ _
        (hello_init-Emits c dest s h.ready.clean) (λ t e w. emit-Sound _ _ _ _ c dest s t e w) h

  pub publish-StaysSteady :
      (c dest : ℕ) (topicname value o v : List ℕ) (s : Device)
      → text topicname ≡ some o
      → text value ≡ some v
      → length o < 20
      → length v < 48
      → Steady s
      → StaysSteady (publish c dest true topicname value s)
  unfolding publish
  publish-StaysSteady c dest topicname value o v s ho hv lo lv h =
      Emits-StaysSteady (publish c dest true topicname value s) s c dest _ _ _ _
        (publish-Emits c dest s h.ready.clean true topicname value o v ho hv lo lv)
        (λ t e w. emit-Sound _ _ _ _ c dest s t e w) h

  -- And so a timer loop while there is no connection.
  pub announce-StaysSteady :
      (c dest : ℕ) (topicname o : List ℕ) (s : Device)
      → text topicname ≡ some o
      → length o < 20
      → Steady s
      → StaysSteady (announce c dest topicname s)
  unfolding announce subscribe
  announce-StaysSteady c dest topicname o s ho lo h =
      let (t, greeted, k) = hello-StaysSteady c dest s h in
      let (u, asked, k') =
        Emits-StaysSteady (subscribe c dest topicname t) t c dest _ _ _ _
          (subscribe-Emits c dest t k.ready.clean topicname o ho lo)
          (λ w e x. emit-Sound _ _ _ _ c dest t w e x) k in
      (u, rw greeted asked, k')
