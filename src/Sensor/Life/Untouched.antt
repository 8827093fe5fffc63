-- ===== src/Sensor/Life/Untouched.antt =====
-- What the timers and the messages that a mote sends leave alone: what getPushedINFO reads.
use embedded_project_exam.Base.{
  ℕ, suc, ◌≡◌, refl, sym, ◌∙◌, subst, Bool, true, false, Option, some, List, arith, ltb, inl, inr,
  Bool-cases, if◌then◌else◌, ◌>>=◌, >>=-eq_some,
}
use mathlib.Core.Option.{some-injective}
use embedded_project_exam.Device.{Device, emit}
use embedded_project_exam.Device.Messages.{hello, subscribe, pingreq, disconnect}
use embedded_project_exam.Device.Processes.{
  ack_thread_expires, start_ping_thread, wait_ping_expires, wait_ping_round,
}
use embedded_project_exam.Sensor.{announce}
use embedded_project_exam.Sensor.Receives.{InformedBy, start_ping_thread-Undisturbed}

-- What getPushedINFO reads is as before.
pub record Untouched (s t : Device) : Type 0 where
  pub pushed_eq : t.pushed_info ≡ s.pushed_info
  pub fresh_eq : t.fresh ≡ s.fresh
  pub memory_eq : t.memory ≡ s.memory

pub Untouched-InformedBy :
    (P : List ℕ → Type 0) (s t : Device) → Untouched s t → InformedBy P s → InformedBy P t
Untouched-InformedBy P s t k h a at = rw k.memory_eq (h a (sym k.pushed_eq ∙ at))

emit-Untouched :
    (mst rel : ℕ) (option payload : List ℕ) (conn dest : ℕ) (s t : Device)
    → emit mst rel option payload conn dest s ≡ some t
    → Untouched s t
unfolding emit
emit-Untouched mst rel option payload conn dest s t e = ground arith

pub ack_thread_expires-Untouched : (s : Device) → Untouched s (ack_thread_expires s)
unfolding ack_thread_expires
ack_thread_expires-Untouched s = ground arith

disconnects-Untouched :
    (conn dest n : ℕ) (u t : Device)
    → (disconnect conn dest (record u { count_ping = n }) >>= λ (w : Device).
        some (record w { wait_ping_process = false }))
      ≡ some t
    → Untouched u t
unfolding disconnect
disconnects-Untouched conn dest n u t e =
    let (w, gone, end) = >>=-eq_some (disconnect conn dest (record u { count_ping = n })) _ e in
    let k = emit-Untouched _ _ _ _ conn dest (record u { count_ping = n }) w gone in
    subst (Untouched u) (some-injective _ _ end)
      (record { pushed_eq = k.pushed_eq; fresh_eq = k.fresh_eq; memory_eq = k.memory_eq })

Untouched-trans : (s t u : Device) → Untouched s t → Untouched t u → Untouched s u
Untouched-trans s t u h k = record {
  pushed_eq = k.pushed_eq ∙ h.pushed_eq;
  fresh_eq = k.fresh_eq ∙ h.fresh_eq;
  memory_eq = k.memory_eq ∙ h.memory_eq;
}

wait_ping_round-Untouched : (s t : Device) → wait_ping_round s ≡ some t → Untouched s t
unfolding wait_ping_round pingreq
wait_ping_round-Untouched s t e =
    let (u, pinged, rest) = >>=-eq_some (pingreq s.udp_conn_ping s.dest_addr_ping s) _ e in
    let first = emit-Untouched _ _ _ _ _ _ s u pinged in
    elim (Bool-cases (ltb (suc u.count_ping) 5)) [
      | inl more ↦ subst (Untouched s) (some-injective _ _ (rw more at rest)) (record {
        pushed_eq = first.pushed_eq;
        fresh_eq = first.fresh_eq;
        memory_eq = first.memory_eq;
      })
      | inr last ↦
          Untouched-trans s u t first
            (disconnects-Untouched _ _ (suc u.count_ping) u t (rw last at rest))
    ]

when-Untouched :
    (b : Bool) (r : Option Device) (s t : Device)
    → (r ≡ some t → Untouched s t)
    → (if b then r else some s) ≡ some t
    → Untouched s t
when-Untouched true r s t f e = f e
when-Untouched false r s t f e =
    subst (Untouched s) (some-injective _ _ e)
      (record { pushed_eq = refl; fresh_eq = refl; memory_eq = refl })

pub wait_ping_expires-Untouched : (s t : Device) → wait_ping_expires s ≡ some t → Untouched s t
unfolding wait_ping_expires
wait_ping_expires-Untouched s t e =
    when-Untouched s.wait_ping_process (wait_ping_round s) s t (wait_ping_round-Untouched s t) e

pub start_ping_thread-Untouched :
    (c dest : ℕ) (s : Device) → Untouched s (start_ping_thread c dest s)
start_ping_thread-Untouched c dest s =
    let same = start_ping_thread-Undisturbed c dest s in
    record { pushed_eq = same.pushed_eq; fresh_eq = same.fresh_eq; memory_eq = same.memory_eq }

pub announce-Untouched :
    (c dest : ℕ) (topicname : List ℕ) (s t : Device)
    → announce c dest topicname s ≡ some t
    → Untouched s t
unfolding announce hello subscribe
announce-Untouched c dest topicname s t e =
    let (u, greeted, asked) = >>=-eq_some (hello c dest true s) _ e in
    Untouched-trans s u t (emit-Untouched _ _ _ _ c dest s u greeted)
      (emit-Untouched _ _ _ _ c dest u t asked)
