-- ===== src/Device/Pings.antt =====
-- wait_ping_process of SBVK.c: what a mote sends when nobody answers its pings.
use embedded_project_exam.Base.{
  ℕ, zero, suc, ◌+◌, ◌≤◌, ◌<◌, ◌≡◌, refl, ◌∙◌, ap, ap₂, subst, true, false, Option, some, List, ◌∷◌,
  ◌++◌, map, arith, replicate, ◌>>=◌,
}
use native.Mathlib.Nat.{add-zero}
use embedded_project_exam.Protocol.{Packet}
use embedded_project_exam.Protocol.Create.Laws.{Carries}
use embedded_project_exam.Device.{Device, Sent}
use embedded_project_exam.Device.Messages.{pingreq, disconnect}
use embedded_project_exam.Device.Processes.{start_ping_thread, stop_ping_thread, wait_ping_expires}
use embedded_project_exam.Device.Fanout.{sent_by-Same, sent_by-sent, IsClean-Same}
use embedded_project_exam.Device.Sends.{sent_by, IsClean, pingreq-Emits, disconnect-Emits}

-- Expiries of the timer of wait_ping_process, with nothing else in between.
unfoldable pub ping_expiries : ℕ → Device → Option Device
ping_expiries zero s = some s
ping_expiries (suc n) s = wait_ping_expires s >>= ping_expiries n

-- The type of a datagram and where it goes.
abbrev pub envelope : Sent → ℕ × ℕ
envelope x = (x.packet.mst, x.dest)

-- A mote that has sent `n` pings to `dest` since `s`, and waits for the next expiry.
pub record Pinged (n conn dest : ℕ) (s t : Device) : Type 0 where
  pub running : t.wait_ping_process ≡ true
  pub count : t.count_ping ≡ n
  pub conn_eq : t.udp_conn_ping ≡ conn
  pub dest_eq : t.dest_addr_ping ≡ dest
  pub locals_eq : t.locals ≡ s.locals
  pub connected_eq : t.connected ≡ s.connected
  pub log : map envelope t.sent ≡ replicate n (10, dest) ++ map envelope s.sent

-- A mote whose fifth ping stayed unanswered: it has said DISCONNECT, and pings no more.
pub record GaveUp (dest : ℕ) (s t : Device) : Type 0 where
  pub stopped : t.wait_ping_process ≡ false
  pub still_connected : t.connected ≡ s.connected
  pub log : map envelope t.sent ≡ (5, dest) ∷ replicate 5 (10, dest) ++ map envelope s.sent

started :
    (conn dest : ℕ) (s : Device)
    → s.wait_ping_process ≡ false
    → Pinged 0 conn dest s (start_ping_thread conn dest s)
unfolding start_ping_thread
started conn dest s h = ground arith

-- The datagram that a ping or a disconnect adds to the log.
logged :
    (p : Packet) (mst rel conn dest : ℕ) (o v : List ℕ) (s : Device)
    → Carries p mst rel o v
    → map envelope (sent_by p conn dest s).sent ≡ (mst, dest) ∷ map envelope s.sent
logged p mst rel conn dest o v s c =
    rw (sent_by-sent p conn dest s) (ap (λ (m : ℕ). (m, dest) ∷ map envelope s.sent) c.mst_eq)

expires_pinging :
    (t w : Device)
    → t.wait_ping_process ≡ true
    → pingreq t.udp_conn_ping t.dest_addr_ping t ≡ some w
    → w.count_ping < 4
    → wait_ping_expires t ≡ some (record w { count_ping = suc w.count_ping })
unfolding wait_ping_expires
expires_pinging t w r e h = ground arith

expires_giving_up :
    (t w x : Device)
    → t.wait_ping_process ≡ true
    → pingreq t.udp_conn_ping t.dest_addr_ping t ≡ some w
    → 4 ≤ w.count_ping
    → disconnect w.udp_conn_ping w.dest_addr_ping (record w { count_ping = suc w.count_ping })
      ≡ some x
    → wait_ping_expires t ≡ some (record x { wait_ping_process = false })
unfolding wait_ping_expires
expires_giving_up t w x r e h d = ground arith

module _ (conn dest : ℕ) (s : Device) (c : IsClean s) where
  clean_at : (n : ℕ) (t : Device) → Pinged n conn dest s t → IsClean t
  clean_at n t k j = rw (k.locals_eq) (c j)

  ping_round :
      (n : ℕ) (t : Device)
      → n < 4
      → Pinged n conn dest s t
      → (u : Device) × (wait_ping_expires t ≡ some u) × Pinged (suc n) conn dest s u
  ping_round n t h k =
      let (q, e, car) = pingreq-Emits t.udp_conn_ping t.dest_addr_ping t (clean_at n t k) in
      let w = sent_by q t.udp_conn_ping t.dest_addr_ping t in
      let same = sent_by-Same q t.udp_conn_ping t.dest_addr_ping t in
      (
        record w { count_ping = suc w.count_ping },
        expires_pinging t w k.running e (omega (arith, same.count_eq, k.count)),
        record {
          running = same.ping_eq ∙ k.running;
          count = ap suc (same.count_eq ∙ k.count);
          conn_eq = same.ping_conn_eq ∙ k.conn_eq;
          dest_eq = same.ping_dest_eq ∙ k.dest_eq;
          locals_eq = same.locals_eq ∙ k.locals_eq;
          connected_eq = same.connected_eq ∙ k.connected_eq;
          log =
              logged q 10 0 t.udp_conn_ping t.dest_addr_ping _ _ t car
              ∙ ap₂ (λ (a : ℕ) (xs : List (ℕ × ℕ)). (10, a) ∷ xs) k.dest_eq k.log;
        },
      )

  last_round :
      (t : Device)
      → Pinged 4 conn dest s t
      → (u : Device) × (wait_ping_expires t ≡ some u) × GaveUp dest s u
  last_round t k =
      let (q, e, car) = pingreq-Emits t.udp_conn_ping t.dest_addr_ping t (clean_at 4 t k) in
      let w = sent_by q t.udp_conn_ping t.dest_addr_ping t in
      let same = sent_by-Same q t.udp_conn_ping t.dest_addr_ping t in
      let w' = record w { count_ping = suc w.count_ping } in
      let (b, d, bye) =
        disconnect-Emits w.udp_conn_ping w.dest_addr_ping w'
          (IsClean-Same t w same (clean_at 4 t k)) in
      let x = sent_by b w.udp_conn_ping w.dest_addr_ping w' in
      let same' = sent_by-Same b w.udp_conn_ping w.dest_addr_ping w' in
      (
        record x { wait_ping_process = false },
        expires_giving_up t w x k.running e (omega (arith, same.count_eq, k.count)) d,
        record {
          stopped = refl;
          still_connected = same'.connected_eq ∙ same.connected_eq ∙ k.connected_eq;
          log =
              logged b 5 0 w.udp_conn_ping w.dest_addr_ping _ _ w' bye
              ∙ ap₂ (λ (a : ℕ) (xs : List (ℕ × ℕ)). (5, a) ∷ xs) (same.ping_dest_eq ∙ k.dest_eq)
                  (logged q 10 0 t.udp_conn_ping t.dest_addr_ping _ _ t car
                    ∙ ap₂ (λ (a : ℕ) (xs : List (ℕ × ℕ)). (10, a) ∷ xs) k.dest_eq k.log);
        },
      )

  ping_rounds :
      (m n : ℕ) (t : Device)
      → n + m ≤ 4
      → Pinged n conn dest s t
      → (u : Device) × (ping_expiries m t ≡ some u) × Pinged (n + m) conn dest s u
  unfolding ping_expiries
  ping_rounds zero n t h k = (t, refl, rw add-zero k)
  ping_rounds (suc m) n t h k =
      let (u, e, k') = ping_round n t (omega arith) k in
      let (w, e', k'') = ping_rounds m (suc n) u (omega arith) k' in
      (w, rw e e', subst (λ (j : ℕ). Pinged j conn dest s w) (omega arith) k'')

  rounds_to_last :
      (m n : ℕ) (t : Device)
      → n + m ≡ 4
      → Pinged n conn dest s t
      → (u : Device) × (ping_expiries (suc m) t ≡ some u) × GaveUp dest s u
  unfolding ping_expiries
  rounds_to_last zero n t h k =
      let (u, e, g) = last_round t (subst (λ (j : ℕ). Pinged j conn dest s t) (omega arith) k) in
      (u, rw e, g)
  rounds_to_last (suc m) n t h k =
      let (u, e, k') = ping_round n t (omega arith) k in
      let (w, e', g) = rounds_to_last m (suc n) u (omega arith) k' in (w, rw e e', g)

  -- From a state with an empty modifPayload at every call and no ping process, after n expiries of
  -- the ping timer, n at most 4, with no answer the mote has sent n PINGREQ to the address of
  -- startPingThread and nothing else, has counted n, still runs its ping process, and `connected`
  -- is as it was.
  pub ping_expiries-Pinged :
      (n : ℕ)
      → n ≤ 4
      → s.wait_ping_process ≡ false
      → (t : Device) × (ping_expiries n (start_ping_thread conn dest s) ≡ some t)
        × Pinged n conn dest s t
  ping_expiries-Pinged n h r =
      let (t, e, k) =
        ping_rounds n 0 (start_ping_thread conn dest s) (omega arith) (started conn dest s r) in
      (t, e, subst (λ (j : ℕ). Pinged j conn dest s t) (omega arith) k)

  -- From a state with an empty modifPayload at every call and no ping process, a mote whose pings
  -- nobody answers has sent, after five expiries of the timer, five PINGREQ and a DISCONNECT to
  -- the address of startPingThread and nothing else; its ping process has ended, and `connected`
  -- is as it was.
  pub ping_expiries-GaveUp :
      s.wait_ping_process ≡ false
      → (t : Device) × (ping_expiries 5 (start_ping_thread conn dest s) ≡ some t) × GaveUp dest s t
  ping_expiries-GaveUp r =
      rounds_to_last 4 0 (start_ping_thread conn dest s) refl (started conn dest s r)

-- A process that an answer has stopped sends nothing more.
pub ping_expiries-stopped :
    (n : ℕ) (s : Device) → ping_expiries n (stop_ping_thread s) ≡ some (stop_ping_thread s)
unfolding ping_expiries stop_ping_thread wait_ping_expires
ping_expiries-stopped zero s = refl
ping_expiries-stopped (suc n) s = ping_expiries-stopped n s
