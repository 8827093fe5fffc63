-- ===== src/Sensor/Life/Laws.antt =====
-- The rule for what a mote's main file keeps: if its callback and its timer loop keep it, so does its life.
use embedded_project_exam.Base.{ℕ, Bool, Option, some, List, [], ◌∷◌, ◌≡◌, refl}
use embedded_project_exam.Protocol.{Packet}
use embedded_project_exam.Protocol.Wire.{Layout}
use embedded_project_exam.Topics.{Frame}
use embedded_project_exam.Device.{Device}
use embedded_project_exam.Device.Processes.{ack_thread_expires}
use embedded_project_exam.Sensor.Life.{
  Happening, arrives, timer, ack_timer, ping_timer, Program, live, live_all, IsUsual, All, AllUsual,
  hear, hear_all,
}
use embedded_project_exam.Sensor.Life.Steady.{
  Steady, ack_thread_expires-Steady, wait_ping_expires-StaysSteady,
}
use embedded_project_exam.Sensor.Life.Untouched.{
  Untouched, ack_thread_expires-Untouched, wait_ping_expires-Untouched,
}

-- It goes on without a fault, in a state of the kind.
abbrev pub GoesOn : {S : Type 0} → (S → Type 0) → Option S → Type 0
GoesOn {S} I r = (t : S) × (r ≡ some t) × I t

-- A relation with what an observer knows.
module _ {S A : Type 0} (prog : Program S) (layout : Layout) (c : ℕ) (P : List ℕ → Type 0)
    (Q : Happening → Type 0) (listen : Packet → List ℕ → A → A) (R : A → S → Type 0) where
  pub record IsSeen : Type 0 where
    pub steady : (x : A) (s : S) → R x s → Steady P (prog.mote_of s)
    pub motes :
        (x : A) (d : Device) (s : S)
        → Steady P d
        → Untouched (prog.mote_of s) d
        → R x s
        → R x (prog.with_mote d s)
    pub callbacks :
        (x : A) (bytes : List ℕ) (addr : ℕ) (f : Frame) (p : Packet) (o v : List ℕ) (s : S)
        → Q (arrives bytes addr f p o v)
        → R x s
        → GoesOn (R (listen p v x)) (prog.callback layout c addr bytes f s)
    pub loops :
        (x : A) (reachable : Bool) (dest : ℕ) (s : S)
        → R x s
        → GoesOn (R x) (prog.loop reachable c dest s)

  live-hear :
      IsSeen
      → (h : Happening) (x : A) (s : S) → Q h
      → R x s
      → GoesOn (R (hear listen h x)) (live prog layout c h s)
  unfolding live
  live-hear k (arrives bytes addr f p o v) x s u i = k.callbacks x bytes addr f p o v s u i
  live-hear k (timer reachable dest) x s u i = k.loops x reachable dest s i
  live-hear k ack_timer x s u i =
      let m = prog.mote_of s in
      let d = ack_thread_expires m in
      (
        prog.with_mote d s,
        refl,
        k.motes x d s (ack_thread_expires-Steady P m (k.steady x s i))
            (ack_thread_expires-Untouched m) i,
      )
  live-hear k ping_timer x s u i =
      let m = prog.mote_of s in
      let (d, run, h) = wait_ping_expires-StaysSteady P m (k.steady x s i) in
      (prog.with_mote d s, rw run refl, k.motes x d s h (wait_ping_expires-Untouched m d run) i)

  pub live_all-hear_all :
      IsSeen
      → (hs : List Happening) (x : A) (s : S) → All Q hs
      → R x s
      → GoesOn (R (hear_all listen hs x)) (live_all prog layout c hs s)
  unfolding live_all
  live_all-hear_all k [] x s u i = (s, refl, i)
  live_all-hear_all k (h ∷ hs) x s u i =
      let (t, first, i') = live-hear k h x s u.0 i in
      let (w, rest, i'') = live_all-hear_all k hs (hear listen h x) t u.1 i' in
      (w, rw first rest, i'')

-- A property of the state alone.
module _ {S : Type 0} (prog : Program S) (layout : Layout) (c : ℕ) (P : List ℕ → Type 0)
    (I : S → Type 0) where
  pub record IsKept : Type 0 where
    pub steady : (s : S) → I s → Steady P (prog.mote_of s)
    pub motes : (d : Device) (s : S) → Steady P d → I s → I (prog.with_mote d s)
    pub callbacks :
        (bytes : List ℕ) (addr : ℕ) (f : Frame) (p : Packet) (o v : List ℕ) (s : S)
        → IsUsual P layout (arrives bytes addr f p o v)
        → I s
        → GoesOn I (prog.callback layout c addr bytes f s)
    pub loops :
        (reachable : Bool) (dest : ℕ) (s : S) → I s → GoesOn I (prog.loop reachable c dest s)

  pub live_all-GoesOn :
      IsKept
      → (hs : List Happening) (s : S) → AllUsual P layout hs
      → I s
      → GoesOn I (live_all prog layout c hs s)
  live_all-GoesOn k hs s =
      live_all-hear_all prog layout c P (IsUsual P layout) (λ p v (x : Unit {0}). x) (λ x. I)
        (record {
          steady = λ x. k.steady;
          motes = λ x d t h same. k.motes d t h;
          callbacks = λ x. k.callbacks;
          loops = λ x. k.loops;
        })
        hs tt s
