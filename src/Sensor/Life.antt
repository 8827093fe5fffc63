-- ===== src/Sensor/Life.antt =====
-- The life of a mote of Sensors/: datagrams and expiries of its timers in any order.
pub mod Untouched
pub mod Steady
pub mod Hears
pub mod Laws
pub mod Lamp
pub mod Switching
pub mod Washing
pub mod Measuring
pub mod Ringing
use embedded_project_exam.Base.{ℕ, Bool, Option, some, List, [], ◌∷◌, ◌≡◌, length, ◌>>=◌}
use embedded_project_exam.Protocol.{Packet}
use embedded_project_exam.Protocol.Wire.{Layout, decode}
use embedded_project_exam.Topics.{Frame}
use embedded_project_exam.Device.{Device}
use embedded_project_exam.Device.Accepts.{Fits}
use embedded_project_exam.Device.Processes.{ack_thread_expires, wait_ping_expires}

-- A datagram with the packet that its bytes are and the packet's texts; an expiry of the mote's own timer, of
-- ackThread's and of wait_ping_process's.
pub data Happening : Type 0 where
  arrives : List ℕ → ℕ → Frame → Packet → List ℕ → List ℕ → Happening
  timer : Bool → ℕ → Happening
  ack_timer ping_timer : Happening

-- A main file: where its state S has that of the library, its udp_rx_callback and its timer loop.
pub record Program (S : Type 0) : Type 0 where
  pub mote_of : S → Device
  pub with_mote : Device → S → S
  pub callback : Layout → ℕ → ℕ → List ℕ → Frame → S → Option S
  pub loop : Bool → ℕ → ℕ → S → Option S

unfoldable pub live : {S : Type 0} → Program S → Layout → ℕ → Happening → S → Option S
live prog layout c (arrives bytes addr f p o v) s = prog.callback layout c addr bytes f s
live prog layout c (timer reachable dest) s = prog.loop reachable c dest s
live prog layout c ack_timer s = some (prog.with_mote (ack_thread_expires (prog.mote_of s)) s)
live prog layout c ping_timer s =
    wait_ping_expires (prog.mote_of s) >>= λ d. some (prog.with_mote d s)

unfoldable pub live_all : {S : Type 0} → Program S → Layout → ℕ → List Happening → S → Option S
live_all prog layout c [] s = some s
live_all prog layout c (h ∷ hs) s = live prog layout c h s >>= live_all prog layout c hs

-- A packet of the mote's layout with texts that fit, its payload as P says.
abbrev pub IsUsual : (List ℕ → Type 0) → Layout → Happening → Type 0
IsUsual P layout (arrives bytes addr f p o v) =
    (decode layout bytes ≡ some p) × Fits p o v × P v × (length f.tp.ips ≡ 2)
IsUsual P layout _ = Unit {0}

abbrev pub All : (Happening → Type 0) → List Happening → Type 0
All Q [] = Unit {0}
All Q (h ∷ hs) = Q h × All Q hs

abbrev pub AllUsual : (List ℕ → Type 0) → Layout → List Happening → Type 0
AllUsual P layout = All (IsUsual P layout)

-- What an observer makes of a life that hears only the packets and the texts of their payloads.
abbrev pub hear : {A : Type 0} → (Packet → List ℕ → A → A) → Happening → A → A
hear listen (arrives bytes addr f p o v) x = listen p v x
hear listen _ x = x

abbrev pub hear_all : {A : Type 0} → (Packet → List ℕ → A → A) → List Happening → A → A
hear_all listen [] x = x
hear_all listen (h ∷ hs) x = hear_all listen hs (hear listen h x)

-- A text that starts with a space, as all do that createPacket makes.
abbrev pub Blank : List ℕ → Type 0
Blank [] = ⊥
Blank (c ∷ cs) = c ≡ 32
