-- ===== src/Examples/Events.antt =====
-- Events on a mote, in a row.
use embedded_project_exam.Base.{◌≡◌, refl, inr, true, some, [], ◌∷◌, arith, codes, List}
use embedded_project_exam.CString.{lit, text}
use embedded_project_exam.Device.{Device}
use embedded_project_exam.Device.Accepts.{Ready}
use embedded_project_exam.Device.Sound.{Sound}
use embedded_project_exam.Device.Events.{Event, perform_all, AllAcceptable}
use embedded_project_exam.Device.Events.Keep.{perform_all-Sound}
use embedded_project_exam.Examples.{mote, elsewhere}
use embedded_project_exam.Examples.Motes.{mote-Ready, news, news-Fits}

pub mote-Sound : Sound mote
mote-Sound = record {
  covered = inr (inr refl);
  pings = λ e. cc e;
  slots = refl;
  wide = (refl, (refl, tt));
  sized = λ n. record { option_size = refl; payload_size = refl; modif_size = refl };
  resends = record {
    mst_bits = omega arith;
    rel_bit = omega arith;
    option_size = refl;
    payload_size = refl;
  };
  sends = tt;
}

-- A ping goes out between a message and a command, and then both timers expire.
abbrev events : List Event
events =
    Event.starts_ping 1 5
    ∷ Event.ping_timer
    ∷ Event.receives news 1 5 elsewhere
    ∷ Event.publishes 1 5 true (lit "GAS") (lit "7")
    ∷ Event.ack_timer
    ∷ Event.ping_timer
    ∷ []

events-Acceptable : AllAcceptable events
unfolding text
events-Acceptable = (
  tt,
  (
    tt,
    (
      (codes "GAS", codes "  12", news-Fits, refl),
      (((codes "GAS", refl, omega arith), (codes "7", refl, omega arith)), (tt, (tt, tt))),
    ),
  ),
)

perform_all-Sound_example : (t : Device) × (perform_all events mote ≡ some t) × Ready t × Sound t
perform_all-Sound_example = perform_all-Sound events mote events-Acceptable mote-Ready mote-Sound
