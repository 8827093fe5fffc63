-- ===== src/Examples/Systems.antt =====
-- Motes, brokers and the network together at concrete values.
use embedded_project_exam.Base.{refl, inl, inr, arith, codes}
use embedded_project_exam.CString.{lit, text}
use embedded_project_exam.Topics.Spec.{everyone}
use embedded_project_exam.System.Reading.{Reading, gas_timer-Reading}
use embedded_project_exam.System.Retries.{Retried, publish-Retried}
use embedded_project_exam.Examples.{z1, padding, z1-Fills, mote, frame, elsewhere}
use embedded_project_exam.Examples.Motes.{mote-IsClean, mote-Ready}
use embedded_project_exam.Examples.Sensors.{a_gas, a_gas-Measures, an_alarm, mote-Listens}

-- The alarm is at 7, one of the two addresses of the broker's first slot.
gas_timer-Reading_example : Reading z1 padding 1 4 5 7 elsewhere frame elsewhere a_gas mote an_alarm
unfolding everyone
gas_timer-Reading_example =
    gas_timer-Reading z1 padding 1 z1-Fills 4 5 7 elsewhere frame elsewhere a_gas mote an_alarm
      a_gas-Measures mote-Ready (refl, (tt, tt)) (inl refl) mote-Listens

-- Two expiries before the broker hears of it, and one after.
publish-Retried_example :
    Retried z1 padding 1 4 5 9 elsewhere frame
      (lit "WAMA/timer")
      (lit "19")
      (codes "WAMA/timer")
      (codes "19")
      2
      0
      mote
      mote
unfolding everyone text
publish-Retried_example =
    publish-Retried z1 padding 1 z1-Fills 4 5 9 elsewhere frame (lit "WAMA/timer") (lit "19")
      (codes "WAMA/timer") (codes "19") 2 0 mote mote mote-IsClean refl refl (omega arith)
      (omega arith) mote-Ready (refl, (tt, tt)) (inr (inl refl))
