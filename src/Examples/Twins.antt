-- ===== src/Examples/Twins.antt =====
-- The two versions of the library side by side, at concrete values.
use embedded_project_exam.Base.{refl, true, codes}
use embedded_project_exam.CString.{text}
use embedded_project_exam.Protocol.{of_code}
use embedded_project_exam.Device.{Device}
use embedded_project_exam.Device.Handle as MoteHandle
use embedded_project_exam.Host.Handle as HostHandle
use embedded_project_exam.Twin.{Alike, Both}
use embedded_project_exam.Twin.Handles.{handle_message-Both}
use embedded_project_exam.Examples.{mote, host, elsewhere}
use embedded_project_exam.Examples.Hosts.{host-Ready, news}

abbrev waiting : Device
waiting = record mote { ack_rcv = true }

host-Alike : Alike waiting host
host-Alike = record {
  topics_split = refl;
  two = refl;
  compact = λ e. (refl, (refl, (refl, (refl, (refl, (refl, (refl, (refl, (refl, tt)))))))));
  memory_eq = refl;
  locals_eq = refl;
  calls_eq = refl;
  ack_rcv_eq = refl;
  wanted_eq = refl;
  packet_eq = refl;
  sock_eq = refl;
  dest_eq = refl;
  sent_eq = refl;
}

handle_message-Both_example :
    Both
      (MoteHandle.handle_message news 3 5 elsewhere waiting)
      (HostHandle.handle_message news 3 5 elsewhere host)
unfolding of_code text
handle_message-Both_example =
    handle_message-Both news 3 5 elsewhere (codes "GAS") waiting host host-Alike (λ e. cc e) refl
      host-Ready.named
