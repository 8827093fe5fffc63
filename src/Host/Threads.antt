-- ===== src/Host/Threads.antt =====
-- ControlServer/SBVK_broker.c: threadAck. Threads run one step at a time on the shared globals; a step is
-- what a thread does between two sleeps.
use embedded_project_exam.Base.{◌-◌, not, ◌==◌, if◌then◌else◌}
use embedded_project_exam.Host.{Host, sendto}

-- A thread that wakes sends the stored packet again, or exits once the acknowledgement is there.
unfoldable pub thread_ack_wakes : Host → Host
thread_ack_wakes s =
    if s.threads == 0
    then s
    else (if not s.ack_rcv
        then sendto s.sock_ack s.packet_ack s.dest_addr_ack s
        else record s { threads = s.threads - 1 })
