-- ===== src/Device/Processes.antt =====
-- SBVK.c: the processes ackThread and wait_ping_process, by the expiries of their timers. Contiki
-- starts a process at most once: process_start of a process that runs does nothing. The lengths of
-- the timers, which are random, are not modelled.
use embedded_project_exam.Base.{ℕ, suc, true, false, not, Option, some, ltb, if◌then◌else◌, ◌>>=◌}
use embedded_project_exam.Device.{Device, simple_udp_sendto}
use embedded_project_exam.Device.Messages.{pingreq, disconnect}

-- ackThread at an expiry: it sends `packetAck` again, or exits once the acknowledgement is there.
unfoldable pub ack_thread_expires : Device → Device
ack_thread_expires s =
    if s.ack_thread
    then (if not s.ack_rcv
        then simple_udp_sendto s.udp_conn_ack s.packet_ack s.dest_addr_ack s
        else record s { ack_thread = false })
    else s

-- startPingThread. The process sets `countPing` when it starts.
unfoldable pub start_ping_thread : ℕ → ℕ → Device → Device
start_ping_thread conn dest s =
    let t = record s { udp_conn_ping = conn; dest_addr_ping = dest } in
    if s.wait_ping_process then t else record t { count_ping = 0; wait_ping_process = true }

-- stopPingThread
unfoldable pub stop_ping_thread : Device → Device
stop_ping_thread s = record s { wait_ping_process = false }

-- One round of the loop of wait_ping_process: a ping, and after the fifth a disconnect and the end.
unfoldable pub wait_ping_round : Device → Option Device
wait_ping_round s = do
  s' ← pingreq s.udp_conn_ping s.dest_addr_ping s
  let t = record s' { count_ping = suc s'.count_ping }
  if ltb t.count_ping 5
      then some t
      else (disconnect t.udp_conn_ping t.dest_addr_ping t >>= λ u.
          some (record u { wait_ping_process = false }))

-- wait_ping_process at an expiry of its timer.
unfoldable pub wait_ping_expires : Device → Option Device
unfolding wait_ping_round
wait_ping_expires s = if s.wait_ping_process then wait_ping_round s else some s
