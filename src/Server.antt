-- ===== src/Server.antt =====
-- ControlServer/BrokerAndControlServer.c: the thread that receives datagrams and the one that runs the
-- menu, over the state of the host's broker. Datagrams, numbers typed by the user and wakings of the
-- acknowledgement threads are events in any order. Output on the terminal is not modelled.
pub mod Menu
pub mod Receive
pub mod Typed
pub mod Interleavings
pub mod Steps
pub mod Runs
pub mod Sizes
pub mod Commands
pub mod Console
pub mod Choices
use embedded_project_exam.Base.{ℕ, Bool, List}
use embedded_project_exam.Host.{Host}

-- Where the menu thread waits for a number: callMenu, callLight, callWasher, or its end.
pub data Screen : Type 0 where
  main light washer ended : Screen

-- The broker; `buffer`, `sin6`, `sock` and `launch`; and whether receiveUDP is still in its loop.
pub record Server : Type 0 where
  pub host : Host
  pub open host use *
  pub buffer : List ℕ
  pub sin6 : ℕ
  pub sock : ℕ
  pub launch : ℕ
  pub listening : Bool
  pub screen : Screen
