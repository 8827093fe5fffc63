-- ===== src/Lib.antt =====
-- SBVK is a publish/subscribe protocol over UDP for a house of motes (a lamp, a gas sensor, an alarm,
-- a washing machine) that talk to a broker. The motes run Contiki-NG and share the library SBVK.c;
-- broker/broker.c is a broker that is a mote itself; ControlServer/ is the broker on the host, with a
-- menu from which a user sends commands. A mote says HELLO, CONNECT, SUBSCRIBE and PUBLISH, the
-- broker forwards each PUBLISH to a topic's subscribers as PUSH, and what is sent reliably is sent
-- again until its acknowledgement comes.
--
-- The files, and the code that each models:
--   Base         numbers, tests, lists and fallible steps that the other files share.
--   CString      strcpy, strcat and strcmp on char arrays; `none` is a read or write out of bounds.
--   Protocol     structure.h and ControlServer/structureapp.h; Protocol/Create is createPacket, which
--                both libraries define alike; Protocol/Wire is the struct as bytes.
--   Topics       the topic table and the loops that both libraries have on it: the SUBSCRIBE case, and
--                in Topics/Loops the loops of PUBLISH and publishTo. Topics/Spec says what the table
--                stands for: to each topic's text, a list of addresses.
--   Device       SBVK.c: the globals, createPacket, qosThread and sendPacket; in Device/Messages one
--                function for each message, in Device/Handle handleMessage, in Device/Processes the
--                processes ackThread and wait_ping_process. Device/Events is everything that can happen to
--                a mote, as one type: messages, expiries and calls of what SBVK.h declares. The other
--                files below Device are proofs.
--   Broker       broker/broker.c: udp_rx_callback, and a run of it over the datagrams that arrive.
--   Host         ControlServer/SBVK_broker.c, laid out as Device is; Host/Threads is threadAck and
--                Host/Addresses ipv6_expander. Host/Registry is an abstract broker that keeps one
--                subscription and the last topic, and Host/Runs refines it by runs of handleMessage.
--   Twin         SBVK.c and ControlServer/SBVK_broker.c side by side, two copies of one library that were
--                changed apart: a relation between their states, and what keeps it.
--   Server       ControlServer/BrokerAndControlServer.c: Server/Menu is the menu thread by the numbers
--                typed, Server/Console what it prints, Server/Receive is receiveUDP by the datagrams that
--                arrive, and Server/Interleavings all interleavings of these with the threads that
--                wait for acknowledgements, with a rule for what they keep. Server/Runs runs them on a list
--                of inputs, beside what is seen of the server.
--   Sensor       the main files below Sensors/: Sensor holds what the four have in common, Sensor/Light,
--                Sensor/Alarm, Sensor/Gas and Sensor/Washer each one's udp_rx_callback and timer loop.
--                Sensor/Life is a mote's life, datagrams and expiries of its timers in any order, for any
--                main file, with rules for what it keeps and for what an observer of its packets knows of
--                it, and the files below it apply them to the four.
--   System       a mote with a broker/broker.c, and a mote with the control server, that take each other's
--                bytes: the handshake, a command that is sent again until it is acknowledged, and a value
--                on its way from the gas sensor through a broker to the alarm.
--   Examples     runs on concrete values.
--
-- How state and operations correspond to the code:
--   - The globals of a library are a record. An operation takes the record and returns Option of it:
--     `none` is a fault, a read or write that C leaves undefined. What is sent is prepended to a list.
--   - Addresses, connections and sockets are numbers; bytes are numbers.
--   - createPacket's locals are not initialised, so what the stack holds where they lie at the n-th
--     call is an argument, `locals n`. A theorem that needs an empty modifPayload says so.
--   - The name of a topic and the result of getPushedINFO are pointers into the parameter of a call of
--     handleMessage, that is into the stack. The memory maps stack addresses to packets; a call takes
--     the frame in which its parameter lies, and its uninitialised `tp`. What a call left at an address
--     stays there until another handleMessage lies there: in C any call in between may overwrite it.
--   - The table's list holds the slots that the loops visit: two on a mote, which declares one, and eleven
--     on the host, which declares ten. C leaves the access to the last of them undefined; the model takes
--     it as one more slot, storage that nothing else uses. On a mote each PUBLISH and SUBSCRIBE visits it,
--     on the host each SUBSCRIBE and publishTo (PUBLISH visits two slots there). So where something is said
--     to run without a fault, that is said apart from this access. Device/Tableless and Host/Declared tell
--     which messages need no such proviso.
--   - "A packet and a state as handleMessage needs them" are a packet whose arrays hold texts of at most
--     19 and 47 bytes, and a state in which createPacket finds an empty modifPayload at every call and
--     every name in the table points at a text.
--   - Timers and sleeps are steps: what happens between two expiries, whenever they are. Threads and
--     processes take turns in whole steps, so a race inside one function is not in the model.
--   - The layout of the struct as bytes belongs to a compiler, so it is a parameter.
--   - atoi and sprintf are for the 16-bit int of a Z1 mote. The pointers that the gas sensor and the
--     washing machine print through are never set, so in C they are null; the model's state has the bytes where they point, and a
--     theorem that needs room there says so.
--   - The numbers typed are natural: a negative one takes the default case of each switch, like any number
--     that no menu offers.
--   - The only fuel is that of `digits`, for the decimal places of a number, and it is above the number;
--     every other loop is bounded by the data or is cut at the point where it waits.
--
-- Not modelled: log output and what receiveUDP prints, sockets and their errors, random intervals, a failed scanf,
-- ports, the Contiki-NG border router and its web server (rpl-border-router/), and build files. A mote
-- of "a form fit to take a message" is one whose createPacket finds an empty modifPayload at every
-- call, whose topics' names point at texts, and where getPushedINFO points at a text if at all.
pub mod Base
pub mod CString
pub mod Protocol
pub mod Topics
pub mod Device
pub mod Broker
pub mod Sensor
pub mod System
pub mod Host
pub mod Server
pub mod Twin
pub mod Examples
