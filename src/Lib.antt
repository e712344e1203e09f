-- ===== src/Lib.antt =====
-- nsb_ci: a model of the Network Simulation Bridge, the daemon and the parts around it.
--
-- The bridge connects application clients with a network simulator. An application client hands its
-- message to the daemon (SEND), a simulator client takes it from there (FETCH, in PULL mode) or has
-- it forwarded (PUSH mode), simulates the network, and hands it back (POST); the application client
-- of the destination takes it (RECEIVE) or has it forwarded. Payloads go through the daemon, or
-- through a Redis server of which only the keys go through the daemon.
--
-- The parts, and the files that model them:
--   Prelude    shared names; ints and strings of the source, lists, Boolean tests
--   Message    `nsbm` of proto/nsb.proto, `MessageEntry` and `Config` of cpp/include/nsb.h
--   Store      the containers: `std::map` (Store/Lookup) and the buffers, `std::list`
--              (Store/Buffer)
--   Daemon     `NSBDaemon` of cpp/include/nsb_daemon.h and cpp/src/nsb_daemon.cc. Its state is the
--              record `Daemon`. Daemon/Init has `handle_init` and `handle_ping`; Daemon/Messages
--              `handle_send`, `handle_fetch`, `handle_post` and `handle_receive`; Daemon/Dispatch
--              `handle_message` and `stop`; Daemon/Startup the constructor and `configure`;
--              Daemon/Server the loop of `start_server`, Daemon/Program `start`, `start_server` and
--              `main`. Daemon/Queues is the abstract specification: one queue for each source and
--              one for each destination. The other files of Daemon hold the theorems: Refinement
--              (the handlers against the queues), Answers and Received (FETCH and RECEIVE),
--              Forwarding and Pushes (PUSH mode), Registry (the client tables), Faults (which
--              messages are survived), Writes (what is sent), Loop, Kept, Closes, Shutdown and
--              Ending (the server loop).
--   Client     `NSBClient`, `NSBAppClient` and `NSBSimClient` of cpp/include/nsb_client.h and
--              cpp/src/nsb_client.cc: Client/Setup has `initialize`, `ping` and `exit`, Client/App
--              `send` and `receive`, Client/Sim `fetch` and `post`. Relay joins them with the
--              daemon, and Next does what simulators do; Outward, Held, Homeward, Journey, Pushed,
--              Keyed, KeyedJourney, Ready and Configured hold the theorems.
--   Socket     `SocketInterface` of cpp/include/nsb.h and cpp/src/nsb.cc: Socket/Transfer has
--              `sendMessage` and `receiveMessage`, Socket/Connect `connectToServer` and
--              `closeConnection`; Sending, Received, Descriptors and Closing hold the theorems.
--   Rabbit     the variant over a message broker, under cpp/rabbit: the interface is
--              `RabbitMQInterface`; Rabbit/Client has `NSBClientRMQ`, `NSBAppClientRMQ` and
--              `NSBSimClientRMQ`, Rabbit/Daemon `NSBDaemonRMQ`, Rabbit/Listener the listener of the
--              interface and what the clients do with it; Rabbit/Broker is what the broker
--              promises; Delivery, Startup, Listening, Heard and Serving hold the theorems.
--   Unified    the clients of cpp/rabbit/include/NSBUnified.hpp and cpp/rabbit/src/NSBUnified.cpp
--              with their connector to the database, their socket backend (Unified/Backends) and
--              their backend over a broker (Unified/RabbitBackend); Unified/Client and
--              Unified/Calls have the operations; Fetching, Payloads, Closing, Equivalence and
--              Sockets hold the theorems.
--   Hosts      the names "host0", "host1", … that the programs under examples use for the hosts;
--              Numbers has the lemmas.
--   Omnet      the OMNeT++ applications under examples/omnet: Omnet/Frame is the frame that both
--              ends of INETAppFiles agree on, Omnet/Source `nsbBasicApp`, Omnet/Sink `nsbAppSink`,
--              Omnet/Host `NSBHost`; Frames, Crossing, Journey, Routing, Schedule, Turns and Timers
--              hold the theorems.
--   Ns3        the ns-3 programs: Ns3/Tcp and Ns3/Forward are examples/ns3/nsb-testing-tcp.cc,
--              Ns3/Udp is examples/ns3/nsb-testing.cc; Writing, Streams, Queued, Names, Crossing,
--              Journey and Misdelivery hold the theorems; Trip is a payload's way through the
--              nodes.
--   Db         `DBConnector` and `RedisConnector` of cpp/include/nsb.h and cpp/src/nsb.cc. Db/Keys
--              is about `generatePayloadId`, Db/Payloads about `store` and `checkOut`, Db/Context
--              about the connection, Db/Decimal about decimal text.
--   Tests      the theorems at concrete data.
--
-- Conventions. A string is the list of its bytes. An `int` is the ℤ of Prelude/Int, and where the
-- source converts or wraps, the model does. A call that may throw or has no defined behaviour
-- returns an `Outcome`. What a handler sends is a list of effects, in order. The system calls and
-- the generated codec are the record `Os`, on which nothing is assumed but what a theorem states;
-- the rounds of `select` are an argument of the server loop, so that a run is any finite list of
-- rounds and no fuel is needed. The loops of the socket interface run over such lists too, and so
-- do the threads of the other parts: a listener or a daemon over the broker has one element for
-- each turn, which holds what the other parties did before it, an application its timers, and a TCP
-- connection what each call may write or read. Redis is a parameter, and its documented behaviour
-- the record `KeepsData`.
--
-- Not modelled: log lines; the wire format; other threads of the daemon's process (there are none);
-- the simulators themselves, and what the examples only pass on to them (topology, socket options,
-- statistics); examples/ns3/ns3Simple-testing.cc; the code generated from NSBMessage.msg; the
-- Python clients.
mod Prelude
pub mod Message
pub mod Store
pub mod Daemon
pub mod Db
pub mod Client
pub mod Socket
pub mod Rabbit
pub mod Unified
pub mod Hosts
pub mod Omnet
pub mod Ns3
mod Tests
