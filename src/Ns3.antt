-- ===== src/Ns3.antt =====
-- The programs under examples/ns3, which carry messages between the daemon and a network simulated by
-- ns-3. What they call of ns-3 is a parameter, or a list of what the calls returned.
-- An address is its text, as the programs write it; ns-3 itself takes no number above 255 in one.
pub mod Tcp
pub mod Writing
pub mod Streams
pub mod Forward
pub mod Queued
pub mod Names
pub mod Crossing
pub mod Trip
pub mod Journey
pub mod Udp
pub mod Misdelivery
