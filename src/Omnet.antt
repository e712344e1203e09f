-- ===== src/Omnet.antt =====
-- The applications under examples/omnet, which carry messages between the daemon and a simulated
-- network. What they call of OMNeT++ and INET is a parameter or an effect.
pub mod Frame
pub mod Frames
pub mod Source
pub mod Sink
pub mod Crossing
pub mod Host
pub mod Routing
pub mod Schedule
pub mod Turns
pub mod Timers
pub mod Journey
