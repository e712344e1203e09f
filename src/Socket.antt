-- ===== src/Socket.antt =====
-- `SocketInterface` of cpp/include/nsb.h and cpp/src/nsb.cc, over scripts of what the system calls
-- return.
pub mod Transfer
pub mod Connect
pub mod Sending
pub mod Received
pub mod Descriptors
pub mod Closing
