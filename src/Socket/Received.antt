-- ===== src/Socket/Received.antt =====
-- `receiveMessage` of cpp/src/nsb.cc on what `sendMessage` has sent.
use nsb_ci.Socket.Transfer.{Transfer}
