-- ===== src/Client.antt =====
-- The terminal client: client/src. Below it stand the connection (client/src/Socket.cpp), the state and
-- the handlers of input and of packets (client/src/Client.cpp).
pub mod Socket
pub mod Handle
pub mod Stream
pub mod Text
pub mod State
pub mod Requests
pub mod Replies
pub mod Loop
pub mod Launch
pub mod Arrivals
pub mod Packets
pub mod Sending
pub mod Settled
pub mod InputSettled
pub mod ReplySettled
pub mod RunSettled
pub mod History
