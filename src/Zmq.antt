-- ===== src/Zmq.antt =====
-- transports/zmq.py: the two endpoints of a channel over a ZeroMQ socket.
pub mod Frame
pub mod Sender
pub mod Receiver
pub mod Wire
pub mod Open
pub mod Transcript
pub mod PeerClosed
pub mod Link
pub mod Stats
