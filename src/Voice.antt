-- ===== src/Voice.antt =====
-- Team voice: the wire packets, the server that routes them, and the worker that receives them.
pub mod Packets
pub mod Sequence
pub mod Server
pub mod Receiver
