-- ===== src/Tests.antt =====
-- Runs of the model at concrete inputs, and the theorems applied at such inputs.
mod Packets
mod Server
mod Lobby
mod Game
mod Receiver
mod Chat
mod Broker
mod Audio
mod Manager
