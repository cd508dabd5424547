-- ===== src/Tests.antt =====
-- Runs of the definitions, and the theorems at work on concrete messages.
mod Data
mod Elements
mod Relayed
mod Server
mod Handlers
mod Counts
mod Packets
mod Connections
mod Extensions
mod Names
