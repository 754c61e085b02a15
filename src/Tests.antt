-- ===== src/Tests.antt =====
-- Runs of the modelled code on small networks.
mod Data
mod Tables
mod Protocol
mod PacketQueue
mod Caching
mod Answers
