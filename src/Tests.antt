-- ===== src/Tests.antt =====
-- Tests: the library's parameters as concrete functions, and each theorem at a concrete input.
mod Floats
mod Maps
mod Policies
mod Counters
mod Breakers
mod Stores
mod Limiters
mod Emitters
mod Signatures
mod Redises
mod Serdes
mod Logs
mod Interleavings
mod Checks
mod Layers
