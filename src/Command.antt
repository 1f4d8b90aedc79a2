-- ===== src/Command.antt =====
-- cmd/mdp: the program that connects the parts.
pub mod Pump
pub mod Flags
pub mod Wiring
