-- ===== src/Gate.antt =====
-- engine/gate.py: what a stored verdict means. `Value` holds the dynamic values that it reads.
pub mod Value
pub mod PassClass
pub mod Waiver
pub mod Coverage
mod Tests
