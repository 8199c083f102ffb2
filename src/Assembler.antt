-- ===== src/Assembler.antt =====
-- The assembler's instructions: their words, and their way through the decode stage.
pub mod Insns
pub mod Words
pub mod Jumps
pub mod RoundTrip
pub mod Encoding
pub mod Meaning
pub mod Effect
pub mod Retire
pub mod Linker
pub mod Text
pub mod Parser
pub mod ObjectWriter
pub mod Main
