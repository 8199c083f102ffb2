-- ===== src/Memory.antt =====
-- The memory behind the stages: caches, multiplexers, the vector memory controller and the DRAM.
-- Each is a coroutine, modelled like the stages.
pub mod Dram
pub mod L1InsnCache
pub mod Relays
pub mod VectorMemoryController
pub mod CoreInternalMemoryMultiplexer
pub mod CoreSelectionMemoryMultiplexer
