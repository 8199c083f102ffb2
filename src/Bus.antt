-- ===== src/Bus.antt =====
-- The one-place buffers between the stages and between the memories. `init` clears the busy flags
-- only, so what a buffer holds at first is arbitrary. A failed assertion is `none`. The
-- field `data` of a bus is `packet` here.
pub mod FetchToDecodeBus
pub mod StoreToFetchBus
pub mod DecodeToExecuteBus
pub mod ExecuteToStoreBus
pub mod MemoryBus
pub mod VecMemoryBus
