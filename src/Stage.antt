-- ===== src/Stage.antt =====
-- The four stages of a core's pipeline. Each is a coroutine: its state names the `CONTEXT_SWITCH()`
-- at which it waits, with the local variables that live there, and `step` runs it up to the next.
pub mod Fetch
pub mod Decode
pub mod Execute
pub mod Store
