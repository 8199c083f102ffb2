-- ===== src/DivergenceQueue.antt =====
-- CoreLib/include/DivergenceQueue.h: the ring of thread contexts that wait for the current one to
-- halt.
pub mod Fifo
use ecc_cpu.Base.{
  ℕ, ◌+◌, ◌-◌, u32, Bool, not, ◌==◌, if◌then◌else◌, Option, none, some, assert, ◌>>=◌, ◌>>◌, update,
}
use ecc_cpu.RegisterFile.{RegisterSet}

abbrev pub max_thread_contexts : ℕ
max_thread_contexts = 64

-- `PC` is `pc`.
pub record ThreadContext : Type 0 where
  pub regs : RegisterSet
  pub pc : ℕ
  pub exec_mask : ℕ

-- `contexts` has `MAX_THREAD_CONTEXTS` elements.
pub record DivergenceQueue : Type 0 where
  pub contexts : ℕ → ThreadContext
  pub read_pos : ℕ
  pub write_pos : ℕ

unfoldable pub init : DivergenceQueue → DivergenceQueue
init q = record q { read_pos = 0; write_pos = 0 }

unfoldable pub is_empty : DivergenceQueue → Bool
is_empty q = q.read_pos == q.write_pos

unfoldable pub get_next_pos : ℕ → ℕ
get_next_pos v = if v == max_thread_contexts - 1 then 0 else u32 (v + 1)

-- `none` is the failed assertion that the queue is not full.
unfoldable pub push_to_front : DivergenceQueue → RegisterSet → ℕ → ℕ → Option DivergenceQueue
push_to_front q regs pc exec_mask =
    assert (not (get_next_pos q.write_pos == q.read_pos))
    >> some (record q {
      contexts =
          update q.contexts q.write_pos (record { regs = regs; pc = pc; exec_mask = exec_mask });
    })

unfoldable pub get_back : DivergenceQueue → Option ThreadContext
get_back q = assert (not (is_empty q)) >> some (q.contexts q.read_pos)

unfoldable pub advance_read_pos : DivergenceQueue → DivergenceQueue
advance_read_pos q = record q { read_pos = get_next_pos q.read_pos }

unfoldable pub advance_write_pos : DivergenceQueue → DivergenceQueue
advance_write_pos q = record q { write_pos = get_next_pos q.write_pos }
