-- ===== src/GlobalStats.antt =====
-- CoreLib/include/GlobalStats.h: the counters of a core. A counter is a `uint64_t`.
use ecc_cpu.Base.{ℕ, ◌+◌, u64}

pub record GlobalStats : Type 0 where
  pub wait_for_insn_fetch : ℕ
  pub num_cycles_used : ℕ
  pub wait_for_operand_fetch : ℕ
  pub num_vector_local_divergences : ℕ
  pub num_l1_insn_cache_hits : ℕ

abbrev pub init : GlobalStats
init = record {
  wait_for_insn_fetch = 0;
  num_cycles_used = 0;
  wait_for_operand_fetch = 0;
  num_vector_local_divergences = 0;
  num_l1_insn_cache_hits = 0;
}

unfoldable pub inc_num_l1_insn_cache_hits : GlobalStats → GlobalStats
inc_num_l1_insn_cache_hits s = record s {
  num_l1_insn_cache_hits = u64 (s.num_l1_insn_cache_hits + 1);
}

unfoldable pub inc_num_vector_local_divergences : GlobalStats → GlobalStats
inc_num_vector_local_divergences s = record s {
  num_vector_local_divergences = u64 (s.num_vector_local_divergences + 1);
}

unfoldable pub inc_num_cycles_used : GlobalStats → GlobalStats
inc_num_cycles_used s = record s { num_cycles_used = u64 (s.num_cycles_used + 1) }

unfoldable pub inc_wait_for_operand_fetch : GlobalStats → GlobalStats
inc_wait_for_operand_fetch s = record s {
  wait_for_operand_fetch = u64 (s.wait_for_operand_fetch + 1);
}

unfoldable pub inc_fetched_insn_wait : GlobalStats → GlobalStats
inc_fetched_insn_wait s = record s { wait_for_insn_fetch = u64 (s.wait_for_insn_fetch + 1) }
