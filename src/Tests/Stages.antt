-- ===== src/Tests/Stages.antt =====
-- The theorems on the stages of CoreLib and their registers and queue at concrete states.
use ecc_cpu.Base.{
  arith, refl, sym, inr, ℕ, ◌≡◌, ◌↔◌, ◌==◌, not, true, false, none, some, [], ◌∷◌, ◌++◌, length,
  bit_and, ◌>>=◌,
}
use ecc_cpu.Base.Int.{signed64}
use ecc_cpu.Defines.{StorageStageOpcode, Opcode, reg_flags, get_opcode}
use ecc_cpu.VectorValue.{create_vec_int64, compare_vecs, get_compare_result}
use ecc_cpu.RegisterFile.{RegisterFile, zeroed, mark_invalid, mark_valid, is_valid}
use ecc_cpu.RegisterFile.Scoreboard.{
  Pending, is_valid_iff_Pending, mark_invalid-Pending, mark_valid-Pending,
}
use ecc_cpu.DivergenceQueue.{DivergenceQueue}
use ecc_cpu.DivergenceQueue.Fifo.{
  IsValid, contents, context, push, push_refines, push_full, PopResult, pop_refines,
}
use ecc_cpu.Stage.Decode.{get_expected_cond_jump_flags_mask}
use ecc_cpu.Stage.Execute.{branch, get_cmp_mask, execute_cond_jmp}
use ecc_cpu.Stage.Execute.Branch.{condition, compare-expected, Sends, cond_jmp_lanes}
use ecc_cpu.Stage.Execute.Split.{Splits, branch-Splits}
use ecc_cpu.Stage.Store
use ecc_cpu.Stage.Store.{store_cjmp}
use ecc_cpu.Stage.Store.Divergence.{Diverges, Resumes, store_cjmp-Diverges, store_halt-Resumes}
use ecc_cpu.Stage.Store.Load.{Completes, load-Completes}
use ecc_cpu.Stage.Store.Loads.{Loads, steps, load-Loads}
use ecc_cpu.Stage.Store.RestorePc.{Strands, restored, restore_pc-Strands}
use ecc_cpu.Packets.{ExecStagePacket, FetchToDecodeBusPacket, of_reg, of_value}
use ecc_cpu.Stage.Fetch
use ecc_cpu.Stage.Fetch.Invariant
use ecc_cpu.Stage.Fetch.Correct.{step-IsCorrect}
use ecc_cpu.Tests.{
  ascending, a_request, a_split, a_vec_read, free_execute_bus, idle_bus, vec_bus, free_fetch_bus,
  free_decode_bus, free_store_bus, queue, no_stats,
}

-- -1 is lower than 1.
compare-expected_example :
    (get_expected_cond_jump_flags_mask Opcode.jmp_lower >>= λ e.
    some (not (bit_and (get_compare_result 18446744073709551615 1) e == 0)))
    ≡ condition Opcode.jmp_lower (signed64 18446744073709551615) (signed64 1)
compare-expected_example =
    compare-expected Opcode.jmp_lower 18446744073709551615 1 (omega arith) (omega arith)

-- Registers after a comparison of the lanes with 16.
abbrev compared : RegisterFile
compared = record zeroed { regs = λ _. compare_vecs ascending (create_vec_int64 16) }

compared-is_valid : is_valid compared reg_flags ≡ some true
unfolding is_valid
compared-is_valid = refl

lower_mask : get_expected_cond_jump_flags_mask Opcode.jmp_lower ≡ some 8
unfolding get_expected_cond_jump_flags_mask
lower_mask = refl

cond_jmp_lanes_example : Sends (execute_cond_jmp a_request free_store_bus compared) 1 80
cond_jmp_lanes_example =
    cond_jmp_lanes Opcode.jmp_lower a_request free_store_bus compared ascending
      (create_vec_int64 16) (create_vec_int64 16) 8 1 true lower_mask refl refl (omega arith) refl
      compared-is_valid refl (omega arith) refl (omega arith) (omega arith) refl

branch-Splits_example :
    Splits 255
      (branch a_request free_store_bus zeroed (get_cmp_mask 255 ascending (create_vec_int64 8)))
branch-Splits_example =
    branch-Splits a_request free_store_bus zeroed ascending (create_vec_int64 16) refl (omega arith)
      refl

is_valid_iff_Pending_example : (is_valid zeroed 3 ≡ some true) ↔ (◌≡◌ {A = ℕ} 0 0)
is_valid_iff_Pending_example =
    is_valid_iff_Pending zeroed 3 0 (omega arith) (omega arith) (omega arith, refl)

mark_invalid-Pending_example :
    (r' : RegisterFile) × (mark_invalid zeroed 3 ≡ some r') × Pending r' 3 1
mark_invalid-Pending_example = mark_invalid-Pending zeroed 3 3 0 (omega arith) (omega arith, refl)

-- One write of every register is on its way, and the counter is about to wrap.
abbrev wrapping : RegisterFile
wrapping = record zeroed { invalidated_regs = λ _. 0; written_regs = λ _. 255 }

mark_valid-Pending_example :
    (r' : RegisterFile) × (mark_valid wrapping 3 ≡ some r') × Pending r' 3 0
mark_valid-Pending_example =
    mark_valid-Pending wrapping 3 3 1 (omega arith) (λ _. omega arith) (omega arith, refl)

-- Two contexts, one of them before the end of the array and one after.
abbrev wrapped : DivergenceQueue
wrapped = queue 63 1

wrapped-IsValid : IsValid wrapped
wrapped-IsValid = record { read_in = omega arith; write_in = omega arith }

push_refines_example :
    (q' : DivergenceQueue) × (push wrapped zeroed 80 15 ≡ some q')
    × IsValid q'
    × (contents q' ≡ contents wrapped ++ (context zeroed 80 15 ∷ []))
push_refines_example = push_refines wrapped zeroed 80 15 wrapped-IsValid (omega arith)

push_full_example : (push wrapped zeroed 80 15 ≡ none) ↔ (length (contents wrapped) ≡ 63)
push_full_example = push_full wrapped zeroed 80 15 wrapped-IsValid

pop_refines_example : PopResult wrapped (contents wrapped)
pop_refines_example = pop_refines wrapped wrapped-IsValid

abbrev storing : Store.Stepped
storing = record {
  state = Store.storing a_split;
  execute_bus = free_store_bus;
  memory_bus = vec_bus false;
  regs = zeroed;
  fetch_bus = free_fetch_bus;
  divergence_queue = wrapped;
  stats = no_stats;
}

store_cjmp-Diverges_example : Diverges a_split storing 80 68 (store_cjmp a_split storing)
store_cjmp-Diverges_example =
    store_cjmp-Diverges a_split storing 80 68 refl refl wrapped-IsValid (omega arith) refl

store_halt-Resumes_example : Resumes 0 storing (contents wrapped)
store_halt-Resumes_example = store_halt-Resumes 0 storing wrapped-IsValid refl

-- The return from a call: the load of the program counter from the stack.
abbrev returning : ExecStagePacket
returning = record a_split {
  opcode = StorageStageOpcode.load_mem_into_reg;
  dest = of_reg 13;
  src = of_value ascending;
  is_store_to_pc = true;
}

load-Loads_example :
    Loads 0 returning 13 ascending a_vec_read
      (record storing { state = Store.storing returning })
      (steps 0 3 (record storing { state = Store.storing returning }))
load-Loads_example =
    load-Loads 0 2 returning (record storing { state = Store.storing returning }) 13 ascending
      a_vec_read refl refl refl refl (omega arith) refl refl refl

-- The response is there.
abbrev answered : Store.Stepped
answered = record storing {
  state = Store.loading returning;
  memory_bus = record (vec_bus false) { response_busy = true };
}

load-Completes_example :
    Completes returning 13 ascending answered (Store.step 0 answered >>= Store.step 0)
load-Completes_example = load-Completes 0 returning answered 13 refl refl (omega arith) refl refl

-- `mov %r1, %pc`
abbrev move_pc : FetchToDecodeBusPacket
move_pc = record { exec_mask = 255; pc = 8; insn = 0xd0103 }

move_pc-opcode : get_opcode move_pc.insn ≡ Opcode.move_reg_reg
unfolding get_opcode
move_pc-opcode = refl

restore_pc-Strands_example :
    Strands a_request a_vec_read move_pc free_decode_bus free_execute_bus
      (restored 0 2 a_request free_store_bus a_vec_read storing)
restore_pc-Strands_example =
    restore_pc-Strands move_pc free_decode_bus free_execute_bus move_pc-opcode refl 0 2 a_request
      free_store_bus (create_vec_int64 16) a_vec_read storing refl refl refl refl refl
      (omega arith, refl)

-- The memory holds at each address the address, as its low and as its high instruction.
abbrev memory : ℕ → ℕ
memory a = a

-- The instruction at 20 is the high one of the pair at 16, which is held.
abbrev fetching : Fetch.Stepped
fetching = record {
  state = Fetch.top;
  locals = record {
    have_outstanding_jmp = false;
    fetch_pc = 20;
    exec_mask = 255;
    address_cached = 16;
    insn_data_cached = (16, 0);
  };
  decode_bus = free_decode_bus;
  store_bus = free_fetch_bus;
  memory_bus = idle_bus;
  stats = no_stats;
}

held_pair : Fetch.get_insn_data 16 ≡ (16, 0)
unfolding Fetch.get_insn_data
held_pair = refl

step-IsCorrect_example : Invariant.Succeeds memory (Fetch.step 0 fetching)
step-IsCorrect_example = step-IsCorrect memory 0 fetching (
  record {
    aligned = refl;
    small = omega arith;
    pair = inr (refl, omega arith, sym held_pair);
    targets = λ e. cc;
    sent = λ e. cc;
  },
  refl,
)
