-- ===== src/Stage/Execute/Branch.antt =====
-- The comparison and the conditional jumps of CoreLib/ExecuteStage.cpp, thread by thread.
use ecc_cpu.Base.{
  subst, ℕ, zero, suc, ◌+◌, ◌^◌, ◌<◌, min, bit_and, bit_not, u64, ◌≡◌, refl, ap, ◌∙◌, arith, digit,
  digit-bit_and, digit-complement, digit-le, digit-zero, bit_and-le, bool_bit, Bool, true, false,
  not, ◌||◌, ◌==◌, if◌then◌else◌, Option, none, some, ◌>>=◌,
}
use ecc_cpu.Base.Int.{ℤ, ltb_ℤ, signed64}
use ecc_cpu.Defines.{Opcode, StorageStageOpcode, reg_flags}
use ecc_cpu.VectorValue.{
  VectorValue, lane, nonzero, get_compare_result, compare_vecs, create_vec_int64, bit_and_vec,
  reduce_to_uint64_t,
}
use ecc_cpu.VectorValue
use ecc_cpu.VectorValue.Lanes.{lane-create, lane-zip_lanes, digit-reduce}
use ecc_cpu.Packets.{DecodeExecPacket, ExecStagePacket, vec, stage_address}
use ecc_cpu.RegisterFile
use ecc_cpu.RegisterFile.{RegisterFile, is_valid}
use ecc_cpu.Stage.Decode.{get_expected_cond_jump_flags_mask}
use ecc_cpu.Stage.Execute.{
  execute_cond_jmp, get_cmp_mask, branch, jump_target, next_insn, Outcome, stall, done,
}
use ecc_cpu.Bus.ExecuteToStoreBus.{ExecuteToStoreBus, send_address, send_2_address}

-- The relation of two signed numbers that each conditional jump is named for; the other opcodes
-- are no conditional jumps.
abbrev pub condition : Opcode → ℤ → ℤ → Option Bool
condition Opcode.jmp_equal a b = some (not (ltb_ℤ a b || ltb_ℤ b a))
condition Opcode.jmp_not_equal a b = some (ltb_ℤ a b || ltb_ℤ b a)
condition Opcode.jmp_lower a b = some (ltb_ℤ a b)
condition Opcode.jmp_lower_equal a b = some (not (ltb_ℤ b a))
condition Opcode.jmp_greater a b = some (ltb_ℤ b a)
condition Opcode.jmp_greater_equal a b = some (not (ltb_ℤ a b))
condition _ a b = none

-- For 64-bit patterns, the flags that a comparison sets meet the mask that a conditional jump
-- expects exactly if the jump's relation holds of the signed operands; an opcode has a mask
-- exactly if it has a relation.
pub compare-expected :
    (op : Opcode) (a b : ℕ)
    → a < 2 ^ 64
    → b < 2 ^ 64
    → (get_expected_cond_jump_flags_mask op >>= λ e.
        some (not (bit_and (get_compare_result a b) e == 0)))
      ≡ condition op (signed64 a) (signed64 b)
unfolding get_expected_cond_jump_flags_mask get_compare_result
compare-expected Opcode.jmp_equal a b ha hb = ground arith
compare-expected Opcode.jmp_not_equal a b ha hb = ground arith
compare-expected Opcode.jmp_lower a b ha hb = ground arith
compare-expected Opcode.jmp_lower_equal a b ha hb = ground arith
compare-expected Opcode.jmp_greater a b ha hb = ground arith
compare-expected Opcode.jmp_greater_equal a b ha hb = ground arith
compare-expected _ a b ha hb = refl

-- A thread is in the mask of those that jump if it runs and its flags meet the expected ones.
pub digit-get_cmp_mask :
    (exec_mask : ℕ) (flags value1 : VectorValue) (i : ℕ)
    → i < 8
    → digit (get_cmp_mask exec_mask flags value1) i
      ≡ min (digit exec_mask i) (nonzero (bit_and (lane flags i) (lane value1 i)))
unfolding get_cmp_mask bit_and_vec
digit-get_cmp_mask exec_mask flags value1 i h =
    digit-bit_and exec_mask (reduce_to_uint64_t (bit_and_vec flags value1)) i
    ∙ ap (min (digit exec_mask i)) (
        digit-reduce (bit_and_vec flags value1) i h
        ∙ ap (λ x. nonzero x) (lane-zip_lanes bit_and flags value1 i h))

-- The address that thread `i` goes on at, by the request to the store stage.
abbrev pub goes_to : ExecStagePacket → ℕ → Option ℕ
goes_to p i = by p.opcode
  where
    by : StorageStageOpcode → Option ℕ
    by StorageStageOpcode.jmp = stage_address p.dest
    by StorageStageOpcode.cjmp =
        if digit p.execution_flags_true i == 1
        then stage_address p.dest
        else if digit p.execution_flags_false i == 1
        then stage_address p.src
        else none
    by _ = none

-- The stage has sent a request by which thread `i` goes on at `destination`.
abbrev pub Sends : Option Outcome → ℕ → ℕ → Type 0
Sends none i destination = ⊥
Sends (some stall) i destination = ⊥
Sends (some (done bus regs)) i destination =
    (bus.is_busy ≡ true) × (goes_to bus.packet i ≡ some destination)

pub digit-all_threads : (i : ℕ) → i < 8 → digit 255 i ≡ 1
digit-all_threads zero h = refl
digit-all_threads (suc zero) h = refl
digit-all_threads (suc (suc zero)) h = refl
digit-all_threads (suc (suc (suc zero))) h = refl
digit-all_threads (suc (suc (suc (suc zero)))) h = refl
digit-all_threads (suc (suc (suc (suc (suc zero))))) h = refl
digit-all_threads (suc (suc (suc (suc (suc (suc zero)))))) h = refl
digit-all_threads (suc (suc (suc (suc (suc (suc (suc zero))))))) h = refl
digit-all_threads (suc (suc (suc (suc (suc (suc (suc (suc i)))))))) h = absurd (omega arith)

module _ (pkt : DecodeExecPacket) (bus : ExecuteToStoreBus) (regs : RegisterFile)
    (offsets : VectorValue) (free : bus.is_busy ≡ false) (has_offsets : pkt.value0 ≡ vec offsets)
    (taken i : ℕ) (running : digit pkt.exec_mask i ≡ 1) (in_range : i < 8) where
  branch-Sends :
      taken < 2 ^ 64
      → Sends
          (branch pkt bus regs taken)
          i
          (if digit taken i == 1 then u64 (pkt.pc + offsets.data0) else next_insn pkt)
  unfolding branch jump_target VectorValue.get send_address send_2_address
  branch-Sends small = ground (
    arith,
    digit-zero i,
    digit-bit_and pkt.exec_mask 255 i,
    digit-all_threads i in_range,
    digit-bit_and pkt.exec_mask (bit_not taken) i,
    digit-complement 64 taken i small,
    digit-le taken i,
  )

pub get_cmp_mask-lt :
    (exec_mask : ℕ) (flags value1 : VectorValue)
    → exec_mask < 2 ^ 8
    → get_cmp_mask exec_mask flags value1 < 2 ^ 64
unfolding get_cmp_mask
get_cmp_mask-lt exec_mask flags value1 h = omega (
  arith,
  bit_and-le exec_mask exec_mask (reduce_to_uint64_t (bit_and_vec flags value1)) (omega arith),
)

-- Thread `i` is in the mask of those that jump after a comparison of `a` and `b`.
digit-compare :
    (op : Opcode) (exec_mask : ℕ) (a b : VectorValue) (expected i : ℕ) (holds : Bool)
    → get_expected_cond_jump_flags_mask op ≡ some expected
    → i < 8
    → digit exec_mask i ≡ 1
    → lane a i < 2 ^ 64
    → lane b i < 2 ^ 64
    → condition op (signed64 (lane a i)) (signed64 (lane b i)) ≡ some holds
    → digit (get_cmp_mask exec_mask (compare_vecs a b) (create_vec_int64 expected)) i
      ≡ bool_bit holds
unfolding compare_vecs
digit-compare op exec_mask a b expected i holds he hi hr ha hb hh = ground (
  arith,
  digit-get_cmp_mask exec_mask (compare_vecs a b) (create_vec_int64 expected) i hi,
  lane-zip_lanes get_compare_result a b i hi,
  lane-create expected i hi,
  compare-expected op (lane a i) (lane b i) ha hb,
)

-- After a comparison of `a` and `b`, a conditional jump with the mask of its opcode sends each
-- running thread to the jump's target if the jump's relation holds of that thread's signed
-- operands, and to the next instruction if it does not, if the flags are valid, the store bus is
-- free, the execution mask has eight bits and the operands are 64-bit patterns; the stage neither
-- waits nor fails.
pub cond_jmp_lanes :
    (op : Opcode) (pkt : DecodeExecPacket) (bus : ExecuteToStoreBus) (regs : RegisterFile)
    (a b offsets : VectorValue) (expected i : ℕ) (holds : Bool)
    → get_expected_cond_jump_flags_mask op ≡ some expected
    → pkt.value0 ≡ vec offsets
    → pkt.value1 ≡ create_vec_int64 expected
    → pkt.exec_mask < 2 ^ 8
    → bus.is_busy ≡ false
    → is_valid regs reg_flags ≡ some true
    → regs.regs reg_flags ≡ compare_vecs a b
    → i < 8
    → digit pkt.exec_mask i ≡ 1
    → lane a i < 2 ^ 64
    → lane b i < 2 ^ 64
    → condition op (signed64 (lane a i)) (signed64 (lane b i)) ≡ some holds
    → Sends
        (execute_cond_jmp pkt bus regs)
        i
        (if holds then u64 (pkt.pc + offsets.data0) else next_insn pkt)
unfolding execute_cond_jmp RegisterFile.get
cond_jmp_lanes op pkt bus regs a b offsets expected i holds he h0 h1 hm hb hv hf hi hr ha hc hh =
    simp (hv, hf, h1)
      (subst
        (λ (c : Bool).
          Sends (branch pkt bus regs taken) i
            (if c then u64 (pkt.pc + offsets.data0) else next_insn pkt))
        agrees
        (branch-Sends pkt bus regs offsets hb h0 taken i hr hi
          (get_cmp_mask-lt pkt.exec_mask (compare_vecs a b) (create_vec_int64 expected) hm)))
  where
    taken : ℕ
    taken = get_cmp_mask pkt.exec_mask (compare_vecs a b) (create_vec_int64 expected)

    agrees : (digit taken i == 1) ≡ holds
    agrees = ground (arith, digit-compare op pkt.exec_mask a b expected i holds he hi hr ha hc hh)
