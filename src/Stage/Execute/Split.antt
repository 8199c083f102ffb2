-- ===== src/Stage/Execute/Split.antt =====
-- A conditional jump of CoreLib/ExecuteStage.cpp that the threads do not agree on.
use ecc_cpu.Base.{
  ℕ, ◌+◌, ◌^◌, ◌<◌, ◌≤◌, bit_and, bit_not, ◌≡◌, ◌≢◌, ap, ◌∙◌, sym, arith, digit, digit-bit_and,
  digit-complement, digit-le, digit-zero, digit_ext, bit_and-le, false, Option, none, some,
}
use ecc_cpu.Defines.{StorageStageOpcode}
use ecc_cpu.VectorValue.{
  VectorValue, lane, nonzero, get_compare_result, compare_vecs, create_vec_int64, bit_and_vec,
  reduce_to_uint64_t,
}
use ecc_cpu.VectorValue
use ecc_cpu.Packets.{DecodeExecPacket, ExecStagePacket, vec}
use ecc_cpu.RegisterFile.{RegisterFile}
use ecc_cpu.Stage.Execute.{get_cmp_mask, branch, jump_target, Outcome, stall, done}
use ecc_cpu.Bus.ExecuteToStoreBus.{ExecuteToStoreBus, send_address, send_2_address}
use ecc_cpu.Stage.Execute.Branch.{digit-all_threads, get_cmp_mask-lt}

-- What a split of the threads leaves to each side.
abbrev pub SplitsInTwo : ℕ → ExecStagePacket → Type 0
SplitsInTwo exec_mask p =
    ((i : ℕ)
      → i < 64
      → digit p.execution_flags_true i + digit p.execution_flags_false i ≡ digit exec_mask i)
    × (p.execution_flags_true ≢ 0)
    × (p.execution_flags_false ≢ 0)

abbrev pub Splits : ℕ → Option Outcome → Type 0
Splits exec_mask none = ⊥
Splits exec_mask (some stall) = ⊥
Splits exec_mask (some (done bus regs)) =
    bus.packet.opcode ≡ StorageStageOpcode.cjmp → SplitsInTwo exec_mask bus.packet

module _ (exec_mask : ℕ) (flags value1 : VectorValue) where
  abbrev taken_mask : ℕ
  taken_mask = get_cmp_mask exec_mask flags value1

  abbrev rest_mask : ℕ
  rest_mask = bit_and exec_mask (bit_not taken_mask)

  taken-within : (i : ℕ) → digit taken_mask i ≤ digit exec_mask i
  unfolding get_cmp_mask
  taken-within i =
      omega (arith, digit-bit_and exec_mask (reduce_to_uint64_t (bit_and_vec flags value1)) i)

  masks-partition :
      exec_mask < 2 ^ 8
      → (i : ℕ) → i < 64
      → digit taken_mask i + digit rest_mask i ≡ digit exec_mask i
  masks-partition h i hi =
      let small : taken_mask < 2 ^ 64 = get_cmp_mask-lt exec_mask flags value1 h in
      omega (
        arith,
        taken-within i,
        digit-le exec_mask i,
        digit-bit_and exec_mask (bit_not taken_mask) i,
        digit-complement 64 taken_mask i small hi,
      )

  all_threads-mask : exec_mask < 2 ^ 8 → bit_and exec_mask 255 ≡ exec_mask
  all_threads-mask h =
      digit_ext 8 (bit_and exec_mask 255) exec_mask
        (omega (arith, bit_and-le exec_mask exec_mask 255 (omega arith))) h
        (λ i hi.
          omega
            (arith, digit-bit_and exec_mask 255 i, digit-all_threads i hi, digit-le exec_mask i))

  rest-ne-zero : exec_mask < 2 ^ 8 → taken_mask ≢ bit_and exec_mask 255 → rest_mask ≢ 0
  rest-ne-zero h ne z = ne (
      digit_ext 64 taken_mask exec_mask (get_cmp_mask-lt exec_mask flags value1 h) (omega arith)
        (λ i hi. omega (arith, masks-partition h i hi, digit-zero i, ap (λ (m : ℕ). digit m i) z))
      ∙ sym (all_threads-mask h))

-- If the execution mask has eight bits, the store bus is free and the request holds offsets, a
-- conditional jump neither waits nor fails; if it splits the threads, each running thread is on
-- exactly one side, no other thread is on any, and neither side is empty.
pub branch-Splits :
    (pkt : DecodeExecPacket) (bus : ExecuteToStoreBus) (regs : RegisterFile)
    (flags offsets : VectorValue)
    → pkt.value0 ≡ vec offsets
    → pkt.exec_mask < 2 ^ 8
    → bus.is_busy ≡ false
    → Splits pkt.exec_mask (branch pkt bus regs (get_cmp_mask pkt.exec_mask flags pkt.value1))
unfolding branch jump_target VectorValue.get send_address send_2_address
branch-Splits pkt bus regs flags offsets h0 hm hb = ground (
  arith,
  masks-partition pkt.exec_mask flags pkt.value1 hm,
  rest-ne-zero pkt.exec_mask flags pkt.value1 hm,
)
