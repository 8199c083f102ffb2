-- ===== src/Assembler/Effect.antt =====
-- What the instructions of Assembler/include that write a register are for: the register they write
-- and its value in each thread, in terms of the operands and the registers alone.
use ecc_cpu.Base.{
  ℕ, ◌+◌, ◌/◌, ◌%◌, ◌^◌, ◌<◌, bit_or, ◌<<<◌, u64, ◌≡◌, true, ltb, if◌then◌else◌, Option, none, some,
}
use ecc_cpu.Base.Int.{ℤ, pos, ltb_ℤ, signed64, to_u64}
use ecc_cpu.Defines.{RegisterId, reg_r0, reg_flags, flags_mask_eq, flags_mask_gt, flags_mask_lt}
use ecc_cpu.VectorValue.{VectorValue, lane}
use ecc_cpu.RegisterFile.{RegisterFile, is_valid}
use ecc_cpu.Assembler.Insns.{
  Insn, lo, mid, hi, add_reg_reg_const, add_reg_reg_reg, cmp_reg_reg, load_addr,
  move_reg_block_index, move_reg_const, move_reg_reg, move_reg_symbol, shl_reg_reg_const,
}

-- A vector from the value of each thread.
abbrev pub of_lanes : (ℕ → ℕ) → VectorValue
of_lanes f = record {
  data0 = f 0;
  data1 = f 1;
  data2 = f 2;
  data3 = f 3;
  data4 = f 4;
  data5 = f 5;
  data6 = f 6;
  data7 = f 7;
}

-- The flags of a comparison of two signed numbers.
abbrev pub flags_of : ℤ → ℤ → ℕ
flags_of a b =
    if ltb_ℤ a b then flags_mask_lt else if ltb_ℤ b a then flags_mask_gt else flags_mask_eq

-- The register that the instruction at `pc` writes, with its value; `none` for the instructions
-- that write none, or that wait for the memory, and for a shift that is undefined.
abbrev pub effect : Insn → ℕ → (RegisterId → VectorValue) → Option (RegisterId × VectorValue)
effect (add_reg_reg_const dst src1 src2) pc r =
    some (dst, of_lanes (λ i. u64 (lane (r src1) i + to_u64 src2)))
effect (add_reg_reg_reg dst src1 src2) pc r =
    some (dst, of_lanes (λ i. u64 (lane (r src1) i + lane (r src2) i)))
effect (cmp_reg_reg dst src) pc r =
    some
      (reg_flags, of_lanes (λ i. flags_of (signed64 (lane (r dst) i)) (signed64 (lane (r src) i))))
effect (load_addr lo name address) pc r = some (reg_r0, of_lanes (λ i. address % 2 ^ 24))
effect (load_addr mid name address) pc r =
    some (
      reg_r0,
      of_lanes (λ i. bit_or (lane (r reg_r0) i) (u64 ((address / 2 ^ 24 % 2 ^ 24) <<< 24))),
    )
effect (load_addr hi name address) pc r =
    some (reg_r0, of_lanes (λ i. bit_or (lane (r reg_r0) i) (u64 ((address / 2 ^ 48) <<< 48))))
effect (move_reg_block_index dst src) pc r = some (dst, of_lanes (λ i. i))
effect (move_reg_const dst src) pc r = some (dst, of_lanes (λ i. to_u64 src))
effect (move_reg_reg dst src) pc r = some (dst, r src)
effect (move_reg_symbol dest symbol src) pc r = some (dest, of_lanes (λ i. u64 (to_u64 src + pc)))
effect (shl_reg_reg_const dst src (pos n)) pc r =
    if ltb n 64 then some (dst, of_lanes (λ i. u64 (lane (r src) i <<< n))) else none
effect _ pc r = none

-- Every lane is a 64-bit pattern.
abbrev pub AreWords : VectorValue → Type 0
AreWords v = (i : ℕ) → lane v i < 2 ^ 64

-- No write of a register that the instruction reads is on its way; what is compared are words.
abbrev pub IsReady : RegisterFile → Insn → Type 0
IsReady regs (add_reg_reg_const dst src1 src2) = is_valid regs src1 ≡ some true
IsReady regs (add_reg_reg_reg dst src1 src2) =
    (is_valid regs src1 ≡ some true) × (is_valid regs src2 ≡ some true)
IsReady regs (cmp_reg_reg dst src) =
    (is_valid regs dst ≡ some true)
    × (is_valid regs src ≡ some true)
    × AreWords (regs.regs dst)
    × AreWords (regs.regs src)
IsReady regs (load_addr lo name address) = Unit {0}
IsReady regs (load_addr mid name address) = is_valid regs reg_r0 ≡ some true
IsReady regs (load_addr hi name address) = is_valid regs reg_r0 ≡ some true
IsReady regs (move_reg_block_index dst src) = Unit {0}
IsReady regs (move_reg_const dst src) = Unit {0}
IsReady regs (move_reg_reg dst src) = is_valid regs src ≡ some true
IsReady regs (move_reg_symbol dest symbol src) = Unit {0}
IsReady regs (shl_reg_reg_const dst src bits) = is_valid regs src ≡ some true
IsReady regs _ = Unit {0}
