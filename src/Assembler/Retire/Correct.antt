-- ===== src/Assembler/Retire/Correct.antt =====
-- The registers after an instruction of Assembler/include has gone through the decode, the execute
-- and the store stage.
use ecc_cpu.Base.{
  lt→ltb, ℕ, ◌<◌, ◌^◌, ◌%◌, ◌<<<◌, u64, ltb, Bool-cases, inl, inr, fun_ext, subst, for_all-true,
  ◌≡◌, refl, ap, ◌∙◌, arith, true, false, Option, none, some, ◌>>=◌, update_self, update_ne,
}
use ecc_cpu.Defines.{RegisterId, reg_r0, reg_flags, max_reg_id, StorageStageOpcode}
use ecc_cpu.VectorValue.{
  VectorValue, lane, add, or_shift_left, shift_left, compare_vecs, get_compare_result,
  create_vec_int64,
}
use ecc_cpu.VectorValue.Lanes.{lane-create}
use ecc_cpu.RegisterFile
use ecc_cpu.RegisterFile.{RegisterFile, is_valid, mark_invalid, mark_valid}
use ecc_cpu.Packets.{DecodeExecPacket, vec}
use ecc_cpu.Bus.DecodeToExecuteBus.{DecodeToExecuteBus, send_req2_reg, send_req3_reg, send_req2_vec}
use ecc_cpu.Bus.ExecuteToStoreBus.{ExecuteToStoreBus, send_reg_vec}
use ecc_cpu.Stage.Execute.{write_back, execute_insn, execute_op, execute_cmp}
use ecc_cpu.Assembler.Insns.{
  Insn, lo, mid, hi, add_reg_reg_const, add_reg_reg_reg, cmp_reg_reg, load_addr,
  move_reg_block_index, move_reg_const, move_reg_reg, move_reg_symbol, shl_reg_reg_const, jump,
  halt_insn, load_register, store_register, restore_pc,
}
use ecc_cpu.Assembler.Meaning.{IsEncodable, meaning}
use ecc_cpu.Assembler.RoundTrip.{decode-encode}
use ecc_cpu.Assembler.Effect.{of_lanes, flags_of, effect, IsReady}
use ecc_cpu.Base.Int.{pos, negsuc, signed64}
use ecc_cpu.Stage.Store.{Stepped, store_op, store_value_into_reg}
use ecc_cpu.Assembler.Retire.{after_execute, after_decode, run_insn, Writes}

get-valid :
    (regs : RegisterFile) (id : RegisterId)
    → is_valid regs id ≡ some true
    → RegisterFile.get regs id ≡ some (regs.regs id)
unfolding is_valid RegisterFile.get
get-valid regs id h = ground arith

-- A value that the execute stage writes back is in its register when the store stage is done.
write_back-Writes :
    (core_id : ℕ) (pkt : DecodeExecPacket) (store_bus : ExecuteToStoreBus) (s : Stepped)
    (id : RegisterId) (v : VectorValue)
    → store_bus.is_busy ≡ false
    → id < max_reg_id
    → Writes s.regs id v (
        write_back pkt store_bus s.regs StorageStageOpcode.store_value_into_reg id v
        >>= after_execute core_id s)
unfolding write_back send_reg_vec mark_invalid mark_valid store_op store_value_into_reg
    RegisterFile.set
write_back-Writes core_id pkt store_bus s id v free small =
    simp (free, lt→ltb id max_reg_id small)
      (
        update_self s.regs.regs id v,
        (λ j ne. update_ne s.regs.regs id j v ne),
        λ j n pending. ground arith,
      )

flags_of-compare :
    (a b : ℕ)
    → a < 2 ^ 64
    → b < 2 ^ 64
    → get_compare_result a b ≡ flags_of (signed64 a) (signed64 b)
unfolding get_compare_result
flags_of-compare a b ha hb = ground arith

compare_vecs-flags :
    (x y : VectorValue)
    → ((i : ℕ) → lane x i < 2 ^ 64)
    → ((i : ℕ) → lane y i < 2 ^ 64)
    → compare_vecs x y ≡ of_lanes (λ i. flags_of (signed64 (lane x i)) (signed64 (lane y i)))
unfolding compare_vecs
compare_vecs-flags x y hx hy =
    let same : (i : ℕ)
        → get_compare_result (lane x i) (lane y i)
          ≡ flags_of (signed64 (lane x i)) (signed64 (lane y i)) =
      λ i. flags_of-compare (lane x i) (lane y i) (hx i) (hy i) in
    ap of_lanes (fun_ext same)

shift_left-lanes :
    (x : VectorValue) (n : ℕ)
    → n < 64
    → shift_left x (create_vec_int64 (n % 2 ^ 64)) ≡ some (of_lanes (λ i. u64 (lane x i <<< n)))
unfolding shift_left
shift_left-lanes x n h =
    subst (λ k. shift_left x (create_vec_int64 k) ≡ some (of_lanes (λ i. u64 (lane x i <<< n))))
      (let small : n ≡ n % 2 ^ 64 = omega arith in small)
      (simp
        (for_all-true 8 0 (λ i. ltb (lane (create_vec_int64 n) i) 64)
          (λ j lt. ap (λ k. ltb k 64) (lane-create n j lt) ∙ lt→ltb n 64 h))
        refl)

cmp-Writes :
    (core_id : ℕ) (pkt : DecodeExecPacket) (store_bus : ExecuteToStoreBus) (s : Stepped)
    (a v : VectorValue)
    → store_bus.is_busy ≡ false
    → pkt.value0 ≡ vec a
    → compare_vecs a pkt.value1 ≡ v
    → Writes s.regs reg_flags v (execute_cmp pkt store_bus s.regs >>= after_execute core_id s)
unfolding execute_cmp write_back
cmp-Writes core_id pkt store_bus s a v free operand e =
    simp (operand, e) (write_back-Writes core_id pkt store_bus s reg_flags v free (omega arith))

module _ (core_id mask pc : ℕ) (bus : DecodeToExecuteBus) (store_bus : ExecuteToStoreBus)
    (s : Stepped) (free : bus.is_busy ≡ false) (store_free : store_bus.is_busy ≡ false) where
  -- What an instruction is for, if anything, is done.
  abbrev Performs : Insn → Option (RegisterId × VectorValue) → Type 0
  Performs insn none = Unit {0}
  Performs insn (some (id, v)) =
      id < max_reg_id → Writes s.regs id v (run_insn core_id s mask pc bus store_bus insn)

  -- It is enough to look at what the instruction asks of the execute stage.
  through :
      (insn : Insn) (id : RegisterId) (v : VectorValue)
      → IsEncodable insn
      → Writes s.regs id v (meaning mask pc bus s.regs insn >>= after_decode core_id s store_bus)
      → Writes s.regs id v (run_insn core_id s mask pc bus store_bus insn)
  through insn id v h w =
      let (word, insn', encoded, decoded) = decode-encode insn mask pc bus s.regs h in
      simp (encoded, decoded) w

  Performs-effect :
      (insn : Insn)
      → IsEncodable insn
      → IsReady s.regs insn
      → Performs insn (effect insn pc (s.regs).regs)
  unfolding send_req2_reg send_req3_reg send_req2_vec execute_insn execute_op add or_shift_left
  Performs-effect (add_reg_reg_const d a c) h ready = λ small.
      through (add_reg_reg_const d a c) d _ h (
        simp (ready, get-valid s.regs a ready, free)
          (write_back-Writes core_id _ store_bus s d _ store_free small))
  Performs-effect (add_reg_reg_reg d a b) h (ready, ready') = λ small.
      through (add_reg_reg_reg d a b) d _ h (
        simp (ready, ready', get-valid s.regs a ready, get-valid s.regs b ready', free)
          (write_back-Writes core_id _ store_bus s d _ store_free small))
  Performs-effect (cmp_reg_reg a b) h (ready, ready', words, words') = λ small.
      through (cmp_reg_reg a b) reg_flags _ h (
        simp (ready, ready', get-valid s.regs a ready, get-valid s.regs b ready', free)
          (cmp-Writes core_id _ store_bus s (s.regs.regs a) _ store_free refl
            (compare_vecs-flags (s.regs.regs a) (s.regs.regs b) words words')))
  Performs-effect (load_addr lo name address) h ready = λ small.
      through (load_addr lo name address) reg_r0 _ h
        (simp free (write_back-Writes core_id _ store_bus s reg_r0 _ store_free small))
  Performs-effect (load_addr mid name address) h ready = λ small.
      through (load_addr mid name address) reg_r0 _ h (
        simp (ready, get-valid s.regs reg_r0 ready, free)
          (write_back-Writes core_id _ store_bus s reg_r0 _ store_free small))
  Performs-effect (load_addr hi name address) h ready = λ small.
      through (load_addr hi name address) reg_r0 _ h (
        simp (ready, get-valid s.regs reg_r0 ready, free)
          (write_back-Writes core_id _ store_bus s reg_r0 _ store_free small))
  Performs-effect (move_reg_block_index d a) h ready = λ small.
      through (move_reg_block_index d a) d _ h
        (simp free (write_back-Writes core_id _ store_bus s d _ store_free small))
  Performs-effect (move_reg_const d c) h ready = λ small.
      through (move_reg_const d c) d _ h
        (simp free (write_back-Writes core_id _ store_bus s d _ store_free small))
  Performs-effect (move_reg_reg d a) h ready = λ small. through (move_reg_reg d a) d _ h (
      simp (ready, get-valid s.regs a ready, free)
        (write_back-Writes core_id _ store_bus s d _ store_free small))
  Performs-effect (move_reg_symbol d symbol c) h ready = λ small.
      through (move_reg_symbol d symbol c) d _ h
        (simp free (write_back-Writes core_id _ store_bus s d _ store_free small))
  Performs-effect (shl_reg_reg_const d a (pos n)) h ready = elim (Bool-cases (ltb n 64)) [
    | inl defined ↦ simp defined (λ small. through (shl_reg_reg_const d a (pos n)) d _ h (
        simp
          (ready, get-valid s.regs a ready, free, shift_left-lanes (s.regs.regs a) n (ground arith))
          (write_back-Writes core_id _ store_bus s d _ store_free small)))
    | inr undefined ↦ simp undefined tt
  ]
  Performs-effect (shl_reg_reg_const d a (negsuc n)) h ready = tt
  Performs-effect (jump label dest mnemonic) h ready = tt
  Performs-effect halt_insn h ready = tt
  Performs-effect (load_register d b c) h ready = tt
  Performs-effect (store_register b c a) h ready = tt
  Performs-effect (restore_pc a c) h ready = tt

  -- For every instruction that writes a register from registers and constants: if its operands fit
  -- their fields, the registers it reads are valid, those it compares hold 64-bit patterns, the
  -- register it writes exists and the buses are free, then encoding, decoding, executing and
  -- storing it fails nowhere and does not wait; the register then holds the value that the
  -- instruction is for, thread by thread, the others are as they were, and as many writes of each
  -- register are on their way as before.
  pub run_insn-Writes :
      (insn : Insn) (id : RegisterId) (v : VectorValue)
      → IsEncodable insn
      → IsReady s.regs insn
      → effect insn pc (s.regs).regs ≡ some (id, v)
      → id < max_reg_id
      → Writes s.regs id v (run_insn core_id s mask pc bus store_bus insn)
  run_insn-Writes insn id v h ready e small =
      subst (Performs insn) e (Performs-effect insn h ready) small
