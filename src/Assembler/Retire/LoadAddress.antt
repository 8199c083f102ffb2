-- ===== src/Assembler/Retire/LoadAddress.antt =====
-- The three instructions by which Assembler/include/LoadAddr.h loads the address of a variable.
use ecc_cpu.Base.{
  ℕ, ◌+◌, ◌*◌, ◌/◌, ◌%◌, ◌^◌, ◌<◌, bit_or, bit_or-add, ◌<<<◌, u64, ◌≡◌, refl, ap, ◌∙◌, arith, true,
  false, Option, none, some, List, ◌>>=◌,
}
use ecc_cpu.Defines.{RegisterId, reg_r0}
use ecc_cpu.VectorValue.{VectorValue, create_vec_int64, lane}
use ecc_cpu.RegisterFile.{is_valid}
use ecc_cpu.RegisterFile.Scoreboard.{Pending, is_valid_iff_Pending}
use ecc_cpu.Bus.DecodeToExecuteBus.{DecodeToExecuteBus}
use ecc_cpu.Bus.ExecuteToStoreBus.{ExecuteToStoreBus}
use ecc_cpu.Stage.Store.{Stepped}
use ecc_cpu.Assembler.Insns.{lo, mid, hi, load_addr}
use ecc_cpu.Assembler.Effect.{of_lanes}
use ecc_cpu.Assembler.Retire.{run_insn, Writes}
use ecc_cpu.Assembler.Retire.Correct.{run_insn-Writes}

-- The three parts of an address make it up again.
parts-address :
    (address : ℕ)
    → address < 2 ^ 64
    → bit_or
        (bit_or (address % 2 ^ 24) (u64 ((address / 2 ^ 24 % 2 ^ 24) <<< 24)))
        (u64 ((address / 2 ^ 48) <<< 48))
      ≡ address
parts-address address h =
    ap (λ x. bit_or x (u64 ((address / 2 ^ 48) <<< 48)))
      (ap (bit_or (address % 2 ^ 24)) (omega arith)
        ∙ bit_or-add 24 (address % 2 ^ 24) (address / 2 ^ 24 % 2 ^ 24) (omega arith))
    ∙ ap (bit_or (address % 2 ^ 24 + address / 2 ^ 24 % 2 ^ 24 * 2 ^ 24)) (omega arith)
    ∙ bit_or-add 48 (address % 2 ^ 24 + address / 2 ^ 24 % 2 ^ 24 * 2 ^ 24) (address / 2 ^ 48)
        (omega arith)
    ∙ omega arith

-- A write of a register that was written before.
rewritten :
    (s s' : Stepped) (id : RegisterId) (v w : VectorValue) (last : Option Stepped)
    → Writes s.regs id v (some s')
    → Writes s'.regs id w last
    → Writes s.regs id w last
rewritten s s' id v w none h k = k
rewritten s s' id v w (some s'') (_, others, pending) (value, others', pending') =
    (value, (λ j ne. others' j ne ∙ others j ne), λ j n p. pending' j n (pending j n p))

Writes-trans :
    (s : Stepped) (id : RegisterId) (v w : VectorValue) (first : Option Stepped)
    (second : Stepped → Option Stepped)
    → Writes s.regs id v first
    → ((s' : Stepped) → Writes s.regs id v (some s') → Writes s'.regs id w (second s'))
    → Writes s.regs id w (first >>= second)
Writes-trans s id v w none second h k = absurd h
Writes-trans s id v w (some s') second h k = rewritten s s' id v w (second s') h (k s' h)

module _ (core_id mask pc : ℕ) (bus : DecodeToExecuteBus) (store_bus : ExecuteToStoreBus)
    (name : List ℕ) (address : ℕ) where
  -- The three instructions, one after the other.
  abbrev pub load_address : Stepped → Option Stepped
  load_address s = run_insn core_id s mask pc bus store_bus (load_addr lo name address) >>= λ s1.
      run_insn core_id s1 mask (pc + 4) bus store_bus (load_addr mid name address) >>= λ s2.
      run_insn core_id s2 mask (pc + 8) bus store_bus (load_addr hi name address)

module _ (core_id mask pc : ℕ) (bus : DecodeToExecuteBus) (store_bus : ExecuteToStoreBus)
    (free : bus.is_busy ≡ false) (store_free : store_bus.is_busy ≡ false) (name : List ℕ)
    (address : ℕ) (small : address < 2 ^ 64) where
  abbrev low : ℕ
  low = address % 2 ^ 24

  abbrev middle : ℕ
  middle = bit_or low (u64 ((address / 2 ^ 24 % 2 ^ 24) <<< 24))

  ready :
      (s s' : Stepped) (v : VectorValue)
      → Pending s.regs reg_r0 0
      → Writes s.regs reg_r0 v (some s')
      → is_valid s'.regs reg_r0 ≡ some true
  ready s s' v p (_, others, pending) =
      (is_valid_iff_Pending s'.regs reg_r0 0 (omega arith) (omega arith) (pending reg_r0 0 p)).1
        refl

  -- If no write of r0 is on its way, the buses are free and the address has 64 bits, the three
  -- instructions that load an address, encoded, decoded, executed and stored one after the other,
  -- leave the whole address in every thread's r0, the other registers as they were, and as many
  -- writes on their way as before.
  pub load_address-Writes :
      (s : Stepped)
      → Pending s.regs reg_r0 0
      → Writes s.regs reg_r0
          (create_vec_int64 address)
          (load_address core_id mask pc bus store_bus name address s)
  load_address-Writes s p =
      Writes-trans s reg_r0 (create_vec_int64 low) (create_vec_int64 address) _ _
        (run_insn-Writes core_id mask pc bus store_bus s free store_free (load_addr lo name address)
          reg_r0 (create_vec_int64 low) small tt refl (omega arith))
        (λ s1 w1.
          Writes-trans s1 reg_r0 (create_vec_int64 middle) (create_vec_int64 address) _ _
            (run_insn-Writes core_id mask (pc + 4) bus store_bus s1 free store_free
              (load_addr mid name address) reg_r0 (create_vec_int64 middle) small
              (ready s s1 (create_vec_int64 low) p w1)
              (ap
                (λ r. some (
                  reg_r0,
                  of_lanes (λ i. bit_or (lane r i) (u64 ((address / 2 ^ 24 % 2 ^ 24) <<< 24))),
                ))
                w1.0)
              (omega arith))
            (λ s2 w2.
              run_insn-Writes core_id mask (pc + 8) bus store_bus s2 free store_free
                (load_addr hi name address) reg_r0 (create_vec_int64 address) small
                (ready s1 s2 (create_vec_int64 middle) (w1.2 reg_r0 0 p) w2)
                (ap
                    (λ r.
                      some (
                        reg_r0,
                        of_lanes (λ i. bit_or (lane r i) (u64 ((address / 2 ^ 48) <<< 48))),
                      ))
                    w2.0
                  ∙ ap (λ x. some (reg_r0, create_vec_int64 x)) (parts-address address small))
                (omega arith)))
