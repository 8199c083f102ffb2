-- ===== src/Assembler/Parser/Switch.antt =====
-- The outcomes of the switch of `parseCodeLine` in Assembler/parser.cpp, case by case.
use ecc_cpu.Base.{length, ◌==◌, ℕ, refl, Bool, Option, List}
use ecc_cpu.Assembler.Insns.{
  Mnemonic, AddressPart, lo, mid, hi, add_reg_reg_const, cmp_reg_reg, move_reg_block_index,
  move_reg_reg, shl_reg_reg_const,
}
use ecc_cpu.Assembler.Text.{Text}
use ecc_cpu.Assembler.Parser.CodeLine.{
  Program, parse_insn, parse_cmp, parse_shl, parse_mov, parse_add, parse_jump, parse_load_addr,
  add_move_const, add_move_reg, add_move_symbol, add_three_regs, register_at, and_then, constant_at,
  symbol_at, parse_store, parse_load, parse_restore_pc,
}
use ecc_cpu.Assembler.Parser.Constants.{is_int8_constant, is_int16_constant}
use ecc_cpu.Assembler.Parser.Bounds.{narrow-fits16}
use ecc_cpu.Assembler.Parser.Outcome.{
  IsOutcome, reports, adds, bind-IsOutcome, if_IsOutcome, constant-IsOutcome, register-IsOutcome,
  memory-IsOutcome, two_regs-IsOutcome, two_regs_const-IsOutcome,
}

module _ (line : ℕ) (p : Program) (toks : List Text) where
  parse_cmp-IsOutcome : IsOutcome line p (parse_cmp toks line p)
  unfolding parse_cmp
  parse_cmp-IsOutcome = bind-IsOutcome line p _ _ (λ ok.
      if_IsOutcome line p ok _ _
        (two_regs-IsOutcome line p cmp_reg_reg p.regnames toks (λ d s hd hs. (hd, hs)) (λ k. k))
        (reports refl))

  parse_shl-IsOutcome : IsOutcome line p (parse_shl toks line p)
  unfolding parse_shl
  parse_shl-IsOutcome = bind-IsOutcome line p _ _ (λ ok.
      if_IsOutcome line p ok _ _
        (two_regs_const-IsOutcome line p shl_reg_reg_const toks (λ d s c hd hs hc. (hd, hs, hc)))
        (reports refl))

  add_move_const-IsOutcome : IsOutcome line p (add_move_const toks p)
  add_move_const-IsOutcome =
      register-IsOutcome line p p.regnames toks 1 _ (λ k. k)
        (λ n d h. bind-IsOutcome line p _ _ (λ t.
          constant-IsOutcome line p 16 t _ narrow-fits16
            (λ c hc. adds _ _ refl (λ k. (((h k).1, hc), (h k).0)))))

  add_move_reg-IsOutcome : IsOutcome line p (add_move_reg toks p)
  add_move_reg-IsOutcome =
      register-IsOutcome line p p.regnames toks 2 _ (λ k. k)
        (λ n src h.
          if_IsOutcome line p _ _ _
            (two_regs-IsOutcome line p move_reg_block_index n toks (λ d s hd hs. (hd, hs))
              (λ k. (h k).0))
            (two_regs-IsOutcome line p move_reg_reg n toks (λ d s hd hs. (hd, hs)) (λ k. (h k).0)))

  add_move_symbol-IsOutcome : IsOutcome line p (add_move_symbol toks p)
  add_move_symbol-IsOutcome =
      register-IsOutcome line p p.regnames toks 1 _ (λ k. k)
        (λ n d h.
          bind-IsOutcome line p _ _ (λ symbol. adds _ _ refl (λ k. (((h k).1, refl), (h k).0))))

  parse_mov-IsOutcome : IsOutcome line p (parse_mov toks line p)
  unfolding parse_mov
  parse_mov-IsOutcome =
      let a : Option Bool = register_at p toks 1 in
      bind-IsOutcome line p (and_then a (constant_at is_int16_constant toks 2)) _ (λ to_const.
        bind-IsOutcome line p (and_then a (register_at p toks 2)) _ (λ to_reg.
          bind-IsOutcome line p (and_then a (symbol_at toks 2)) _ (λ to_symbol.
            if_IsOutcome line p to_const _ _ add_move_const-IsOutcome (
              if_IsOutcome line p to_reg _ _ add_move_reg-IsOutcome
                (if_IsOutcome line p to_symbol _ _ add_move_symbol-IsOutcome (reports refl))))))

  parse_store-IsOutcome : IsOutcome line p (parse_store toks p)
  unfolding parse_store
  parse_store-IsOutcome = bind-IsOutcome line p _ _ (λ t.
      memory-IsOutcome line p p.regnames t _ (λ k. k)
        (λ n1 base offset ho h1.
          register-IsOutcome line p n1 toks 2 _ (λ k. (h1 k).0)
            (λ n2 src h2. adds _ _ refl (λ k. (((h1 k).1, ho, (h2 k).1), (h2 k).0)))))

  parse_load-IsOutcome : IsOutcome line p (parse_load toks p)
  unfolding parse_load
  parse_load-IsOutcome =
      register-IsOutcome line p p.regnames toks 1 _ (λ k. k)
        (λ n1 dest h1. bind-IsOutcome line p _ _ (λ t.
          memory-IsOutcome line p n1 t _ (λ k. (h1 k).0)
            (λ n2 base offset ho h2. adds _ _ refl (λ k. (((h1 k).1, (h2 k).1, ho), (h2 k).0)))))

  parse_restore_pc-IsOutcome : IsOutcome line p (parse_restore_pc toks p)
  unfolding parse_restore_pc
  parse_restore_pc-IsOutcome = bind-IsOutcome line p _ _ (λ t.
      memory-IsOutcome line p p.regnames t _ (λ k. k)
        (λ n base offset ho h. adds _ _ refl (λ k. (((h k).1, ho), (h k).0))))

  add_three_regs-IsOutcome : IsOutcome line p (add_three_regs toks p)
  add_three_regs-IsOutcome =
      register-IsOutcome line p p.regnames toks 1 _ (λ k. k)
        (λ n1 d h1.
          register-IsOutcome line p n1 toks 2 _ (λ k. (h1 k).0)
            (λ n2 s h2.
              register-IsOutcome line p n2 toks 3 _ (λ k. (h2 k).0)
                (λ n3 t h3. adds _ _ refl (λ k. (((h1 k).1, (h2 k).1, (h3 k).1), (h3 k).0)))))

  parse_add-IsOutcome : IsOutcome line p (parse_add toks line p)
  unfolding parse_add
  parse_add-IsOutcome =
      let a : Option Bool = register_at p toks 1 in
      let b : Option Bool = register_at p toks 2 in
      if_IsOutcome line p (length toks == 4) _ _
        (bind-IsOutcome line p (and_then a (and_then b (constant_at is_int8_constant toks 3))) _
          (λ with_const.
            bind-IsOutcome line p (and_then a (and_then b (register_at p toks 3))) _ (λ with_reg.
              if_IsOutcome line p with_const _ _
                (two_regs_const-IsOutcome line p add_reg_reg_const toks
                  (λ d s c hd hs hc. (hd, hs, hc)))
                (if_IsOutcome line p with_reg _ _ add_three_regs-IsOutcome (reports refl)))))
        (reports refl)

  parse_jump-IsOutcome : (m : Mnemonic) → IsOutcome line p (parse_jump m toks p)
  parse_jump-IsOutcome m = bind-IsOutcome line p _ _ (λ l. adds _ _ refl (λ k. (refl, k)))

  parse_load_addr-IsOutcome : (part : AddressPart) → IsOutcome line p (parse_load_addr part toks p)
  parse_load_addr-IsOutcome part =
      bind-IsOutcome line p _ _ (λ name. adds _ _ refl (λ k. (refl, k)))

  pub parse_insn-IsOutcome : (op : Mnemonic) → IsOutcome line p (parse_insn op toks line p)
  unfolding parse_insn
  parse_insn-IsOutcome Mnemonic.nop = reports refl
  parse_insn-IsOutcome Mnemonic.halt = adds _ _ refl (λ k. (tt, k))
  parse_insn-IsOutcome Mnemonic.cmp = parse_cmp-IsOutcome
  parse_insn-IsOutcome Mnemonic.mov = parse_mov-IsOutcome
  parse_insn-IsOutcome Mnemonic.add = parse_add-IsOutcome
  parse_insn-IsOutcome Mnemonic.jmp = parse_jump-IsOutcome Mnemonic.jmp
  parse_insn-IsOutcome Mnemonic.store = parse_store-IsOutcome
  parse_insn-IsOutcome Mnemonic.load_restore_pc = parse_restore_pc-IsOutcome
  parse_insn-IsOutcome Mnemonic.load = parse_load-IsOutcome
  parse_insn-IsOutcome Mnemonic.je = parse_jump-IsOutcome Mnemonic.je
  parse_insn-IsOutcome Mnemonic.jne = parse_jump-IsOutcome Mnemonic.jne
  parse_insn-IsOutcome Mnemonic.jg = parse_jump-IsOutcome Mnemonic.jg
  parse_insn-IsOutcome Mnemonic.jge = parse_jump-IsOutcome Mnemonic.jge
  parse_insn-IsOutcome Mnemonic.jl = parse_jump-IsOutcome Mnemonic.jl
  parse_insn-IsOutcome Mnemonic.jle = parse_jump-IsOutcome Mnemonic.jle
  parse_insn-IsOutcome Mnemonic.shl = parse_shl-IsOutcome
  parse_insn-IsOutcome Mnemonic.load_addr_lo = parse_load_addr-IsOutcome lo
  parse_insn-IsOutcome Mnemonic.load_addr_mid = parse_load_addr-IsOutcome mid
  parse_insn-IsOutcome Mnemonic.load_addr_hi = parse_load_addr-IsOutcome hi
