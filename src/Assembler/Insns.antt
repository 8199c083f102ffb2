-- ===== src/Assembler/Insns.antt =====
-- The instruction classes of Assembler/include (AddRegRegConst.h to StoreRegister.h) and their
-- `getEncodedInstruction`.
use ecc_cpu.Base.{ℕ, bit_and, bit_or, ◌<<<◌, ◌>>>◌, u32, Option, none, some, List}
use ecc_cpu.Base.Int.{ℤ, to_u32}
use mathlib.Core.Option
use ecc_cpu.Defines.{RegisterId, Opcode, opcode_value}

-- Assembler/include/Mnemonics.h
pub data Mnemonic : Type 0 where
  nop halt cmp mov add jmp store load_restore_pc load je jne jg jge jl jle shl : Mnemonic
  load_addr_lo load_addr_mid load_addr_hi : Mnemonic

-- `LoadAddr::Type`
pub data AddressPart : Type 0 where
  lo mid hi : AddressPart

-- The source position that some classes carry is in their error messages only. Text is the list
-- of its bytes. The offsets and constants are signed; `Jmp::dest` and `MoveRegSymbol::src` are set
-- by `link`, as is the address of `LoadAddr`.
pub data Insn : Type 0 where
  add_reg_reg_const : (dst src1 : RegisterId) (src2 : ℤ) → Insn
  add_reg_reg_reg : (dst src1 src2 : RegisterId) → Insn
  cmp_reg_reg : (dst src : RegisterId) → Insn
  halt_insn : Insn
  jump : (label : List ℕ) (dest : ℤ) (mnemonic : Mnemonic) → Insn
  load_addr : (type : AddressPart) (global_var_name : List ℕ) (address : ℕ) → Insn
  load_register : (dest base : RegisterId) (offset : ℤ) → Insn
  move_reg_block_index : (dst src : RegisterId) → Insn
  move_reg_const : (dst : RegisterId) (src : ℤ) → Insn
  move_reg_reg : (dst src : RegisterId) → Insn
  move_reg_symbol : (dest : RegisterId) (symbol : List ℕ) (src : ℤ) → Insn
  restore_pc : (reg : RegisterId) (offset : ℤ) → Insn
  shl_reg_reg_const : (dst src : RegisterId) (bits : ℤ) → Insn
  store_register : (base_reg : RegisterId) (offset : ℤ) (src_reg : RegisterId) → Insn

-- `op | x << 8 | y << 16 | z << 24` on `uint32_t`
abbrev pub word3 : ℕ → ℕ → ℕ → ℕ → ℕ
word3 op x y z = bit_or (bit_or (bit_or op (u32 (x <<< 8))) (u32 (y <<< 16))) (u32 (z <<< 24))

abbrev pub word2 : ℕ → ℕ → ℕ → ℕ
word2 op x y = bit_or (bit_or op (u32 (x <<< 8))) (u32 (y <<< 16))

abbrev pub word1 : ℕ → ℕ → ℕ
word1 op x = bit_or op (u32 (x <<< 8))

-- The opcode of a jump; `none` is the `abort` of the default case.
unfoldable pub jump_opcode : Mnemonic → Option ℕ
jump_opcode Mnemonic.jmp = some (opcode_value Opcode.jmp_always)
jump_opcode Mnemonic.je = some (opcode_value Opcode.jmp_equal)
jump_opcode Mnemonic.jne = some (opcode_value Opcode.jmp_not_equal)
jump_opcode Mnemonic.jl = some (opcode_value Opcode.jmp_lower)
jump_opcode Mnemonic.jle = some (opcode_value Opcode.jmp_lower_equal)
jump_opcode Mnemonic.jg = some (opcode_value Opcode.jmp_greater)
jump_opcode Mnemonic.jge = some (opcode_value Opcode.jmp_greater_equal)
jump_opcode _ = none

-- `LoadAddr::getEncodedInstruction`, which also leaves the shifted and masked address behind.
unfoldable pub encode_load_addr : AddressPart → ℕ → ℕ × ℕ
encode_load_addr lo address =
    let part = bit_and (address >>> 0) 0xff_ffff in
    (word1 (opcode_value Opcode.move_r0_const24a) (u32 part), part)
encode_load_addr mid address =
    let part = bit_and (address >>> 24) 0xff_ffff in
    (word1 (opcode_value Opcode.move_r0_const24b) (u32 part), part)
encode_load_addr hi address =
    let part = bit_and (address >>> 48) 0xff_ffff in
    (word1 (opcode_value Opcode.move_r0_const24c) (u32 part), part)

-- The words of the other instructions; the result is a `uint32_t`.
abbrev pub encode_add_reg_reg_const : RegisterId → RegisterId → ℤ → ℕ
encode_add_reg_reg_const dst src1 src2 =
    word3 (opcode_value Opcode.add_reg_reg_const) dst src1 (to_u32 src2)

abbrev pub encode_add_reg_reg_reg : RegisterId → RegisterId → RegisterId → ℕ
encode_add_reg_reg_reg dst src1 src2 = word3 (opcode_value Opcode.add_reg_reg_reg) dst src1 src2

abbrev pub encode_cmp_reg_reg : RegisterId → RegisterId → ℕ
encode_cmp_reg_reg dst src = word2 (opcode_value Opcode.cmp_reg_reg) dst src

abbrev pub encode_halt : ℕ
encode_halt = opcode_value Opcode.halt

abbrev pub encode_jump : ℤ → Mnemonic → Option ℕ
encode_jump dest mnemonic = Option.map (λ op. word1 op (to_u32 dest)) (jump_opcode mnemonic)

abbrev pub encode_load_register : RegisterId → RegisterId → ℤ → ℕ
encode_load_register dest base offset =
    word3 (opcode_value Opcode.load_reg_const_reg) dest base (to_u32 offset)

abbrev pub encode_move_reg_block_index : RegisterId → RegisterId → ℕ
encode_move_reg_block_index dst src = word2 (opcode_value Opcode.move_reg_block_index) dst src

abbrev pub encode_move_reg_const : RegisterId → ℤ → ℕ
encode_move_reg_const dst src = word2 (opcode_value Opcode.move_reg_const16) dst (to_u32 src)

abbrev pub encode_move_reg_reg : RegisterId → RegisterId → ℕ
encode_move_reg_reg dst src = word2 (opcode_value Opcode.move_reg_reg) dst src

abbrev pub encode_move_reg_symbol : RegisterId → ℤ → ℕ
encode_move_reg_symbol dest src =
    word2 (opcode_value Opcode.move_pcrel_reg_const16) dest (to_u32 src)

abbrev pub encode_restore_pc : RegisterId → ℤ → ℕ
encode_restore_pc reg offset = word2 (opcode_value Opcode.load_restore_pc) reg (to_u32 offset)

abbrev pub encode_shl_reg_reg_const : RegisterId → RegisterId → ℤ → ℕ
encode_shl_reg_reg_const dst src bits =
    word3 (opcode_value Opcode.l_sshift_reg_reg_const) dst src (to_u32 bits)

abbrev pub encode_store_register : RegisterId → ℤ → RegisterId → ℕ
encode_store_register base_reg offset src_reg =
    word3 (opcode_value Opcode.store_reg_const_reg) src_reg base_reg (to_u32 offset)

-- `getEncodedInstruction`: the word, and the instruction as the call leaves it.
unfoldable pub get_encoded_instruction : Insn → Option (ℕ × Insn)
get_encoded_instruction (add_reg_reg_const dst src1 src2) =
    some (encode_add_reg_reg_const dst src1 src2, add_reg_reg_const dst src1 src2)
get_encoded_instruction (add_reg_reg_reg dst src1 src2) =
    some (encode_add_reg_reg_reg dst src1 src2, add_reg_reg_reg dst src1 src2)
get_encoded_instruction (cmp_reg_reg dst src) =
    some (encode_cmp_reg_reg dst src, cmp_reg_reg dst src)
get_encoded_instruction halt_insn = some (encode_halt, halt_insn)
get_encoded_instruction (jump label dest mnemonic) =
    Option.map (λ word. (word, jump label dest mnemonic)) (encode_jump dest mnemonic)
get_encoded_instruction (load_addr type name address) =
    let (word, address') = encode_load_addr type address in
    some (word, load_addr type name address')
get_encoded_instruction (load_register dest base offset) =
    some (encode_load_register dest base offset, load_register dest base offset)
get_encoded_instruction (move_reg_block_index dst src) =
    some (encode_move_reg_block_index dst src, move_reg_block_index dst src)
get_encoded_instruction (move_reg_const dst src) =
    some (encode_move_reg_const dst src, move_reg_const dst src)
get_encoded_instruction (move_reg_reg dst src) =
    some (encode_move_reg_reg dst src, move_reg_reg dst src)
get_encoded_instruction (move_reg_symbol dest symbol src) =
    some (encode_move_reg_symbol dest src, move_reg_symbol dest symbol src)
get_encoded_instruction (restore_pc reg offset) =
    some (encode_restore_pc reg offset, restore_pc reg offset)
get_encoded_instruction (shl_reg_reg_const dst src bits) =
    some (encode_shl_reg_reg_const dst src bits, shl_reg_reg_const dst src bits)
get_encoded_instruction (store_register base_reg offset src_reg) =
    some (encode_store_register base_reg offset src_reg, store_register base_reg offset src_reg)
