-- ===== src/Assembler/Parser/Opcodes.antt =====
-- Assembler/parser.cpp: `stringToOpcode`.
use ecc_cpu.Base.{if◌then◌else◌, Option, none, some}
use ecc_cpu.Assembler.Insns.{
  Mnemonic, nop, halt, cmp, mov, add, jmp, store, load_restore_pc, load, je, jne, jg, jge, jl, jle,
  shl, load_addr_lo, load_addr_mid, load_addr_hi,
}
use ecc_cpu.Assembler.Linker.{same_text}
use ecc_cpu.Assembler.Text.{Text, codes}

-- `none` is the error, after which the source goes on with `NOP`.
unfoldable pub string_to_opcode : Text → Option Mnemonic
string_to_opcode name =
    if same_text name (codes "loadaddress_lo")
    then some load_addr_lo
    else if same_text name (codes "loadaddress_mid")
    then some load_addr_mid
    else if same_text name (codes "loadaddress_hi")
    then some load_addr_hi
    else if same_text name (codes "nop")
    then some nop
    else if same_text name (codes "shl")
    then some shl
    else if same_text name (codes "halt")
    then some halt
    else if same_text name (codes "mov")
    then some mov
    else if same_text name (codes "add")
    then some add
    else if same_text name (codes "jmp")
    then some jmp
    else if same_text name (codes "restorepc")
    then some load_restore_pc
    else if same_text name (codes "store")
    then some store
    else if same_text name (codes "load")
    then some load
    else if same_text name (codes "cmp")
    then some cmp
    else if same_text name (codes "je")
    then some je
    else if same_text name (codes "jne")
    then some jne
    else if same_text name (codes "jg")
    then some jg
    else if same_text name (codes "jge")
    then some jge
    else if same_text name (codes "jl")
    then some jl
    else if same_text name (codes "jle")
    then some jle
    else none
