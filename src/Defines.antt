-- ===== src/Defines.antt =====
-- CoreLib/include/Defines.h: the constants, the register numbers and the three levels of opcodes;
-- CoreLib/include/builtin_verilog_ops.h: the count of set bits.
use ecc_cpu.Base.{
  ℕ, zero, suc, ◌+◌, ◌-◌, ◌*◌, ◌^◌, bit_and, ◌<<<◌, u8, Bool, ◌==◌, ltb, if◌then◌else◌, List, [],
  ◌∷◌, get_or,
}

-- The segments, in bytes.
abbrev pub code_segment_start : ℕ
code_segment_start = 0

abbrev pub data_segment_start : ℕ
data_segment_start = 1024 * 1024

abbrev pub data_segment_size : ℕ
data_segment_size = 1024 * 1024

abbrev pub end_memory_address : ℕ
end_memory_address = data_segment_start + data_segment_size

-- `sizeof(memory_address_t)` and `sizeof(instruction_t)`
abbrev pub pointer_size : ℕ
pointer_size = 8

abbrev pub instruction_size : ℕ
instruction_size = 4

abbrev pub dram_read_access_cycles : ℕ
dram_read_access_cycles = 100

abbrev pub dram_write_access_cycles : ℕ
dram_write_access_cycles = 100

abbrev pub number_of_vector_threads : ℕ
number_of_vector_threads = 8

abbrev pub all_threads_exec_mask : ℕ
all_threads_exec_mask = 2 ^ number_of_vector_threads - 1

-- A `RegisterID` is a byte: a cast to it checks nothing.
abbrev pub RegisterId : Type 0
RegisterId = ℕ

abbrev pub reg_r0 : RegisterId
reg_r0 = 0

abbrev pub reg_block_index : RegisterId
reg_block_index = 10

abbrev pub reg_sp : RegisterId
reg_sp = 11

abbrev pub reg_flags : RegisterId
reg_flags = 12

abbrev pub reg_pc : RegisterId
reg_pc = 13

abbrev pub max_reg_id : RegisterId
max_reg_id = 14

-- `id >= REG_R0` holds of every byte.
abbrev pub is_valid_index : RegisterId → Bool
is_valid_index id = ltb id max_reg_id

abbrev pub machine_flags_mask_halt : ℕ
machine_flags_mask_halt = 1

abbrev pub flags_mask_eq : ℕ
flags_mask_eq = 2

abbrev pub flags_mask_gt : ℕ
flags_mask_gt = 4

abbrev pub flags_mask_lt : ℕ
flags_mask_lt = 8

pub data CoreComponentId : Type 0 where
  fetch decode execute store : CoreComponentId

abbrev pub component_value : CoreComponentId → ℕ
component_value CoreComponentId.fetch = 0
component_value CoreComponentId.decode = 1
component_value CoreComponentId.execute = 2
component_value CoreComponentId.store = 3

-- The core's number and the component within it.
pub record BusId : Type 0 where
  pub core_id : ℕ
  pub within_core_id : CoreComponentId

-- A cast of a byte that no opcode has is `other`.
pub data Opcode : Type 0 where
  nop halt move_reg_block_index move_reg_reg move_reg_cpu_id move_reg_timestamp : Opcode
  move_reg_const16 move_r0_const24a move_r0_const24b move_r0_const24c : Opcode
  load_reg_const_reg store_reg_const_reg cmp_reg_reg : Opcode
  add_reg_reg_reg add_reg_reg_const rshift_reg_reg_reg rshift_reg_reg_const : Opcode
  l_sshift_reg_reg_reg l_sshift_reg_reg_const l_ushift_reg_reg_reg l_ushift_reg_reg_const : Opcode
  mul_reg_reg_reg mul_reg_reg_const div_reg_reg_reg div_reg_reg_const : Opcode
  jmp_always jmp_equal jmp_not_equal jmp_lower jmp_lower_equal : Opcode
  jmp_greater jmp_greater_equal load_restore_pc move_pcrel_reg_const16 : Opcode
  other : ℕ → Opcode

-- The enumerators in the order of their values, from 0.
abbrev pub opcodes : List Opcode
opcodes =
    Opcode.nop ∷ Opcode.halt ∷ Opcode.move_reg_block_index ∷ Opcode.move_reg_reg
    ∷ Opcode.move_reg_cpu_id ∷ Opcode.move_reg_timestamp ∷ Opcode.move_reg_const16
    ∷ Opcode.move_r0_const24a ∷ Opcode.move_r0_const24b ∷ Opcode.move_r0_const24c
    ∷ Opcode.load_reg_const_reg ∷ Opcode.store_reg_const_reg ∷ Opcode.cmp_reg_reg
    ∷ Opcode.add_reg_reg_reg ∷ Opcode.add_reg_reg_const ∷ Opcode.rshift_reg_reg_reg
    ∷ Opcode.rshift_reg_reg_const ∷ Opcode.l_sshift_reg_reg_reg ∷ Opcode.l_sshift_reg_reg_const
    ∷ Opcode.l_ushift_reg_reg_reg ∷ Opcode.l_ushift_reg_reg_const ∷ Opcode.mul_reg_reg_reg
    ∷ Opcode.mul_reg_reg_const ∷ Opcode.div_reg_reg_reg ∷ Opcode.div_reg_reg_const
    ∷ Opcode.jmp_always ∷ Opcode.jmp_equal ∷ Opcode.jmp_not_equal ∷ Opcode.jmp_lower
    ∷ Opcode.jmp_lower_equal ∷ Opcode.jmp_greater ∷ Opcode.jmp_greater_equal
    ∷ Opcode.load_restore_pc ∷ Opcode.move_pcrel_reg_const16 ∷ []

-- The value of an enumerator.
abbrev pub opcode_value : Opcode → ℕ
opcode_value Opcode.nop = 0
opcode_value Opcode.halt = 1
opcode_value Opcode.move_reg_block_index = 2
opcode_value Opcode.move_reg_reg = 3
opcode_value Opcode.move_reg_cpu_id = 4
opcode_value Opcode.move_reg_timestamp = 5
opcode_value Opcode.move_reg_const16 = 6
opcode_value Opcode.move_r0_const24a = 7
opcode_value Opcode.move_r0_const24b = 8
opcode_value Opcode.move_r0_const24c = 9
opcode_value Opcode.load_reg_const_reg = 10
opcode_value Opcode.store_reg_const_reg = 11
opcode_value Opcode.cmp_reg_reg = 12
opcode_value Opcode.add_reg_reg_reg = 13
opcode_value Opcode.add_reg_reg_const = 14
opcode_value Opcode.rshift_reg_reg_reg = 15
opcode_value Opcode.rshift_reg_reg_const = 16
opcode_value Opcode.l_sshift_reg_reg_reg = 17
opcode_value Opcode.l_sshift_reg_reg_const = 18
opcode_value Opcode.l_ushift_reg_reg_reg = 19
opcode_value Opcode.l_ushift_reg_reg_const = 20
opcode_value Opcode.mul_reg_reg_reg = 21
opcode_value Opcode.mul_reg_reg_const = 22
opcode_value Opcode.div_reg_reg_reg = 23
opcode_value Opcode.div_reg_reg_const = 24
opcode_value Opcode.jmp_always = 25
opcode_value Opcode.jmp_equal = 26
opcode_value Opcode.jmp_not_equal = 27
opcode_value Opcode.jmp_lower = 28
opcode_value Opcode.jmp_lower_equal = 29
opcode_value Opcode.jmp_greater = 30
opcode_value Opcode.jmp_greater_equal = 31
opcode_value Opcode.load_restore_pc = 32
opcode_value Opcode.move_pcrel_reg_const16 = 33
opcode_value (Opcode.other byte) = byte

-- `static_cast<Opcode>`: the low byte.
abbrev pub opcode_of : ℕ → Opcode
opcode_of byte = get_or opcodes byte (Opcode.other byte)

unfoldable pub get_opcode : ℕ → Opcode
get_opcode insn = opcode_of (u8 insn)

pub data ExecuteStageOpcode : Type 0 where
  nop move_reg_value store_addr_value jmp load_restore_pc load_reg cmp : ExecuteStageOpcode
  cond_jmp add_reg_value_value shl_reg_value_value orb_reg_value orc_reg_value : ExecuteStageOpcode
  halt : ExecuteStageOpcode

pub data StorageStageOpcode : Type 0 where
  nop store_value_into_reg store_reg_into_mem jmp load_mem_into_reg cjmp halt : StorageStageOpcode

-- The loop of `COUNT_BITS64` with `left` rounds to go, at bit `i`.
unfoldable pub count_bits_from : ℕ → ℕ → ℕ → ℕ
count_bits_from zero i v = 0
count_bits_from (suc left) i v =
    (if bit_and v (1 <<< i) == 0 then 0 else 1) + count_bits_from left (suc i) v

unfoldable pub count_num_bits64 : ℕ → ℕ
count_num_bits64 v = count_bits_from 64 0 v
