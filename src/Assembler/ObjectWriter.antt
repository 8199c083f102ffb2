-- ===== src/Assembler/ObjectWriter.antt =====
-- Assembler/ObjectWriter.cpp, and the `write` methods of Assembler/include/DataObject.h: the contents
-- of the two files.
use ecc_cpu.Base.{
  ℕ, zero, suc, ◌+◌, ◌-◌, ◌*◌, ◌^◌, ◌>>>◌, u8, u64, leb, Option, some, assert, ◌>>=◌, ◌>>◌, List,
  [], ◌∷◌, ◌++◌, set,
}
use ecc_cpu.Base.Int.{to_u64}
use ecc_cpu.Defines.{data_segment_start}
use ecc_cpu.Assembler.Insns.{get_encoded_instruction}
use ecc_cpu.Assembler.Linker.{Instruction, DataField, DataObject}

-- `std::vector::resize`, which cuts or fills up with 0.
abbrev pub resize : List ℕ → ℕ → List ℕ
resize values zero = []
resize [] (suc n) = 0 ∷ resize [] n
resize (v ∷ values) (suc n) = v ∷ resize values n

-- The loop of `write_value` with `left` bytes to go, at byte `i` of the pattern `t`.
unfoldable pub write_from : ℕ → ℕ → ℕ → ℕ → List ℕ → List ℕ
write_from zero i address t values = values
write_from (suc left) i address t values =
    let write_ix = u64 (i + address + (2 ^ 64 - data_segment_start)) in
    write_from left (suc i) address t
      (set (resize values (write_ix + 1)) write_ix (u8 (t >>> (i * 8))))

-- `DataField::write`: the constructor always makes an `int64_t`.
unfoldable pub write_field : DataField → List ℕ → Option (List ℕ)
write_field f values =
    assert (leb data_segment_start f.address)
    >> some (write_from 8 0 f.address (to_u64 f.value) values)

unfoldable pub write_fields : List DataField → List ℕ → Option (List ℕ)
write_fields [] values = some values
write_fields (f ∷ fields) values = write_field f values >>= λ values'. write_fields fields values'

unfoldable pub write_objects : List DataObject → List ℕ → Option (List ℕ)
write_objects [] values = some values
write_objects (obj ∷ objects) values =
    write_fields obj.fields values >>= λ values'. write_objects objects values'

-- The data file.
abbrev pub data_file : List DataObject → Option (List ℕ)
data_file objects = write_objects objects []

-- `sizeof(encoded)` bytes, the lowest first.
abbrev pub word_bytes : ℕ → List ℕ
word_bytes w = u8 w ∷ u8 (w >>> 8) ∷ u8 (w >>> 16) ∷ u8 (w >>> 24) ∷ []

-- The code file.
unfoldable pub code_file : List Instruction → Option (List ℕ)
code_file [] = some []
code_file (i ∷ insns) = do
  (encoded, insn') ← get_encoded_instruction i.insn
  rest ← code_file insns
  some (word_bytes encoded ++ rest)
