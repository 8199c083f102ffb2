-- ===== src/Assembler/Linker.antt =====
-- Assembler/Linker.cpp, and the `link` methods of Assembler/Assembler.cpp: addresses of
-- instructions and data, and their uses. Text is the list of its bytes.
pub mod Labels
pub mod LinkedJump
use ecc_cpu.Base.{
  ℕ, ◌+◌, u64, Bool, true, false, ◌&&◌, ◌==◌, if◌then◌else◌, Option, none, some, List, [], ◌∷◌, map,
}
use ecc_cpu.Base.Int.{ℤ, distance}
use ecc_cpu.Assembler.Insns.{Insn, jump, load_addr, move_reg_symbol}

-- The base class `Instruction` with the class that it is of.
pub record Instruction : Type 0 where
  pub label : List ℕ
  pub address : ℕ
  pub insn : Insn

-- The value of a field is 64 bits wide.
pub record DataField : Type 0 where
  pub value : ℤ
  pub size : ℕ
  pub address : ℕ

pub record DataObject : Type 0 where
  pub name : List ℕ
  pub fields : List DataField
  pub address : ℕ

unfoldable pub same_text : List ℕ → List ℕ → Bool
same_text [] [] = true
same_text [] (y ∷ ys) = false
same_text (x ∷ xs) [] = false
same_text (x ∷ xs) (y ∷ ys) = (x == y) && same_text xs ys

-- `code_dict` and `data_dict`, the entry written last first: it hides those before it as the
-- assignment to a key replaces its value. Only the addresses of what they point to are read.
abbrev pub Dict : Type 0
Dict = List (List ℕ × ℕ)

-- `find_insn` and `find_data`
unfoldable pub find : Dict → List ℕ → Option ℕ
find [] name = none
find ((key, address) ∷ dict) name = if same_text key name then some address else find dict name

-- The first loop of `link_insns`.
unfoldable pub place_insns : ℕ → List Instruction → List Instruction
place_insns address [] = []
place_insns address (insn ∷ insns) =
    record insn { address = address } ∷ place_insns (u64 (address + 4)) insns

unfoldable pub code_dict : Dict → List Instruction → Dict
code_dict dict [] = dict
code_dict dict (insn ∷ insns) =
    code_dict (if same_text insn.label [] then dict else (insn.label, insn.address) ∷ dict) insns

-- The loop of `link_objs` over the fields of an object, and the address behind them.
unfoldable pub place_fields : ℕ → List DataField → List DataField × ℕ
place_fields address [] = ([], address)
place_fields address (f ∷ fs) =
    let (fs', end) = place_fields (u64 (address + f.size)) fs in
    (record f { address = u64 (f.address + address) } ∷ fs', end)

unfoldable pub place_objs : ℕ → List DataObject → List DataObject
place_objs address [] = []
place_objs address (obj ∷ objects) =
    let (fields', end) = place_fields address obj.fields in
    record obj { address = address; fields = fields' } ∷ place_objs end objects

unfoldable pub data_dict : Dict → List DataObject → Dict
data_dict dict [] = dict
data_dict dict (obj ∷ objects) = data_dict ((obj.name, obj.address) ∷ dict) objects

-- The `link` methods: a name that is not found is reported, and the instruction stays as it is.
unfoldable pub link_insn : Dict → Dict → ℕ → Insn → Insn
link_insn code globals own (jump label dest mnemonic) = by (find code label)
  where
    by : Option ℕ → Insn
    by none = jump label dest mnemonic
    by (some address) = jump label (distance address own) mnemonic
link_insn code globals own (load_addr type name address) = by (find globals name)
  where
    by : Option ℕ → Insn
    by none = load_addr type name address
    by (some address') = load_addr type name address'
link_insn code globals own (move_reg_symbol dest symbol src) = by (find code symbol)
  where
    by : Option ℕ → Insn
    by none = move_reg_symbol dest symbol src
    by (some address) = move_reg_symbol dest symbol (distance address own)
link_insn code globals own insn = insn

unfoldable pub link_insns : Dict → ℕ → List Instruction → List Instruction
link_insns globals address insns =
    let placed = place_insns address insns in
    map {A = Instruction}
      (λ i. record i { insn = link_insn (code_dict [] placed) globals i.address i.insn }) placed

-- `Linker::link`: the data objects first, then the instructions.
unfoldable pub link :
    List Instruction → List DataObject → ℕ → ℕ → List Instruction × List DataObject
link insns objects data_address code_address =
    let objects' = place_objs data_address objects in
    (link_insns (data_dict [] objects') code_address insns, objects')
