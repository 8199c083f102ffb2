-- ===== src/Simulator/LoadedCode.antt =====
-- The code file of Assembler/ObjectWriter.cpp, loaded by Simulator/Simulator.cpp, as the fetch stage
-- reads it.
use mathlib.Core.Option.{none-ne-some, some-injective}
use ecc_cpu.Base.{
  ℕ, zero, suc, ◌+◌, ◌-◌, ◌*◌, ◌/◌, ◌%◌, ◌^◌, ◌>>>◌, ◌≤◌, ◌<◌, u8, u32, true, false, ◌==◌, ◌≡◌, ◌∙◌,
  ap, sym, refl, subst, inl, inr, some, Option-cases, ◌>>=◌, List, [], ◌∷◌, ◌++◌, length, get_or,
  get_elem?, arith, length-append, get_elem?-lt, Bool-cases,
}
use ecc_cpu.Defines.{code_segment_start, end_memory_address}
use ecc_cpu.Memory.Dram.{Storage, read_value}
use ecc_cpu.Memory.Dram.Bytes.{IsBytes, read_value-number}
use ecc_cpu.Stage.Fetch.Invariant.{insn_at}
use ecc_cpu.Assembler.Insns.{get_encoded_instruction, Insn}
use ecc_cpu.Assembler.Linker.{Instruction}
use ecc_cpu.Assembler.ObjectWriter.{word_bytes, code_file}
use ecc_cpu.Assembler.Text.{Text, codes, ends_with}
use ecc_cpu.Simulator.{load_data, load_code, read_code_memory_dump}
use ecc_cpu.Simulator.Loading.{
  AllBytes, IsWhole, stale_bytes, load_data-inside, load_data-IsBytes, load_code-load_data,
}

-- The shape of a code file, and the bytes of the word at each place in it.
code_file-cons :
    (i : Instruction) (insns : List Instruction) (f : List ℕ)
    → code_file (i ∷ insns) ≡ some f
    → (w : ℕ) × (insn' : Insn) × (rest : List ℕ) × (get_encoded_instruction i.insn
        ≡ some (w, insn'))
      × (code_file insns ≡ some rest)
      × (f ≡ word_bytes w ++ rest)
unfolding code_file
code_file-cons i insns f e = elim (Option-cases (get_encoded_instruction i.insn)) [
  | inl missing ↦ absurd (none-ne-some _ (rw missing at e))
  | inr ((w, insn'), found) ↦
      let e' : (code_file insns >>= λ rest. some (word_bytes w ++ rest)) ≡ some f = rw found at e in
      elim (Option-cases (code_file insns)) [
        | inl missing ↦ absurd (none-ne-some _ (rw missing at e'))
        | inr (rest, found') ↦
            (w, insn', rest, found, found', sym (some-injective _ _ (rw found' at e')))
      ]
]

code_file-IsWhole : (insns : List Instruction) (f : List ℕ) → code_file insns ≡ some f → IsWhole f
unfolding code_file
code_file-IsWhole [] f e = subst IsWhole (some-injective _ _ e) tt
code_file-IsWhole (i ∷ insns) f e =
    let (w, insn', rest, enc, more, split) = code_file-cons i insns f e in
    subst IsWhole (sym split) (code_file-IsWhole insns rest more)

code_file-AllBytes : (insns : List Instruction) (f : List ℕ) → code_file insns ≡ some f → AllBytes f
unfolding code_file
code_file-AllBytes [] f e = subst AllBytes (some-injective _ _ e) tt
code_file-AllBytes (i ∷ insns) f e =
    let (w, insn', rest, enc, more, split) = code_file-cons i insns f e in
    subst AllBytes (sym split)
      (omega arith, (omega arith, (omega arith, (omega arith, code_file-AllBytes insns rest more))))

length-code_file :
    (insns : List Instruction) (f : List ℕ) → code_file insns ≡ some f → length f ≡ 4 * length insns
unfolding code_file
length-code_file [] f e = ap length (sym (some-injective _ _ e))
length-code_file (i ∷ insns) f e =
    let (w, insn', rest, enc, more, split) = code_file-cons i insns f e in
    ap length split ∙ omega (arith, length-code_file insns rest more)

get_or-word_bytes :
    (w : ℕ) (rest : List ℕ) (k : ℕ)
    → k < 4
    → get_or (word_bytes w ++ rest) (4 * 0 + k) 0 ≡ get_or (word_bytes w) k 0
get_or-word_bytes w rest zero h = refl
get_or-word_bytes w rest (suc zero) h = refl
get_or-word_bytes w rest (suc (suc zero)) h = refl
get_or-word_bytes w rest (suc (suc (suc zero))) h = refl
get_or-word_bytes w rest (suc (suc (suc (suc k)))) h = absurd (omega arith)

-- The bytes of the word of the instruction at `i`, with anything behind the file.
code_file-bytes :
    (insns : List Instruction) (f tail : List ℕ) (i : ℕ) (inst : Instruction) (w : ℕ) (insn' : Insn)
    → code_file insns ≡ some f
    → get_elem? insns i ≡ some inst
    → get_encoded_instruction inst.insn ≡ some (w, insn')
    → (k : ℕ) → k < 4
    → get_or (f ++ tail) (4 * i + k) 0 ≡ get_or (word_bytes w) k 0
code_file-bytes [] f tail i inst w insn' e at_i enc k h = cc
code_file-bytes (x ∷ insns) f tail zero inst w insn' e at_i enc k h =
    let (w', insn'', rest, enc', more, split) = code_file-cons x insns f e in
    let is_inst : x ≡ inst = some-injective _ _ at_i in
    let same : w' ≡ w =
      ap (λ (r : ℕ × Insn). r.0)
        (some-injective _ _
          (sym enc' ∙ ap (λ (j : Instruction). get_encoded_instruction j.insn) is_inst ∙ enc)) in
    rw split
      (get_or-word_bytes w' (rest ++ tail) k h ∙ ap (λ (v : ℕ). get_or (word_bytes v) k 0) same)
code_file-bytes (x ∷ insns) f tail (suc i) inst w insn' e at_i enc k h =
    let (w', insn'', rest, enc', more, split) = code_file-cons x insns f e in
    let place : 4 * suc i + k ≡ suc (suc (suc (suc (4 * i + k)))) = omega arith in
    rw (split, place) (code_file-bytes insns rest tail i inst w insn' more at_i enc k h)

AllBytes-stale :
    (f : List ℕ) (stale : ℕ → ℕ)
    → AllBytes f
    → ((k : ℕ) → stale k < 256)
    → AllBytes (f ++ stale_bytes stale)
AllBytes-stale [] stale h s = (s 0, (s 1, (s 2, (s 3, tt))))
AllBytes-stale (b ∷ f) stale h s = (h.0, AllBytes-stale f stale h.1 s)

-- The instruction that the fetch stage finds in bytes that follow one another from its address on.
insn_at-bytes :
    (storage : Storage) (i w : ℕ)
    → IsBytes storage
    → 4 * i + 8 ≤ 2 ^ 32
    → ((k : ℕ) → k < 4 → storage (4 * i + k) ≡ get_or (word_bytes w) k 0)
    → insn_at (read_value storage) (4 * i) ≡ u32 w
insn_at-bytes storage i w bytes fits same = elim (Bool-cases (4 * i % 8 == 0)) [
  | inl low ↦ rw low (
      ap (λ (v : ℕ). v % 2 ^ 32) (read_value-number storage (4 * i) fits (λ k. bytes (4 * i + k)))
      ∙ omega
          (arith, at 0 (omega arith), at 1 (omega arith), at 2 (omega arith), at 3 (omega arith)))
  | inr high ↦ rw high (
      ap (λ (v : ℕ). v / 2 ^ 32 % 2 ^ 32)
        (read_value-number storage (4 * i - 4) (omega arith) (λ k. bytes (4 * i - 4 + k)))
      ∙ omega (
        arith,
        bytes (4 * i - 4 + 0),
        bytes (4 * i - 4 + 1),
        bytes (4 * i - 4 + 2),
        bytes (4 * i - 4 + 3),
        later high 0 (omega arith),
        later high 1 (omega arith),
        later high 2 (omega arith),
        later high 3 (omega arith),
      ))
]
  where
    at : (k : ℕ) → k < 4 → storage (4 * i + k) ≡ u8 (w >>> (8 * k))
    at zero h = same 0 h ∙ omega arith
    at (suc zero) h = same 1 h
    at (suc (suc zero)) h = same 2 h
    at (suc (suc (suc zero))) h = same 3 h
    at (suc (suc (suc (suc k)))) h = absurd (omega arith)

    later :
        (4 * i % 8 == 0) ≡ false
        → (k : ℕ) → k < 4
        → storage (4 * i - 4 + (4 + k)) ≡ u8 (w >>> (8 * k))
    later high k h =
        ap storage (let e : 4 * i - 4 + (4 + k) ≡ 4 * i + k = ground arith in e) ∙ at k h

-- If the assembler writes a code file of instructions that fit below the end of the memory with one
-- word to spare, and the DRAM and what is stale hold bytes, then the simulator loads it, and the
-- fetch stage finds at four times the place of an instruction the word that encodes it.
pub loaded_code :
    (insns : List Instruction) (f : List ℕ) (stale : ℕ → ℕ) (name : Text) (before : Storage)
    → code_file insns ≡ some f
    → ends_with name (codes ".bin") ≡ true
    → 4 * length insns + 4 ≤ end_memory_address
    → IsBytes before
    → ((k : ℕ) → stale k < 256)
    → (after : Storage) × (read_code_memory_dump stale name (some f) before ≡ some after)
      × ((i : ℕ) (inst : Instruction) (w : ℕ) (insn' : Insn)
          → get_elem? insns i ≡ some inst
          → get_encoded_instruction inst.insn ≡ some (w, insn')
          → insn_at (read_value after) (4 * i) ≡ u32 w)
unfolding read_code_memory_dump
loaded_code insns f stale name before e bin fits bytes stale_bytes' =
    (load_code stale code_segment_start f before, rw bin, found)
  where
    loaded :
        load_code stale code_segment_start f before ≡ load_data 0 (f ++ stale_bytes stale) before
    loaded = load_code-load_data stale 0 f before (code_file-IsWhole insns f e)

    size : length (f ++ stale_bytes stale) ≡ 4 * length insns + 4
    size = omega (arith, length-append {0} f (stale_bytes stale), length-code_file insns f e)

    all_bytes : IsBytes (load_data 0 (f ++ stale_bytes stale) before)
    all_bytes =
        load_data-IsBytes (f ++ stale_bytes stale) 0 before
          (AllBytes-stale f stale (code_file-AllBytes insns f e) stale_bytes') bytes

    found :
        (i : ℕ) (inst : Instruction) (w : ℕ) (insn' : Insn)
        → get_elem? insns i ≡ some inst
        → get_encoded_instruction inst.insn ≡ some (w, insn')
        → insn_at (read_value (load_code stale code_segment_start f before)) (4 * i) ≡ u32 w
    found i inst w insn' at_i enc =
        let below : i < length insns = get_elem?-lt insns i at_i in
        rw loaded (
          insn_at-bytes (load_data 0 (f ++ stale_bytes stale) before) i w all_bytes (omega arith)
            (λ k h.
              ap (load_data 0 (f ++ stale_bytes stale) before)
                (let e : 4 * i + k ≡ 0 + (4 * i + k) = omega arith in e)
              ∙ load_data-inside (f ++ stale_bytes stale) 0 (4 * i + k) before (omega (arith, size))
                  (omega (arith, size))
              ∙ code_file-bytes insns f (stale_bytes stale) i inst w insn' e at_i enc k h))
