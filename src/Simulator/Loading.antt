-- ===== src/Simulator/Loading.antt =====
-- The bytes of the DRAM behind the loops of Simulator/Simulator.cpp.
use native.Mathlib.Numerals.{towards_suc}
use ecc_cpu.Base.{
  ℕ, zero, suc, ◌+◌, ◌^◌, ◌≤◌, ◌<◌, u32, ◌≡◌, ◌∙◌, sym, ap, refl, ◌⊎◌, inl, List, [], ◌∷◌, ◌++◌,
  length, get_or, update, update_self, update_ne, arith,
}
use ecc_cpu.Memory.Dram.{Storage, initial_write_to_global_memory}
use ecc_cpu.Memory.Dram.Bytes.{IsBytes}
use ecc_cpu.Simulator.{write_insn, load_code, load_data}

pub load_data-outside :
    (buffer : List ℕ) (address a : ℕ) (storage : Storage)
    → address + length buffer ≤ 2 ^ 32
    → (a < address) ⊎ (address + length buffer ≤ a)
    → load_data address buffer storage a ≡ storage a
unfolding load_data initial_write_to_global_memory
load_data-outside [] address a storage fits out = refl
load_data-outside (b ∷ buffer) address a storage fits out =
    load_data-outside buffer (suc address) a (update storage (u32 address) b) (omega arith)
      (ground arith)
    ∙ update_ne storage (u32 address) a b (ground arith)

pub load_data-inside :
    (buffer : List ℕ) (address j : ℕ) (storage : Storage)
    → address + length buffer ≤ 2 ^ 32
    → j < length buffer
    → load_data address buffer storage (address + j) ≡ get_or buffer j 0
unfolding load_data initial_write_to_global_memory
load_data-inside [] address j storage fits h = absurd (omega arith)
load_data-inside (b ∷ buffer) address zero storage fits h =
    load_data-outside buffer (suc address) (address + 0) (update storage (u32 address) b)
      (omega arith) (inl (omega arith))
    ∙ ap (update storage (u32 address) b) (let e : address + 0 ≡ u32 address = omega arith in e)
    ∙ update_self storage (u32 address) b
load_data-inside (b ∷ buffer) address (suc j) storage fits h =
    ap (load_data (suc address) buffer (update storage (u32 address) b))
      (let e : address + suc j ≡ suc address + j = omega arith in e)
    ∙ load_data-inside buffer (suc address) j (update storage (u32 address) b) (omega arith)
        (omega arith)

abbrev pub AllBytes : List ℕ → Type 0
AllBytes [] = Unit
AllBytes (b ∷ bs) = (b < 256) × AllBytes bs

pub load_data-IsBytes :
    (buffer : List ℕ) (address : ℕ) (storage : Storage)
    → AllBytes buffer
    → IsBytes storage
    → IsBytes (load_data address buffer storage)
unfolding load_data initial_write_to_global_memory
load_data-IsBytes [] address storage h k = k
load_data-IsBytes (b ∷ buffer) address storage h k =
    load_data-IsBytes buffer (suc address) (update storage (u32 address) b) h.1
      (λ a. ground (arith, k a))

abbrev pub stale_bytes : (ℕ → ℕ) → List ℕ
stale_bytes stale = stale 0 ∷ stale 1 ∷ stale 2 ∷ stale 3 ∷ []

abbrev pub IsWhole : List ℕ → Type 0
IsWhole [] = Unit
IsWhole (b0 ∷ b1 ∷ b2 ∷ b3 ∷ f) = IsWhole f
IsWhole _ = ⊥

load_data-insn :
    (address b0 b1 b2 b3 : ℕ) (f : List ℕ) (storage : Storage)
    → load_data address (b0 ∷ b1 ∷ b2 ∷ b3 ∷ f) storage
      ≡ load_data (address + 4) f (write_insn address b0 b1 b2 b3 storage)
unfolding load_data
load_data-insn address b0 b1 b2 b3 f storage = simp towards_suc refl

-- A file of whole words is loaded with four stale bytes behind it.
pub load_code-load_data :
    (stale : ℕ → ℕ) (address : ℕ) (f : List ℕ) (storage : Storage)
    → IsWhole f
    → load_code stale address f storage ≡ load_data address (f ++ stale_bytes stale) storage
unfolding load_code load_data
load_code-load_data stale address [] storage h = simp towards_suc refl
load_code-load_data stale address (b0 ∷ b1 ∷ b2 ∷ b3 ∷ f) storage h =
    load_code-load_data stale (address + 4) f (write_insn address b0 b1 b2 b3 storage) h
    ∙ sym (load_data-insn address b0 b1 b2 b3 (f ++ stale_bytes stale) storage)
load_code-load_data stale address (b0 ∷ b1 ∷ b2 ∷ []) storage h = absurd h
load_code-load_data stale address (b0 ∷ b1 ∷ []) storage h = absurd h
load_code-load_data stale address (b0 ∷ []) storage h = absurd h
