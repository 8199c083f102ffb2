-- ===== src/Memory/Dram/Bytes.antt =====
-- The bytes that CoreLib/DRAM.cpp reads and writes.
use ecc_cpu.Base.{
  sym, Bool-cases, ◌==◌, ==_iff, ℕ, zero, suc, ◌+◌, ◌*◌, ◌^◌, ◌<◌, ◌≤◌, ◌>>>◌, u8, u32, ◌≡◌, refl,
  ap, ◌∙◌, arith, bit_or-add, update, update_self, update_ne, ◌⊎◌, inl, inr,
}
use ecc_cpu.Memory.Dram.{Storage, pack8_bytes, read_value, write_from, write_value}

-- A little-endian number of eight bytes.
abbrev pub number : (ℕ → ℕ) → ℕ
number byte =
    byte 0
    + byte 1 * 2 ^ 8
    + byte 2 * 2 ^ 16
    + byte 3 * 2 ^ 24
    + byte 4 * 2 ^ 32
    + byte 5 * 2 ^ 40
    + byte 6 * 2 ^ 48
    + byte 7 * 2 ^ 56

pack8_bytes-number :
    (a b c d e f g h : ℕ)
    → a < 256
    → b < 256
    → c < 256
    → d < 256
    → e < 256
    → f < 256
    → g < 256
    → pack8_bytes a b c d e f g h
      ≡ a + b * 2 ^ 8 + c * 2 ^ 16 + d * 2 ^ 24 + e * 2 ^ 32 + f * 2 ^ 40 + g * 2 ^ 48 + h * 2 ^ 56
pack8_bytes-number a b c d e f g h ha hb hc hd he hf hg =
    rw
      (
        bit_or-add 8 (a * 1) b (omega arith),
        bit_or-add 16 (a * 1 + b * 2 ^ 8) c (omega arith),
        bit_or-add 24 (a * 1 + b * 2 ^ 8 + c * 2 ^ 16) d (omega arith),
        bit_or-add 32 (a * 1 + b * 2 ^ 8 + c * 2 ^ 16 + d * 2 ^ 24) e (omega arith),
        bit_or-add 40 (a * 1 + b * 2 ^ 8 + c * 2 ^ 16 + d * 2 ^ 24 + e * 2 ^ 32) f (omega arith),
        bit_or-add 48 (a * 1 + b * 2 ^ 8 + c * 2 ^ 16 + d * 2 ^ 24 + e * 2 ^ 32 + f * 2 ^ 40) g
            (omega arith),
        bit_or-add 56
            (a * 1 + b * 2 ^ 8 + c * 2 ^ 16 + d * 2 ^ 24 + e * 2 ^ 32 + f * 2 ^ 40 + g * 2 ^ 48) h
            (omega arith),
      )
      (omega arith)

pub write_from-outside :
    (left i address payload a : ℕ) (storage : Storage)
    → address + i + left ≤ 2 ^ 32
    → (a < address + i) ⊎ (address + i + left ≤ a)
    → write_from left i address payload storage a ≡ storage a
unfolding write_from
write_from-outside zero i address payload a storage fits out = refl
write_from-outside (suc left) i address payload a storage fits out =
    write_from-outside left (suc i) address payload a
      (update storage (u32 (address + i)) (u8 (payload >>> (i * 8)))) (omega arith) (ground arith)
    ∙ update_ne storage (u32 (address + i)) a (u8 (payload >>> (i * 8))) (ground arith)

write_from-inside :
    (left i address payload j : ℕ) (storage : Storage)
    → address + i + left ≤ 2 ^ 32
    → i ≤ j
    → j < i + left
    → write_from left i address payload storage (address + j) ≡ u8 (payload >>> (j * 8))
unfolding write_from
write_from-inside zero i address payload j storage fits lo hi = absurd (omega arith)
write_from-inside (suc left) i address payload j storage fits lo hi =
    let byte : ℕ = u8 (payload >>> (i * 8)) in
    let written : Storage = update storage (u32 (address + i)) byte in
    elim (Bool-cases (i == j)) [
      | inl same ↦
          write_from-outside left (suc i) address payload (address + j) written (omega arith)
            (inl (ground arith))
          ∙ ap written (let e : address + j ≡ u32 (address + i) = ground arith in e)
          ∙ update_self storage (u32 (address + i)) byte
          ∙ ap (λ (k : ℕ). u8 (payload >>> (k * 8))) ((==_iff i j).0 same)
      | inr other ↦
          write_from-inside left (suc i) address payload j written (omega arith) (ground arith)
            (omega arith)
    ]

module _ (storage : Storage) (address : ℕ) (fits : address + 8 ≤ 2 ^ 32) where
  unwrapped : (k : ℕ) → k < 8 → storage (u32 (address + k)) ≡ storage (address + k)
  unwrapped k h = ap storage (omega arith)

  -- A read gives the number that the eight bytes from its address on make.
  pub read_value-number :
      ((k : ℕ) → storage (address + k) < 256)
      → read_value storage address ≡ number (λ k. storage (address + k))
  unfolding read_value
  read_value-number bytes =
      rw
        (
          unwrapped 0 (omega arith),
          unwrapped 1 (omega arith),
          unwrapped 2 (omega arith),
          unwrapped 3 (omega arith),
          unwrapped 4 (omega arith),
          unwrapped 5 (omega arith),
          unwrapped 6 (omega arith),
          unwrapped 7 (omega arith),
        )
        (pack8_bytes-number (storage (address + 0)) (storage (address + 1)) (storage (address + 2))
          (storage (address + 3)) (storage (address + 4)) (storage (address + 5))
          (storage (address + 6)) (storage (address + 7)) (bytes 0) (bytes 1) (bytes 2) (bytes 3)
          (bytes 4) (bytes 5) (bytes 6))

abbrev pub IsBytes : Storage → Type 0
IsBytes storage = (a : ℕ) → storage a < 256

write_from-IsBytes :
    (left i address payload : ℕ) (storage : Storage)
    → IsBytes storage
    → IsBytes (write_from left i address payload storage)
unfolding write_from
write_from-IsBytes zero i address payload storage h = h
write_from-IsBytes (suc left) i address payload storage h =
    write_from-IsBytes left (suc i) address payload
      (update storage (u32 (address + i)) (u8 (payload >>> (i * 8)))) (λ a. ground (arith, h a))

pub number_ext : (f g : ℕ → ℕ) → ((k : ℕ) → k < 8 → f k ≡ g k) → number f ≡ number g
number_ext f g e = omega (
  arith,
  e 0 (omega arith),
  e 1 (omega arith),
  e 2 (omega arith),
  e 3 (omega arith),
  e 4 (omega arith),
  e 5 (omega arith),
  e 6 (omega arith),
  e 7 (omega arith),
)

-- If every cell holds a byte, the two addresses are followed by eight cells below 2 ^ 32 and the
-- value is a 64-bit pattern: after a write, a read of the same address gives the value written, a
-- read of eight bytes that do not meet those written gives what it gave before, and every cell
-- still holds a byte.
pub read-write :
    (storage : Storage) (address a payload : ℕ)
    → IsBytes storage
    → address + 8 ≤ 2 ^ 32
    → a + 8 ≤ 2 ^ 32
    → payload < 2 ^ 64
    → let after = write_value storage address payload in
      (read_value after address ≡ payload)
      × ((a + 8 ≤ address) ⊎ (address + 8 ≤ a) → read_value after a ≡ read_value storage a)
      × IsBytes after
read-write storage address a payload bytes fits fits' small =
    let after : Storage = write_value storage address payload in
    let bytes' : IsBytes after = write_from-IsBytes 8 0 address payload storage bytes in
    (
      read_value-number after address fits (λ k. bytes' (address + k))
          ∙ number_ext (λ k. after (address + k)) (λ k. u8 (payload >>> (k * 8)))
              (λ k h.
                write_from-inside 8 0 address payload k storage (omega arith) (omega arith)
                  (omega arith))
          ∙ omega arith,
      λ apart.
          read_value-number after a fits' (λ k. bytes' (a + k))
          ∙ number_ext (λ k. after (a + k)) (λ k. storage (a + k))
              (λ k h.
                write_from-outside 8 0 address payload (a + k) storage (omega arith) (ground arith))
          ∙ sym (read_value-number storage a fits' (λ k. bytes (a + k))),
      bytes',
    )
