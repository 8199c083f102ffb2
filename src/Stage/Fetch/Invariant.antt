-- ===== src/Stage/Fetch/Invariant.antt =====
-- What holds between the steps of the fetch stage of CoreLib/FetchStage.cpp, if the memory answers
-- the reads of the stage.
use ecc_cpu.Base.{
  ℕ, ◌+◌, ◌-◌, ◌/◌, ◌%◌, ◌^◌, ◌<◌, bit_and-halves, bit_and-mask, u64, ◌≡◌, arith, true, false, ◌==◌,
  if◌then◌else◌, Option, none, some, ◌⊎◌, inl, inr, Bool-cases,
}
use ecc_cpu.Packets.{BusPacket, bus_read_response, StoreToFetchPacket}
use ecc_cpu.Bus.MemoryBus.{MemoryBus}
use ecc_cpu.Stage.Fetch.{
  get_insn_data, get_address_to_fetch_from_pc, Locals, FetchState, boot, top, await_target,
  have_target, await_response, have_response, got_target, got_response, fetched, emitting, Stepped,
  select_insn,
}

-- The address of the 8-byte word around an address.
pub aligned-down : (pc : ℕ) → pc < 2 ^ 64 → get_address_to_fetch_from_pc pc ≡ pc - pc % 8
unfolding get_address_to_fetch_from_pc
aligned-down pc h = omega (
  arith,
  bit_and-halves pc (2 ^ 64 - 8),
  bit_and-halves (pc / 2) (2 ^ 63 - 4),
  bit_and-halves (pc / 2 / 2) (2 ^ 62 - 2),
  bit_and-mask 61 (pc / 2 / 2 / 2),
)

-- `memory` gives the 8-byte word at an aligned address.
module _ (memory : ℕ → ℕ) where
  -- The instruction at a program counter: the low half of its word, or the high half.
  abbrev pub insn_at : ℕ → ℕ
  insn_at pc = if pc % 8 == 0 then memory pc % 2 ^ 32 else memory (pc - 4) / 2 ^ 32 % 2 ^ 32

  -- The two instructions that are held, if any, are those of the word at their address.
  abbrev pub HoldsPair : Locals → Type 0
  HoldsPair l =
      (l.address_cached ≡ 2 ^ 64 - 1)
      ⊎ ((l.address_cached % 8 ≡ 0)
          × (l.address_cached < 2 ^ 64)
          × (l.insn_data_cached ≡ get_insn_data (memory l.address_cached)))

  abbrev pub IsTarget : StoreToFetchPacket → Type 0
  IsTarget target = (target.newpc % 4 ≡ 0) × (target.newpc < 2 ^ 64)

  -- The response is to the read that the program counter asks for.
  abbrev pub Answers : BusPacket → Locals → Type 0
  Answers response l =
      (response.packet_type ≡ bus_read_response)
      × (response.payload ≡ memory (get_address_to_fetch_from_pc l.fetch_pc))

  -- The pair that is held has the instruction at the program counter.
  abbrev pub IsHeld : Locals → Type 0
  IsHeld l = l.address_cached ≡ get_address_to_fetch_from_pc l.fetch_pc

  -- What holds at each switch.
  abbrev pub AtSwitch : FetchState → Locals → MemoryBus → Type 0
  AtSwitch boot l bus = bus.response_busy ≡ false
  AtSwitch top l bus = bus.response_busy ≡ false
  AtSwitch await_target l bus = bus.response_busy ≡ false
  AtSwitch have_target l bus = bus.response_busy ≡ false
  AtSwitch await_response l bus = bus.response_busy ≡ true → Answers bus.response_data l
  AtSwitch have_response l bus = (bus.response_busy ≡ false) × IsHeld l
  AtSwitch (got_target target) l bus = (bus.response_busy ≡ false) × IsTarget target
  AtSwitch (got_response response) l bus = (bus.response_busy ≡ false) × Answers response l
  AtSwitch (fetched insn) l bus = (bus.response_busy ≡ false) × (insn ≡ insn_at l.fetch_pc)
  AtSwitch (emitting insn) l bus = (bus.response_busy ≡ false) × (insn ≡ insn_at l.fetch_pc)

  -- The program counter is aligned, the pair that is held and what was sent are the memory's, and
  -- the targets of the store stage are aligned.
  pub record IsConsistent (s : Stepped) : Type 0 where
    pub aligned : s.locals.fetch_pc % 4 ≡ 0
    pub small : s.locals.fetch_pc < 2 ^ 64
    pub pair : HoldsPair s.locals
    pub targets : s.store_bus.can_receive ≡ true → IsTarget s.store_bus.packet
    pub sent :
        s.decode_bus.is_busy ≡ true → s.decode_bus.packet.insn ≡ insn_at s.decode_bus.packet.pc

  abbrev pub IsCorrect : Stepped → Type 0
  IsCorrect s = IsConsistent s × AtSwitch s.state s.locals s.memory_bus

  -- The step fails no assertion and keeps the invariant.
  abbrev pub Succeeds : Option Stepped → Type 0
  Succeeds none = ⊥
  Succeeds (some s) = IsCorrect s

  pub select_insn-held :
      (l : Locals)
      → l.fetch_pc % 4 ≡ 0
      → l.fetch_pc < 2 ^ 64
      → HoldsPair l
      → (l.address_cached ≡ l.fetch_pc) ⊎ (u64 (l.address_cached + 4) ≡ l.fetch_pc)
      → select_insn l ≡ some (insn_at l.fetch_pc)
  unfolding select_insn get_insn_data
  select_insn-held l a h (inl empty) (inl e) = ground arith
  select_insn-held l a h (inl empty) (inr e) = ground arith
  select_insn-held l a h (inr (aligned, fits, held)) (inl e) = ground arith
  select_insn-held l a h (inr (aligned, fits, held)) (inr e) = ground arith

  pub held-selected :
      (l : Locals)
      → l.fetch_pc % 4 ≡ 0
      → l.fetch_pc < 2 ^ 64
      → IsHeld l
      → (l.address_cached ≡ l.fetch_pc) ⊎ (u64 (l.address_cached + 4) ≡ l.fetch_pc)
  held-selected l a h e = elim (Bool-cases (l.fetch_pc % 8 == 0)) [
    | inl low ↦ inl (ground (arith, aligned-down l.fetch_pc h))
    | inr high ↦ inr (ground (arith, aligned-down l.fetch_pc h))
  ]
