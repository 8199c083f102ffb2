-- ===== src/Memory/VectorMemoryController/Gather.antt =====
-- The answer of CoreLib/VectorMemoryController.cpp to a read, lane by lane.
use ecc_cpu.Base.{
  ◌≡◌, ◌⊎◌, inl, inr, refl, subst, ◌∙◌, ℕ, suc, ◌<◌, ◌≤◌, arith, true, false, ◌==◌, ==-refl, ltb,
  Option, none, some, Bool-cases,
}
use ecc_cpu.Defines.{component_value}
use ecc_cpu.VectorValue.{lane, set_lane}
use ecc_cpu.VectorValue.SetLane.{lane-set_lane_self, lane-set_lane_ne, get-lane}
use ecc_cpu.Packets.{BusPacket, VecBusPacket, read_vec64, write_vec64, read_response_vec64}
use ecc_cpu.Bus.MemoryBus.{MemoryBus, send_read_request_data, send_write_request_data, get_response}
use ecc_cpu.Bus.VecMemoryBus
use ecc_cpu.Bus.VecMemoryBus.{VecMemoryBus}
use ecc_cpu.Memory.VectorMemoryController.{
  ControllerState, top, accepted, read_idle, read_response, read_next, write_idle, write_next, got,
  Stepped, await_response, read_lane, read_loop, write_lane, write_loop, fill_lane, serve,
  step_from, step,
}

-- `memory` gives the eight bytes at an address.
module _ (memory : ℕ → ℕ) where
  -- The first `n` lanes hold what the memory holds at their addresses.
  abbrev pub Gathered : VecBusPacket → ℕ → Type 0
  Gathered pkt n = (j : ℕ) → j < n → lane pkt.payload j ≡ memory (lane pkt.address j)

  -- The response is the memory's to the request of a lane.
  abbrev pub Answers : BusPacket → VecBusPacket → ℕ → Type 0
  Answers mem_pkt pkt i =
      (mem_pkt.payload ≡ memory (lane pkt.address i)) × (mem_pkt.source ≡ pkt.source)

  -- A read of which the first `n` lanes are done.
  abbrev pub IsReading : VecBusPacket → ℕ → Type 0
  IsReading pkt n = (pkt.packet_type ≡ read_response_vec64) × Gathered pkt n

  abbrev pub IsRequest : VecBusPacket → Type 0
  IsRequest pkt = (pkt.packet_type ≡ read_vec64) ⊎ (pkt.packet_type ≡ write_vec64)

  -- A request comes only when the last response has been taken.
  abbrev pub TakesTurns : VecMemoryBus → Type 0
  TakesTurns bus = bus.request_busy ≡ true → bus.response_busy ≡ false

  -- The CPU waits for the response of a read.
  abbrev pub IsQuiet : VecMemoryBus → Type 0
  IsQuiet bus = (bus.request_busy ≡ false) × (bus.response_busy ≡ false)

  abbrev pub AtSwitch : ControllerState → VecMemoryBus → MemoryBus → Type 0
  AtSwitch top cpu mem = (mem.response_busy ≡ false) × TakesTurns cpu
  AtSwitch (accepted pkt) cpu mem =
      (mem.response_busy ≡ false)
      × TakesTurns cpu
      × (((pkt.packet_type ≡ read_vec64) × IsQuiet cpu) ⊎ (pkt.packet_type ≡ write_vec64))
  AtSwitch (read_idle pkt i) cpu mem =
      (mem.response_busy ≡ false) × IsQuiet cpu × (i < 8) × IsReading pkt i
  AtSwitch (read_response pkt i) cpu mem =
      (mem.response_busy ≡ true → Answers mem.response_data pkt i)
      × IsQuiet cpu
      × (i < 8)
      × IsReading pkt i
  AtSwitch (got pkt i mem_pkt) cpu mem =
      (mem.response_busy ≡ false) × IsQuiet cpu × (i < 8) × Answers mem_pkt pkt i × IsReading pkt i
  AtSwitch (read_next pkt i) cpu mem =
      (mem.response_busy ≡ false) × IsQuiet cpu × (i ≤ 8) × IsReading pkt i
  AtSwitch (write_idle pkt i) cpu mem = (mem.response_busy ≡ false) × TakesTurns cpu × (i < 8)
  AtSwitch (write_next pkt i) cpu mem = (mem.response_busy ≡ false) × TakesTurns cpu

  -- Requests are reads or writes, and a response holds what was asked for.
  abbrev pub IsHonest : VecMemoryBus → Type 0
  IsHonest cpu =
      (cpu.request_busy ≡ true → IsRequest cpu.request_queue)
      × (cpu.response_busy ≡ true → IsReading cpu.response_queue 8)

  abbrev pub IsGathering : Stepped → Type 0
  IsGathering s = IsHonest s.to_cpu × AtSwitch s.state s.to_cpu s.to_memory

  -- The step fails no assertion and keeps the invariant.
  abbrev pub Succeeds : Option Stepped → Type 0
  Succeeds none = ⊥
  Succeeds (some s) = IsGathering s

  await_response-Succeeds :
      (pkt : VecBusPacket) (i : ℕ) (s : Stepped)
      → IsHonest s.to_cpu
      → ((s.to_memory).response_busy ≡ true → Answers (s.to_memory).response_data pkt i)
      → IsQuiet s.to_cpu
      → i < 8
      → IsReading pkt i
      → Succeeds (await_response pkt i s)
  unfolding await_response get_response
  await_response-Succeeds pkt i s h a free lt r = elim (Bool-cases s.to_memory.response_busy) [
    | inl busy ↦ simp busy (h, (refl, free, lt, a busy, r))
    | inr idle ↦ simp idle (h, ((λ e. cc), free, lt, r))
  ]

  read_lane-Succeeds :
      (pkt : VecBusPacket) (i : ℕ) (s : Stepped)
      → IsHonest s.to_cpu
      → (s.to_memory).response_busy ≡ false
      → IsQuiet s.to_cpu
      → i < 8
      → IsReading pkt i
      → Succeeds (read_lane pkt i s)
  unfolding read_lane send_read_request_data
  read_lane-Succeeds pkt i s h idle free lt r = elim (Bool-cases s.to_memory.request_busy) [
    | inl busy ↦ simp busy (h, (idle, free, lt, r))
    | inr ready ↦ simp ready (
        await_response-Succeeds pkt i
          (record s {
            to_memory = send_read_request_data s.to_memory (lane pkt.address i) pkt.source;
          })
          h (λ e. cc) free lt r)
  ]

  read_loop-Succeeds :
      (pkt : VecBusPacket) (i : ℕ) (s : Stepped)
      → IsHonest s.to_cpu
      → (s.to_memory).response_busy ≡ false
      → IsQuiet s.to_cpu
      → i ≤ 8
      → IsReading pkt i
      → Succeeds (read_loop pkt i s)
  unfolding read_loop VecMemoryBus.send_response
  read_loop-Succeeds pkt i s h idle free le (typed, r) = elim (Bool-cases (ltb i 8)) [
    | inl more ↦ simp more (read_lane-Succeeds pkt i s h idle free (ground arith) (typed, r))
    | inr done ↦
        simp (done, free.1)
          ((h.0, (λ _. (typed, λ j lt. r j (ground arith)))), (idle, λ e. cc (free.0)))
  ]

  write_lane-Succeeds :
      (pkt : VecBusPacket) (i : ℕ) (s : Stepped)
      → IsHonest s.to_cpu
      → (s.to_memory).response_busy ≡ false
      → TakesTurns s.to_cpu
      → i < 8
      → Succeeds (write_lane pkt i s)
  unfolding write_lane send_write_request_data
  write_lane-Succeeds pkt i s h idle turns lt = elim (Bool-cases s.to_memory.request_busy) [
    | inl busy ↦ simp busy (h, (idle, turns, lt))
    | inr ready ↦ simp (ready, get-lane pkt.payload i lt) (h, (idle, turns))
  ]

  write_loop-Succeeds :
      (pkt : VecBusPacket) (i : ℕ) (s : Stepped)
      → IsHonest s.to_cpu
      → (s.to_memory).response_busy ≡ false
      → TakesTurns s.to_cpu
      → Succeeds (write_loop pkt i s)
  unfolding write_loop
  write_loop-Succeeds pkt i s h idle turns = elim (Bool-cases (ltb i 8)) [
    | inl more ↦ simp more (write_lane-Succeeds pkt i s h idle turns (ground arith))
    | inr done ↦ simp done (h, (idle, turns))
  ]

  Gathered-set_lane :
      (pkt : VecBusPacket) (i x : ℕ)
      → i < 8
      → x ≡ memory (lane pkt.address i)
      → Gathered pkt i
      → (j : ℕ) → j < suc i
      → lane (set_lane pkt.payload i x) j ≡ memory (lane pkt.address j)
  Gathered-set_lane pkt i x lt e r j lt' = elim (Bool-cases (j == i)) [
    | inl same ↦
        subst (λ k. lane (set_lane pkt.payload i x) k ≡ memory (lane pkt.address k))
          (let eq : i ≡ j = ground arith in eq) (lane-set_lane_self pkt.payload i x lt ∙ e)
    | inr other ↦ lane-set_lane_ne pkt.payload i j x lt (λ eq. ground arith) ∙ r j (ground arith)
  ]

  fill_lane-Succeeds :
      (pkt : VecBusPacket) (i : ℕ) (mem_pkt : BusPacket) (s : Stepped)
      → IsHonest s.to_cpu
      → AtSwitch (got pkt i mem_pkt) s.to_cpu s.to_memory
      → Succeeds (fill_lane pkt i mem_pkt s)
  unfolding fill_lane
  fill_lane-Succeeds pkt i mem_pkt s h (idle, free, lt, (e, src), (typed, r)) =
      simp
        (src, ==-refl (pkt.source).core_id, ==-refl (component_value (pkt.source).within_core_id))
        (h, (idle, free, omega arith, (typed, Gathered-set_lane pkt i mem_pkt.payload lt e r)))

  step_from-Succeeds :
      (state : ControllerState) (s : Stepped)
      → IsHonest s.to_cpu
      → AtSwitch state s.to_cpu s.to_memory
      → Succeeds (step_from state s)
  unfolding step_from serve VecMemoryBus.accept_request
  step_from-Succeeds top s h (idle, turns) = elim (Bool-cases s.to_cpu.request_busy) [
    | inl busy ↦ simp busy (
      ((λ e. cc), h.1),
      (
        idle,
        (λ e. cc),
        elim (h.0 busy) [ inl typed ↦ inl (typed, (refl, turns busy)) | inr typed ↦ inr typed ],
      ),
    )
    | inr free ↦ simp free (((λ e. cc), h.1), (idle, λ e. cc))
  ]
  step_from-Succeeds (accepted pkt) s h (idle, turns, inl (typed, quiet)) = simp typed (
      read_loop-Succeeds (record pkt { packet_type = read_response_vec64 }) 0 s h idle quiet
        (omega arith) (refl, λ j lt. absurd (omega arith)))
  step_from-Succeeds (accepted pkt) s h (idle, turns, inr typed) =
      simp typed (write_loop-Succeeds pkt 0 s h idle turns)
  step_from-Succeeds (read_idle pkt i) s h (idle, free, lt, r) =
      read_lane-Succeeds pkt i s h idle free lt r
  step_from-Succeeds (read_response pkt i) s h (a, free, lt, r) =
      await_response-Succeeds pkt i s h a free lt r
  step_from-Succeeds (got pkt i mem_pkt) s h at = fill_lane-Succeeds pkt i mem_pkt s h at
  step_from-Succeeds (read_next pkt i) s h (idle, free, le, r) =
      read_loop-Succeeds pkt i s h idle free le r
  step_from-Succeeds (write_idle pkt i) s h (idle, turns, lt) =
      write_lane-Succeeds pkt i s h idle turns lt
  step_from-Succeeds (write_next pkt i) s h (idle, turns) = write_loop-Succeeds pkt i s h idle turns

  -- If the memory answers each request of a lane, and nothing else, with what it holds at the
  -- address, in the name of the component that asked, and the CPU sends reads and writes only, no
  -- read before the last response is taken and none on top of a read, then no step fails an
  -- assertion, and the response to a read of a vector has in each lane what the memory holds at
  -- the address in that lane.
  pub step-IsGathering : (s : Stepped) → IsGathering s → Succeeds (step s)
  step-IsGathering s (h, at) = step_from-Succeeds s.state s h at
