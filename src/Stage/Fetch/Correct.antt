-- ===== src/Stage/Fetch/Correct.antt =====
-- What the fetch stage of CoreLib/FetchStage.cpp sends to the decode stage, step by step.
use ecc_cpu.Base.{
  ℕ, ◌+◌, u64, ◌≡◌, refl, arith, true, false, ◌==◌, ◌⊎◌, inl, inr, Bool-cases, ==_iff,
}
use ecc_cpu.Defines.{get_opcode}
use ecc_cpu.GlobalStats.{GlobalStats, inc_fetched_insn_wait}
use ecc_cpu.Bus.FetchToDecodeBus
use ecc_cpu.Bus.FetchToDecodeBus.{FetchToDecodeBus}
use ecc_cpu.Bus.StoreToFetchBus
use ecc_cpu.Bus.StoreToFetchBus.{StoreToFetchBus}
use ecc_cpu.Bus.MemoryBus.{MemoryBus, get_response, send_read_request_data}
use ecc_cpu.Stage.Fetch.{
  get_address_to_fetch_from_pc, FetchState, boot, top, await_target, have_target, await_response,
  have_response, got_target, got_response, fetched, emitting, Stepped, fetch_id,
  changes_control_flow, select, await_target_loop, await_response_loop, emit, look_up, step_from,
  step,
}
use ecc_cpu.Stage.Fetch.Invariant.{
  aligned-down, insn_at, Answers, AtSwitch, IsConsistent, IsCorrect, Succeeds, select_insn-held,
  held-selected,
}

-- `memory` gives the 8-byte word at an aligned address.
module _ (memory : ℕ → ℕ) where
  -- What the consistency does not read.
  moved :
      (s : Stepped) (state : FetchState) (bus : MemoryBus) (stats : GlobalStats)
      → IsConsistent memory s
      → IsConsistent memory (record s { state = state; memory_bus = bus; stats = stats })
  moved s state bus stats c = record {
    aligned = c.aligned;
    small = c.small;
    pair = c.pair;
    targets = c.targets;
    sent = c.sent;
  }

  select-Succeeds :
      (s : Stepped)
      → IsConsistent memory s
      → (s.memory_bus).response_busy ≡ false
      → ((s.locals).address_cached ≡ (s.locals).fetch_pc)
        ⊎ (u64 ((s.locals).address_cached + 4) ≡ (s.locals).fetch_pc)
      → Succeeds memory (select s)
  unfolding select
  select-Succeeds s c free e =
      simp (select_insn-held memory s.locals c.aligned c.small c.pair e) (
        moved s (fetched (insn_at memory (s.locals).fetch_pc)) s.memory_bus s.stats c,
        (free, refl),
      )

  await_target_loop-Succeeds :
      (s : Stepped)
      → IsConsistent memory s
      → (s.memory_bus).response_busy ≡ false
      → Succeeds memory (await_target_loop s)
  unfolding await_target_loop StoreToFetchBus.recv
  await_target_loop-Succeeds s c free = elim (Bool-cases s.store_bus.can_receive) [
    | inl ready ↦ simp ready (
      record {
        aligned = c.aligned;
        small = c.small;
        pair = c.pair;
        targets = λ e. cc;
        sent = c.sent;
      },
      (free, c.targets ready),
    )
    | inr empty ↦ simp empty (moved s await_target s.memory_bus s.stats c, free)
  ]

  await_response_loop-Succeeds :
      (s : Stepped)
      → IsConsistent memory s
      → ((s.memory_bus).response_busy ≡ true → Answers memory (s.memory_bus).response_data s.locals)
      → Succeeds memory (await_response_loop s)
  unfolding await_response_loop get_response
  await_response_loop-Succeeds s c answers = elim (Bool-cases s.memory_bus.response_busy) [
    | inl busy ↦ simp busy (
      moved s (got_response (s.memory_bus).response_data)
          (record s.memory_bus { response_busy = false }) s.stats c,
      (refl, answers busy),
    )
    | inr free ↦
        simp free (moved s await_response s.memory_bus (inc_fetched_insn_wait s.stats) c, λ e. cc)
  ]

  emit-Succeeds :
      (insn : ℕ) (s : Stepped)
      → IsConsistent memory s
      → (s.memory_bus).response_busy ≡ false
      → insn ≡ insn_at memory (s.locals).fetch_pc
      → Succeeds memory (emit insn s)
  unfolding emit FetchToDecodeBus.send
  emit-Succeeds insn s c free e = elim (Bool-cases s.decode_bus.is_busy) [
    | inl busy ↦ simp busy (moved s (emitting insn) s.memory_bus s.stats c, (free, e))
    | inr ready ↦ simp ready (
      record {
        aligned = omega (arith, c.aligned);
        small = omega arith;
        pair = c.pair;
        targets = c.targets;
        sent = λ _. e;
      },
      free,
    )
  ]

  refetch-Succeeds :
      (core_id : ℕ) (s : Stepped)
      → IsConsistent memory s
      → (s.memory_bus).response_busy ≡ false
      → Succeeds memory (
          await_response_loop (record s {
            memory_bus =
                send_read_request_data s.memory_bus
                  (get_address_to_fetch_from_pc (s.locals).fetch_pc)
                  (fetch_id core_id);
          }))
  unfolding send_read_request_data
  refetch-Succeeds core_id s c free =
      await_response_loop-Succeeds
        (record s {
          memory_bus =
              send_read_request_data s.memory_bus (get_address_to_fetch_from_pc (s.locals).fetch_pc)
                (fetch_id core_id);
        })
        (moved s s.state _ s.stats c) (λ e. cc)

  look_up-Succeeds :
      (core_id : ℕ) (s : Stepped)
      → IsConsistent memory s
      → (s.memory_bus).response_busy ≡ false
      → Succeeds memory (look_up core_id s)
  unfolding look_up
  look_up-Succeeds core_id s c free =
      elim (Bool-cases (s.locals.address_cached == s.locals.fetch_pc)) [
        | inl low ↦ simp low (select-Succeeds s c free (inl ((==_iff _ _).0 low)))
        | inr not_low ↦ elim (Bool-cases (u64 (s.locals.address_cached + 4) == s.locals.fetch_pc)) [
          | inl high ↦ simp (not_low, high) (select-Succeeds s c free (inr ((==_iff _ _).0 high)))
          | inr not_high ↦ simp (not_low, not_high) (refetch-Succeeds core_id s c free)
        ]
      ]

  step_from-Succeeds :
      (core_id : ℕ) (state : FetchState) (s : Stepped)
      → IsConsistent memory s
      → AtSwitch memory state s.locals s.memory_bus
      → Succeeds memory (step_from core_id state s)
  unfolding step_from
  step_from-Succeeds core_id boot s c free = (moved s top s.memory_bus s.stats c, free)
  step_from-Succeeds core_id top s c free = elim (Bool-cases s.locals.have_outstanding_jmp) [
    | inl jump ↦ simp jump (
        await_target_loop-Succeeds
          (record s { locals = record s.locals { have_outstanding_jmp = false } })
          (record {
            aligned = c.aligned;
            small = c.small;
            pair = c.pair;
            targets = c.targets;
            sent = c.sent;
          })
          free)
    | inr straight ↦ simp straight (look_up-Succeeds core_id s c free)
  ]
  step_from-Succeeds core_id await_target s c free = await_target_loop-Succeeds s c free
  step_from-Succeeds core_id (got_target target) s c (free, (aligned, small)) = (
    record { aligned = aligned; small = small; pair = c.pair; targets = c.targets; sent = c.sent },
    free,
  )
  step_from-Succeeds core_id have_target s c free = look_up-Succeeds core_id s c free
  step_from-Succeeds core_id await_response s c answers = await_response_loop-Succeeds s c answers
  step_from-Succeeds core_id (got_response response) s c (free, (read, holds)) =
      simp (read, holds)
        (
          record {
            aligned = c.aligned;
            small = c.small;
            pair = inr (
              omega (arith, aligned-down (s.locals).fetch_pc c.small),
              omega (arith, aligned-down (s.locals).fetch_pc c.small),
              refl,
            );
            targets = c.targets;
            sent = c.sent;
          },
          (free, refl),
        )
  step_from-Succeeds core_id have_response s c (free, held) =
      select-Succeeds s c free (held-selected memory s.locals c.aligned c.small held)
  step_from-Succeeds core_id (fetched insn) s c (free, e) =
      emit-Succeeds insn
        (record s {
          locals = record s.locals {
            have_outstanding_jmp = changes_control_flow (get_opcode insn);
          };
        })
        (record {
          aligned = c.aligned;
          small = c.small;
          pair = c.pair;
          targets = c.targets;
          sent = c.sent;
        })
        free e
  step_from-Succeeds core_id (emitting insn) s c (free, e) = emit-Succeeds insn s c free e

  -- If the memory answers only while the stage waits, with the word at the address asked for, and
  -- the store stage sends aligned program counters, then no step of the fetch stage fails an
  -- assertion, and what it sends to the decode stage is always the instruction that the memory
  -- holds at the program counter sent with it.
  pub step-IsCorrect :
      (core_id : ℕ) (s : Stepped) → IsCorrect memory s → Succeeds memory (step core_id s)
  step-IsCorrect core_id s (c, at) = step_from-Succeeds core_id s.state s c at
