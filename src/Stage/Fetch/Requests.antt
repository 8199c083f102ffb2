-- ===== src/Stage/Fetch/Requests.antt =====
-- When the fetch stage of CoreLib/FetchStage.cpp asks the memory, and for what.
use ecc_cpu.Base.{
  ℕ, ◌+◌, ◌≡◌, refl, ap, ap₂, ◌∙◌, true, false, Option, none, some, ◌>>=◌, inl, inr, Bool-cases,
  u64, ◌==◌,
}
use ecc_cpu.Defines.{instruction_size}
use ecc_cpu.Bus.FetchToDecodeBus
use ecc_cpu.Bus.StoreToFetchBus
use ecc_cpu.Bus.MemoryBus.{MemoryBus, get_response, send_read_request_data}
use ecc_cpu.Stage.Fetch.{
  get_address_to_fetch_from_pc, Locals, FetchState, boot, top, await_target, have_target,
  await_response, have_response, got_target, got_response, fetched, emitting, Stepped, fetch_id,
  select_insn, select, await_target_loop, await_response_loop, emit, look_up, step_from, step,
  is_read_response,
}

-- The stage has asked the memory and has not taken the answer.
abbrev pub waits : FetchState → ℕ
waits boot = 0
waits top = 0
waits await_target = 0
waits have_target = 0
waits await_response = 1
waits have_response = 0
waits (got_target target) = 0
waits (got_response response) = 0
waits (fetched insn) = 0
waits (emitting insn) = 0

-- The four kinds of a step: it leaves the memory's bus alone and does not wait, asks for the pair
-- around its program counter, goes on waiting for it, or takes the response.
pub data Requests (core_id : ℕ) (bus : MemoryBus) (l : Locals) (w : ℕ) (state : FetchState)
    (bus' : MemoryBus) (l' : Locals) : Type 0 where
  quiet : w ≡ 0 → waits state ≡ 0 → bus' ≡ bus → Requests core_id bus l w state bus' l'
  asks :
      w ≡ 0
      → state ≡ await_response
      → l'.fetch_pc ≡ l.fetch_pc
      → bus'
        ≡ send_read_request_data bus (get_address_to_fetch_from_pc l.fetch_pc) (fetch_id core_id)
      → Requests core_id bus l w state bus' l'
  remains :
      w ≡ 1
      → state ≡ await_response
      → l'.fetch_pc ≡ l.fetch_pc
      → bus' ≡ bus
      → Requests core_id bus l w state bus' l'
  takes :
      w ≡ 1
      → waits state ≡ 0
      → bus.response_busy ≡ true
      → bus' ≡ record bus { response_busy = false }
      → Requests core_id bus l w state bus' l'

module _ (core_id : ℕ) (bus : MemoryBus) (l : Locals) where
  -- The step fails or is one of the four.
  abbrev pub Does : ℕ → Option Stepped → Type 0
  Does w none = Unit {0}
  Does w (some s) = Requests core_id bus l w s.state s.memory_bus s.locals

  select-Does : (s : Stepped) → s.memory_bus ≡ bus → Does 0 (select s)
  unfolding select
  select-Does s e = by_insn (select_insn s.locals)
    where
      by_insn : (insn : Option ℕ) → Does 0 (insn >>= λ i. some (record s { state = fetched i }))
      by_insn none = tt
      by_insn (some i) = quiet refl refl e

  await_target_loop-Does : (s : Stepped) → s.memory_bus ≡ bus → Does 0 (await_target_loop s)
  unfolding await_target_loop StoreToFetchBus.recv
  await_target_loop-Does s e = elim (Bool-cases s.store_bus.can_receive) [
    | inl ready ↦ simp ready (quiet refl refl e)
    | inr empty ↦ simp empty (quiet refl refl e)
  ]

  emit-Does : (insn : ℕ) (s : Stepped) → s.memory_bus ≡ bus → Does 0 (emit insn s)
  unfolding emit FetchToDecodeBus.send
  emit-Does insn s e = elim (Bool-cases s.decode_bus.is_busy) [
    | inl busy ↦ simp busy (quiet refl refl e)
    | inr free ↦ simp free (quiet refl refl e)
  ]

  ask-Does :
      (s : Stepped)
      → s.memory_bus
        ≡ send_read_request_data bus (get_address_to_fetch_from_pc l.fetch_pc) (fetch_id core_id)
      → s.locals ≡ l
      → s.memory_bus.response_busy ≡ false
      → Does 0 (await_response_loop s)
  unfolding await_response_loop
  ask-Does s e same free = simp free (asks refl refl (ap (λ (x : Locals). x.fetch_pc) same) e)

  look_up-Does :
      (s : Stepped)
      → s.memory_bus ≡ bus
      → s.locals ≡ l
      → bus.response_busy ≡ false
      → Does 0 (look_up core_id s)
  unfolding look_up send_read_request_data
  look_up-Does s e same free = elim (Bool-cases (s.locals.address_cached == s.locals.fetch_pc)) [
    | inl low ↦ simp low (select-Does s e)
    | inr other ↦
        elim (Bool-cases (u64 (s.locals.address_cached + instruction_size) == s.locals.fetch_pc)) [
          | inl high ↦ simp (other, high) (select-Does s e)
          | inr missing ↦
              simp (other, missing)
                (ask-Does _
                  (ap₂
                    (λ (b : MemoryBus) (x : Locals).
                      send_read_request_data b (get_address_to_fetch_from_pc x.fetch_pc)
                        (fetch_id core_id))
                    e same)
                  same (ap (λ (b : MemoryBus). b.response_busy) e ∙ free))
        ]
  ]

step_from-Does :
    (core_id : ℕ) (state : FetchState) (s : Stepped)
    → (waits state ≡ 0 → s.memory_bus.response_busy ≡ false)
    → Does core_id s.memory_bus s.locals (waits state) (step_from core_id state s)
unfolding step_from await_response_loop get_response
step_from-Does core_id boot s free = quiet refl refl refl
step_from-Does core_id top s free = elim (Bool-cases s.locals.have_outstanding_jmp) [
  | inl jumping ↦ simp jumping (
      await_target_loop-Does core_id s.memory_bus s.locals
        (record s { locals = record s.locals { have_outstanding_jmp = false } }) refl)
  | inr going ↦ simp going (look_up-Does core_id s.memory_bus s.locals s refl refl (free refl))
]
step_from-Does core_id await_target s free =
    await_target_loop-Does core_id s.memory_bus s.locals s refl
step_from-Does core_id (got_target target) s free = quiet refl refl refl
step_from-Does core_id have_target s free =
    look_up-Does core_id s.memory_bus s.locals s refl refl (free refl)
step_from-Does core_id await_response s free = elim (Bool-cases s.memory_bus.response_busy) [
  | inl busy ↦ simp busy (takes refl refl busy refl)
  | inr empty ↦ simp empty (remains refl refl refl refl)
]
step_from-Does core_id (got_response response) s free =
    elim (Bool-cases (is_read_response response.packet_type)) [
      | inl read ↦ simp read (quiet refl refl refl)
      | inr other ↦ simp other tt
    ]
step_from-Does core_id have_response s free = select-Does core_id s.memory_bus s.locals s refl
step_from-Does core_id (fetched insn) s free = emit-Does core_id s.memory_bus s.locals insn _ refl
step_from-Does core_id (emitting insn) s free = emit-Does core_id s.memory_bus s.locals insn s refl

-- If no response is there unless the stage waits for one, each step that succeeds is one of the four.
pub step-Does :
    (core_id : ℕ) (s : Stepped)
    → (waits s.state ≡ 0 → s.memory_bus.response_busy ≡ false)
    → Does core_id s.memory_bus s.locals (waits s.state) (step core_id s)
step-Does core_id s free = step_from-Does core_id s.state s free
