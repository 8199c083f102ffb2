-- ===== src/Tests/FrontEnd.antt =====
-- The theorem on the fetch stage and the instruction cache of CoreLib/include/Core.h at the end of the
-- turns that bring the first instruction to the decode stage.
use ecc_cpu.Base.{
  ℕ, ◌+◌, ◌≡◌, refl, Option, none, some, arith, List, [], ◌∷◌, false, if◌then◌else◌, inl, inr,
  Bool-cases, Option-cases, ltb, ◌>>=◌, subst,
}
use mathlib.Core.Option.{none-ne-some, some-injective}
use ecc_cpu.Memory.L1InsnCache.{no_address}
use ecc_cpu.Bus.MemoryBus
use ecc_cpu.Bus.FetchToDecodeBus
use ecc_cpu.Packets.{BusPacket}
use ecc_cpu.Defines.{get_opcode}
use ecc_cpu.Stage.Fetch
use ecc_cpu.Memory.L1InsnCache
use ecc_cpu.Core
use ecc_cpu.Core.{Core, step_fetch, step_l1i}
use ecc_cpu.Core.FrontEnd.{
  FrontEnd, Turn, fetch, l1i, memory_accepts, memory_answers, booted, Reach, start, later,
}
use ecc_cpu.Core.FrontEnd.Safe.{IsSafe, Reach-IsSafe}
use ecc_cpu.Tests.Machine.{core}

-- The memory holds at each address another number.
abbrev memory : ℕ → ℕ
memory a = a + 5

-- A turn of one component.
data Mover : Type 0 where
  fetch_moves l1i_moves accepts answers : Mover

abbrev with_core : FrontEnd → Option Core → Option FrontEnd
with_core s none = none
with_core s (some c) = some (record s { core = c })

abbrev accepted : FrontEnd → Option FrontEnd
accepted s = some (record {
  core = record s.core { l1i_to_l2i = record s.core.l1i_to_l2i { request_busy = false } };
  pending = some s.core.l1i_to_l2i.request_data;
})

abbrev answered : FrontEnd → BusPacket → Option FrontEnd
answered s pkt = some (record {
  core = record s.core {
    l1i_to_l2i =
        MemoryBus.send_read_response s.core.l1i_to_l2i (memory pkt.address) pkt.source pkt.address;
  };
  pending = none;
})

unfoldable turn : Mover → FrontEnd → Option FrontEnd
turn fetch_moves s =
    if ltb s.core.fetch_locals.fetch_pc no_address then with_core s (step_fetch 0 s.core) else none
turn l1i_moves s = with_core s (step_l1i s.core)
turn accepts s = elim s.pending [
  | none ↦ if s.core.l1i_to_l2i.request_busy then accepted s else none
  | some pkt ↦ none
]
turn answers s = elim s.pending [
  | none ↦ none
  | some pkt ↦ if s.core.l1i_to_l2i.response_busy then none else answered s pkt
]

unfoldable play : List Mover → FrontEnd → Option FrontEnd
play [] s = some s
play (m ∷ ms) s = turn m s >>= λ t. play ms t

with_core-Turn :
    (s t : FrontEnd) (r : Option Core)
    → ((c : Core) → r ≡ some c → Turn 0 memory s (record s { core = c }))
    → with_core s r ≡ some t
    → Turn 0 memory s t
with_core-Turn s t none h e = absurd (none-ne-some _ e)
with_core-Turn s t (some c) h e =
    subst (λ (x : FrontEnd). Turn 0 memory s x) (some-injective _ _ e) (h c refl)

-- What can be played are turns.
turn-Turn : (m : Mover) (s t : FrontEnd) → turn m s ≡ some t → Turn 0 memory s t
unfolding turn MemoryBus.send_read_response
turn-Turn fetch_moves s t e = elim (Bool-cases (ltb s.core.fetch_locals.fetch_pc no_address)) [
  | inl below ↦
      with_core-Turn s t (step_fetch 0 s.core) (λ c. fetch (ground (arith, below))) (rw below at e)
  | inr above ↦ absurd (none-ne-some _ (rw above at e))
]
turn-Turn l1i_moves s t e = with_core-Turn s t (step_l1i s.core) (λ c. l1i) e
turn-Turn accepts s t e = elim (Option-cases s.pending) [
  | inl no_pending ↦ elim (Bool-cases s.core.l1i_to_l2i.request_busy) [
    | inl busy ↦
        subst (λ (x : FrontEnd). Turn 0 memory s x)
          (some-injective _ _ (rw (no_pending, busy) at e)) (memory_accepts no_pending busy)
    | inr free ↦ absurd (none-ne-some _ (rw (no_pending, free) at e))
  ]
  | inr (pkt, here) ↦ absurd (none-ne-some _ (rw here at e))
]
turn-Turn answers s t e = elim (Option-cases s.pending) [
  | inl no_pending ↦ absurd (none-ne-some _ (rw no_pending at e))
  | inr (pkt, here) ↦ elim (Bool-cases s.core.l1i_to_l2i.response_busy) [
    | inl busy ↦ absurd (none-ne-some _ (rw (here, busy) at e))
    | inr free ↦
        subst (λ (x : FrontEnd). Turn 0 memory s x) (some-injective _ _ (rw (here, free) at e))
          (memory_answers pkt here free)
  ]
]

play-Reach :
    (ms : List Mover) (s t : FrontEnd) → Reach 0 memory s → play ms s ≡ some t → Reach 0 memory t
unfolding play
play-Reach [] s t r e = subst (λ (x : FrontEnd). Reach 0 memory x) (some-injective _ _ e) r
play-Reach (m ∷ ms) s t r e = elim (Option-cases (turn m s)) [
  | inl fails ↦ absurd (none-ne-some _ (rw fails at e))
  | inr (t', goes) ↦ play-Reach ms t' t (later r (turn-Turn m s t' goes)) (rw goes at e)
]

abbrev new : FrontEnd
new = record { core = Core.init (booted core (0, 0) (λ _. 0)); pending = none }

abbrev moves : List Mover
moves =
    fetch_moves ∷ fetch_moves ∷ l1i_moves ∷ l1i_moves ∷ l1i_moves ∷ accepts ∷ answers ∷ l1i_moves
    ∷ l1i_moves ∷ fetch_moves ∷ fetch_moves ∷ fetch_moves ∷ fetch_moves ∷ []

abbrev or_new : Option FrontEnd → FrontEnd
or_new none = new
or_new (some s) = s

-- The first instruction is on its way to the decode stage.
abbrev played : FrontEnd
played = or_new (play moves new)

-- The word at 0 is 5.
moves-played :
    (play moves new ≡ some played)
    × (played.core.fetch_decode_bus.packet ≡ record { exec_mask = 255; pc = 0; insn = 5 })
unfolding turn play Core.init step_fetch Fetch.step_from Fetch.look_up Fetch.await_response_loop
    MemoryBus.send_read_request_data MemoryBus.init step_l1i L1InsnCache.step_from
    MemoryBus.accept_request L1InsnCache.look_up L1InsnCache.get_l1_insn_cache_index
    Fetch.get_address_to_fetch_from_pc L1InsnCache.forward_miss MemoryBus.send_request
    L1InsnCache.take_response MemoryBus.send_read_response MemoryBus.get_response
    FetchToDecodeBus.init FetchToDecodeBus.send MemoryBus.send_response get_opcode
    L1InsnCache.answer L1InsnCache.fill Fetch.changes_control_flow Fetch.emit Fetch.get_insn_data
    Fetch.select Fetch.select_insn
moves-played = (refl, refl)

Reach-IsSafe_example : IsSafe 0 memory played
Reach-IsSafe_example =
    Reach-IsSafe 0 memory played
      (play-Reach moves new played (start core (0, 0) (λ _. 0)) moves-played.0)
