-- ===== src/Memory/L1InsnCache/Conserved.antt =====
-- The packets on their way through CoreLib/L1InsnCache.cpp.
use ecc_cpu.Base.{
  ℕ, ◌+◌, ◌≡◌, refl, ap, arith, true, Option, none, some, ◌>>=◌, inl, inr, Bool-cases, ◌==◌, update,
  bool_bit,
}
use ecc_cpu.GlobalStats.{inc_num_l1_insn_cache_hits}
use ecc_cpu.Packets.{BusPacket, bus_read_response}
use ecc_cpu.Bus.MemoryBus.{
  MemoryBus, accept_request, get_response, send_request, send_response, send_read_response,
}
use ecc_cpu.Memory.L1InsnCache.{
  get_l1_insn_cache_index, CacheState, boot, top, accepted, hit, miss, filling, answering, Stepped,
  step_from, step, take_response, answer_hit, forward_miss, answer, look_up, fill,
}

-- The packets that the coroutine itself holds.
abbrev pub held : CacheState → ℕ
held boot = 0
held top = 0
held (accepted pkt) = 1
held (hit pkt) = 1
held (miss pkt) = 1
held (filling pkt) = 1
held (answering pkt) = 1

-- The packets on the CPU's bus and on the memory's.
abbrev pub on_buses : MemoryBus → MemoryBus → ℕ
on_buses cpu memory =
    bool_bit cpu.request_busy
    + bool_bit cpu.response_busy
    + (bool_bit memory.request_busy + bool_bit memory.response_busy)

abbrev pub IsReply : ℕ → BusPacket → Type 0
IsReply a pkt = (pkt.address ≡ a) × (pkt.packet_type ≡ bus_read_response)

-- What is on the two buses is a request for one address, or a response to it.
pub record BusesAt (a : ℕ) (cpu memory : MemoryBus) : Type 0 where
  pub asked : cpu.request_busy ≡ true → (cpu.request_data).address ≡ a
  pub given : cpu.response_busy ≡ true → IsReply a cpu.response_data
  pub sent : memory.request_busy ≡ true → (memory.request_data).address ≡ a
  pub arriving : memory.response_busy ≡ true → IsReply a memory.response_data

-- So is what the coroutine holds.
abbrev pub HeldAt : ℕ → CacheState → Type 0
HeldAt a boot = Unit {0}
HeldAt a top = Unit {0}
HeldAt a (accepted pkt) = pkt.address ≡ a
HeldAt a (hit pkt) = pkt.address ≡ a
HeldAt a (miss pkt) = pkt.address ≡ a
HeldAt a (filling pkt) = IsReply a pkt
HeldAt a (answering pkt) = IsReply a pkt

abbrev pub AllAt : ℕ → Stepped → Type 0
AllAt a s = BusesAt a s.to_cpu s.to_memory × HeldAt a s.state

abbrev pub load : Stepped → ℕ
load s = held s.state + on_buses s.to_cpu s.to_memory

module _ (a n : ℕ) where
  -- If the step succeeds, `n` packets are on their way, all for the address.
  abbrev pub Tracked : Option Stepped → Type 0
  Tracked none = Unit {0}
  Tracked (some s) = (load s ≡ n) × AllAt a s

  -- What stands after a request has an index if the step succeeds.
  with_index :
      (address : ℕ) (f : ℕ → Option Stepped)
      → ((index : ℕ) → Tracked (f index))
      → Tracked (get_l1_insn_cache_index address >>= f)
  with_index address f h = by_index (get_l1_insn_cache_index address)
    where
      by_index : (i : Option ℕ) → Tracked (i >>= f)
      by_index none = tt
      by_index (some index) = h index

  take_response-Tracked :
      (s : Stepped)
      → BusesAt a s.to_cpu s.to_memory
      → on_buses s.to_cpu s.to_memory ≡ n
      → Tracked (take_response s)
  unfolding take_response get_response
  take_response-Tracked s h e = elim (Bool-cases s.to_memory.response_busy) [
    | inl busy ↦ simp busy (
      omega (arith, e, ap bool_bit busy),
      (
        record { asked = h.asked; given = h.given; sent = h.sent; arriving = λ e. cc },
        h.arriving busy,
      ),
    )
    | inr free ↦ simp free (omega (arith, e, ap bool_bit free), (h, tt))
  ]

  answer_hit-Tracked :
      (pkt : BusPacket) (s : Stepped)
      → pkt.address ≡ a
      → BusesAt a s.to_cpu s.to_memory
      → 1 + on_buses s.to_cpu s.to_memory ≡ n
      → Tracked (answer_hit pkt s)
  unfolding answer_hit send_read_response
  answer_hit-Tracked pkt s at h e = elim (Bool-cases s.to_cpu.response_busy) [
    | inl busy ↦ simp busy (omega (arith, e, ap bool_bit busy), (h, at))
    | inr free ↦ simp free (
        with_index pkt.address _ (λ index.
          take_response-Tracked
            (record s {
              to_cpu = send_read_response s.to_cpu (s.lines index).payload pkt.source pkt.address;
            })
            (record {
              asked = h.asked;
              given = λ _. (at, refl);
              sent = h.sent;
              arriving = h.arriving;
            })
            (omega (arith, e, ap bool_bit free))))
  ]

  forward_miss-Tracked :
      (pkt : BusPacket) (s : Stepped)
      → pkt.address ≡ a
      → BusesAt a s.to_cpu s.to_memory
      → 1 + on_buses s.to_cpu s.to_memory ≡ n
      → Tracked (forward_miss pkt s)
  unfolding forward_miss send_request
  forward_miss-Tracked pkt s at h e = elim (Bool-cases s.to_memory.request_busy) [
    | inl busy ↦ simp busy (omega (arith, e, ap bool_bit busy), (h, at))
    | inr free ↦ simp free (
        take_response-Tracked
          (record s { to_memory = record s.to_memory { request_busy = true; request_data = pkt } })
          (record { asked = h.asked; given = h.given; sent = λ _. at; arriving = h.arriving })
          (omega (arith, e, ap bool_bit free)))
  ]

  answer-Tracked :
      (pkt : BusPacket) (s : Stepped)
      → IsReply a pkt
      → BusesAt a s.to_cpu s.to_memory
      → 1 + on_buses s.to_cpu s.to_memory ≡ n
      → Tracked (answer pkt s)
  unfolding answer send_response
  answer-Tracked pkt s reply h e = elim (Bool-cases s.to_cpu.response_busy) [
    | inl busy ↦ simp busy (omega (arith, e, ap bool_bit busy), (h, reply))
    | inr free ↦ simp free (
      omega (arith, e, ap bool_bit free),
      (record { asked = h.asked; given = λ _. reply; sent = h.sent; arriving = h.arriving }, tt),
    )
  ]

  look_up-Tracked :
      (pkt : BusPacket) (s : Stepped)
      → pkt.address ≡ a
      → BusesAt a s.to_cpu s.to_memory
      → 1 + on_buses s.to_cpu s.to_memory ≡ n
      → Tracked (look_up pkt s)
  unfolding look_up
  look_up-Tracked pkt s at h e = with_index pkt.address _ (λ index.
      elim (Bool-cases ((s.lines index).address == pkt.address)) [
        | inl found ↦ simp found (
            answer_hit-Tracked pkt (record s { stats = inc_num_l1_insn_cache_hits s.stats }) at h e)
        | inr missing ↦ simp missing (forward_miss-Tracked pkt s at h e)
      ])

  step_from-Tracked :
      (state : CacheState) (s : Stepped)
      → HeldAt a state
      → BusesAt a s.to_cpu s.to_memory
      → held state + on_buses s.to_cpu s.to_memory ≡ n
      → Tracked (step_from state s)
  unfolding step_from accept_request fill
  step_from-Tracked boot s at h e = (e, (h, tt))
  step_from-Tracked top s at h e = elim (Bool-cases s.to_cpu.request_busy) [
    | inl busy ↦ simp busy (
      omega (arith, e, ap bool_bit busy),
      (
        record { asked = λ e. cc; given = h.given; sent = h.sent; arriving = h.arriving },
        h.asked busy,
      ),
    )
    | inr free ↦ simp free (take_response-Tracked s h (omega (arith, e)))
  ]
  step_from-Tracked (accepted pkt) s at h e = look_up-Tracked pkt s at h e
  step_from-Tracked (hit pkt) s at h e = answer_hit-Tracked pkt s at h e
  step_from-Tracked (miss pkt) s at h e = forward_miss-Tracked pkt s at h e
  step_from-Tracked (filling pkt) s at h e = with_index pkt.address _ (λ index.
      answer-Tracked pkt
        (record s {
          lines = update s.lines index (record { address = pkt.address; payload = pkt.payload });
        })
        at h e)
  step_from-Tracked (answering pkt) s at h e = answer-Tracked pkt s at h e

-- A step of the cache loses and doubles no packet: as many are on their way as before, and if all
-- were for one address, so they are, with what goes to the CPU a response.
pub step-Tracked : (a : ℕ) (s : Stepped) → AllAt a s → Tracked a (load s) (step s)
step-Tracked a s (h, at) = step_from-Tracked a (load s) s.state s at h refl
