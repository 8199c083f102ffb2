-- ===== src/Memory/L1InsnCache/Coherence.antt =====
-- The lines and the answers of CoreLib/L1InsnCache.cpp against the memory behind it.
use ecc_cpu.GlobalStats.{GlobalStats, inc_num_l1_insn_cache_hits}
use ecc_cpu.Base.{
  refl, u32, ◌>>>◌, arith, bit_and, bit_and-mask, ◌%◌, sym, subst, ==_iff, ℕ, ◌≡◌, ◌≢◌, ap, ◌∙◌,
  true, Option, none, some, ◌==◌, inl, inr, Bool-cases, update,
}
use ecc_cpu.Packets.{BusPacket}
use ecc_cpu.Bus.MemoryBus.{
  MemoryBus, accept_request, get_response, send_request, send_response, send_read_response,
}
use ecc_cpu.Memory.L1InsnCache.{
  L1InsnCacheLine, no_address, get_l1_insn_cache_index, CacheState, boot, top, accepted, hit, miss,
  filling, answering, Stepped, step_from, step, take_response, answer_hit, forward_miss, answer,
  look_up, fill,
}

aligned-index :
    (address : ℕ) → address % 8 ≡ 0 → (index : ℕ) × (get_l1_insn_cache_index address ≡ some index)
unfolding get_l1_insn_cache_index
aligned-index address h =
    let low : bit_and address 7 ≡ 0 = omega (arith, bit_and-mask 3 address) in
    (bit_and (u32 address >>> 3) 127, simp low refl)

-- `memory` gives the eight bytes at an address.
module _ (memory : ℕ → ℕ) where
  -- The value is the memory's, unless the address is the one that marks an empty line.
  abbrev pub Agrees : ℕ → ℕ → Type 0
  Agrees address payload = address ≢ no_address → payload ≡ memory address

  abbrev pub IsAligned : BusPacket → Type 0
  IsAligned pkt = pkt.address % 8 ≡ 0

  abbrev pub PacketAgrees : BusPacket → Type 0
  PacketAgrees pkt = Agrees pkt.address pkt.payload × IsAligned pkt

  -- A response on the bus, if there is one.
  abbrev pub ResponseAgrees : MemoryBus → Type 0
  ResponseAgrees bus = bus.response_busy ≡ true → PacketAgrees bus.response_data

  -- The line of the packet's address holds that address.
  abbrev pub HitsLine : BusPacket → (ℕ → L1InsnCacheLine) → Type 0
  HitsLine pkt lines =
      (index : ℕ)
      → get_l1_insn_cache_index pkt.address ≡ some index
      → (lines index).address ≡ pkt.address

  -- A hit that waits is still in its line.
  abbrev pub StateAgrees : CacheState → (ℕ → L1InsnCacheLine) → Type 0
  StateAgrees boot lines = Unit {0}
  StateAgrees top lines = Unit {0}
  StateAgrees (accepted pkt) lines = IsAligned pkt
  StateAgrees (hit pkt) lines = IsAligned pkt × HitsLine pkt lines
  StateAgrees (miss pkt) lines = IsAligned pkt
  StateAgrees (filling pkt) lines = PacketAgrees pkt
  StateAgrees (answering pkt) lines = PacketAgrees pkt

  -- Every line, every response on the way and every response given is the memory's, and the CPU
  -- asks for aligned addresses only.
  pub record Agree (s : Stepped) : Type 0 where
    pub cached : (index : ℕ) → Agrees (s.lines index).address (s.lines index).payload
    pub arriving : ResponseAgrees s.to_memory
    pub given : ResponseAgrees s.to_cpu
    pub asked : (s.to_cpu).request_busy ≡ true → IsAligned (s.to_cpu).request_data

  abbrev pub IsCoherent : Stepped → Type 0
  IsCoherent s = Agree s × StateAgrees s.state s.lines

  -- The step fails no assertion and keeps the invariant.
  abbrev pub Succeeds : Option Stepped → Type 0
  Succeeds none = ⊥
  Succeeds (some s) = IsCoherent s

  -- What the agreement does not read.
  moved :
      (s : Stepped) (state : CacheState) (stats : GlobalStats)
      → Agree s
      → Agree (record s { state = state; stats = stats })
  moved s state stats h = record {
    cached = h.cached;
    arriving = h.arriving;
    given = h.given;
    asked = h.asked;
  }

  take_response-Succeeds : (s : Stepped) → Agree s → Succeeds (take_response s)
  unfolding take_response get_response
  take_response-Succeeds s h = elim (Bool-cases s.to_memory.response_busy) [
    | inl busy ↦ simp busy (
      record { cached = h.cached; arriving = λ e. cc; given = h.given; asked = h.asked },
      h.arriving busy,
    )
    | inr free ↦ simp free (moved s _ _ h, tt)
  ]

  answer_hit-Succeeds :
      (pkt : BusPacket) (s : Stepped)
      → Agree s
      → StateAgrees (hit pkt) s.lines
      → Succeeds (answer_hit pkt s)
  unfolding answer_hit send_read_response
  answer_hit-Succeeds pkt s h (aligned, w) = elim (Bool-cases s.to_cpu.response_busy) [
    | inl busy ↦ simp busy (moved s _ _ h, (aligned, w))
    | inr free ↦
        let (index, e) = aligned-index pkt.address aligned in
        simp (free, e)
          (take_response-Succeeds
            (record s {
              to_cpu = send_read_response s.to_cpu (s.lines index).payload pkt.source pkt.address;
            })
            (record {
              cached = h.cached;
              arriving = h.arriving;
              given = λ _. (
                (λ ne. h.cached index (λ e'. ne (sym (w index e) ∙ e')) ∙ ap memory (w index e)),
                aligned,
              );
              asked = h.asked;
            }))
  ]

  forward_miss-Succeeds :
      (pkt : BusPacket) (s : Stepped) → Agree s → IsAligned pkt → Succeeds (forward_miss pkt s)
  unfolding forward_miss send_request
  forward_miss-Succeeds pkt s h aligned = elim (Bool-cases s.to_memory.request_busy) [
    | inl busy ↦ simp busy (moved s _ _ h, aligned)
    | inr free ↦ simp free (
        take_response-Succeeds
          (record s { to_memory = record s.to_memory { request_busy = true; request_data = pkt } })
          (record { cached = h.cached; arriving = h.arriving; given = h.given; asked = h.asked }))
  ]

  answer-Succeeds :
      (pkt : BusPacket) (s : Stepped) → Agree s → PacketAgrees pkt → Succeeds (answer pkt s)
  unfolding answer send_response
  answer-Succeeds pkt s h w = elim (Bool-cases s.to_cpu.response_busy) [
    | inl busy ↦ simp busy (moved s _ _ h, w)
    | inr free ↦
        simp free
          (record { cached = h.cached; arriving = h.arriving; given = λ _. w; asked = h.asked }, tt)
  ]

  look_up-Succeeds :
      (pkt : BusPacket) (s : Stepped) → Agree s → IsAligned pkt → Succeeds (look_up pkt s)
  unfolding look_up
  look_up-Succeeds pkt s h aligned =
      let (index, e) = aligned-index pkt.address aligned in
      elim (Bool-cases ((s.lines index).address == pkt.address)) [
        | inl found ↦
            simp (e, found)
              (answer_hit-Succeeds pkt (record s { stats = inc_num_l1_insn_cache_hits s.stats })
                (moved s _ _ h)
                (
                  aligned,
                  λ index' e'.
                      subst (λ (i : ℕ). (s.lines i).address ≡ pkt.address)
                        (let same : index ≡ index' = cc (sym e ∙ e') in same)
                        ((==_iff (s.lines index).address pkt.address).0 found),
                ))
        | inr missing ↦ simp (e, missing) (forward_miss-Succeeds pkt s h aligned)
      ]

  fill-Succeeds :
      (pkt : BusPacket) (s : Stepped) → Agree s → PacketAgrees pkt → Succeeds (fill pkt s)
  unfolding fill
  fill-Succeeds pkt s h (w, aligned) =
      let (index, e) = aligned-index pkt.address aligned in
      simp e (
        answer-Succeeds pkt
          (record s {
            lines = update s.lines index (record { address = pkt.address; payload = pkt.payload });
          })
          (record {
            cached = λ j. elim (Bool-cases (j == index)) [
              | inl same ↦ simp same w
              | inr other ↦ simp other (h.cached j)
            ];
            arriving = h.arriving;
            given = h.given;
            asked = h.asked;
          })
          (w, aligned))

  step_from-Succeeds :
      (state : CacheState) (s : Stepped)
      → Agree s
      → StateAgrees state s.lines
      → Succeeds (step_from state s)
  unfolding step_from accept_request
  step_from-Succeeds boot s h w = (moved s _ _ h, tt)
  step_from-Succeeds top s h w = elim (Bool-cases s.to_cpu.request_busy) [
    | inl busy ↦ simp busy (
      record { cached = h.cached; arriving = h.arriving; given = h.given; asked = λ e. cc },
      h.asked busy,
    )
    | inr free ↦ simp free (take_response-Succeeds s h)
  ]
  step_from-Succeeds (accepted pkt) s h w = look_up-Succeeds pkt s h w
  step_from-Succeeds (hit pkt) s h w = answer_hit-Succeeds pkt s h w
  step_from-Succeeds (miss pkt) s h w = forward_miss-Succeeds pkt s h w
  step_from-Succeeds (filling pkt) s h w = fill-Succeeds pkt s h w
  step_from-Succeeds (answering pkt) s h w = answer-Succeeds pkt s h w

  -- If the CPU asks for aligned addresses only and the memory answers with what it holds, then no
  -- step of the cache fails an assertion, and whatever it answers, from a line or from the memory's
  -- response, is what the memory holds, unless the address is the one that marks empty lines.
  pub step-IsCoherent : (s : Stepped) → IsCoherent s → Succeeds (step s)
  step-IsCoherent s (h, w) = step_from-Succeeds s.state s h w
