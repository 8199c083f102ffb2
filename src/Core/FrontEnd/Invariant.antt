-- ===== src/Core/FrontEnd/Invariant.antt =====
-- What holds at each turn of the fetch stage and the instruction cache of CoreLib/include/Core.h.
use ecc_cpu.Base.{
  ℕ, ◌+◌, ◌%◌, ◌^◌, ◌<◌, ◌≡◌, ◌≢◌, arith, refl, ap, ◌∙◌, bool_bit, Bool, true, false, Option, none,
  some,
}
use ecc_cpu.Packets.{BusPacket}
use ecc_cpu.Bus.MemoryBus.{MemoryBus}
use ecc_cpu.Stage.Fetch.{get_address_to_fetch_from_pc, Locals, FetchState}
use ecc_cpu.Stage.Fetch.Invariant.{aligned-down, Answers, AtSwitch, IsCorrect}
use ecc_cpu.Stage.Fetch.Requests.{waits}
use ecc_cpu.Memory.L1InsnCache.{
  CacheState, boot, top, accepted, hit, miss, filling, answering, no_address,
}
use ecc_cpu.Memory.L1InsnCache.Coherence.{PacketAgrees, IsCoherent}
use ecc_cpu.Memory.L1InsnCache.Conserved.{held, on_buses, IsReply, BusesAt, HeldAt, AllAt, load}
use ecc_cpu.Core.{Core}
use ecc_cpu.Core.FrontEnd.{fetch_view, cache_view, FrontEnd}

abbrev pub count_pending : Option BusPacket → ℕ
count_pending none = 0
count_pending (some pkt) = 1

abbrev pub PendingAt : ℕ → Option BusPacket → Type 0
PendingAt a none = Unit {0}
PendingAt a (some pkt) = pkt.address ≡ a

-- The pair that the program counter wants.
abbrev pub wanted : Core → ℕ
wanted c = get_address_to_fetch_from_pc c.fetch_locals.fetch_pc

-- Both components keep their invariants; exactly one packet is on its way if the stage waits, and
-- none otherwise; it is for the pair that the stage wants.
pub record IsServed (memory : ℕ → ℕ) (s : FrontEnd) : Type 0 where
  pub fetching : IsCorrect memory (fetch_view s.core)
  pub coherent : IsCoherent memory (cache_view s.core)
  pub counted : load (cache_view s.core) + count_pending s.pending ≡ waits s.core.fetch
  pub placed : AllAt (wanted s.core) (cache_view s.core)
  pub pending_placed : PendingAt (wanted s.core) s.pending
  pub below : waits s.core.fetch ≡ 1 → s.core.fetch_locals.fetch_pc < no_address

-- A turn of the core alone, that does not fail and keeps this.
abbrev pub Serves : (ℕ → ℕ) → Option BusPacket → Option Core → Type 0
Serves memory pending none = ⊥
Serves memory pending (some c) = IsServed memory (record { core = c; pending = pending })

pub no_bit : (b : Bool) → bool_bit b ≡ 0 → b ≡ false
no_bit true e = absurd (omega (arith, e))
no_bit false e = refl

-- Where no packet is, the packets are for any address.
pub empty-HeldAt : (a : ℕ) (state : CacheState) → held state ≡ 0 → HeldAt a state
empty-HeldAt a boot e = tt
empty-HeldAt a top e = tt
empty-HeldAt a (accepted pkt) e = absurd (omega (arith, e))
empty-HeldAt a (hit pkt) e = absurd (omega (arith, e))
empty-HeldAt a (miss pkt) e = absurd (omega (arith, e))
empty-HeldAt a (filling pkt) e = absurd (omega (arith, e))
empty-HeldAt a (answering pkt) e = absurd (omega (arith, e))

pub empty-BusesAt :
    (a : ℕ) (cpu memory : MemoryBus) → on_buses cpu memory ≡ 0 → BusesAt a cpu memory
empty-BusesAt a cpu memory e = record {
  asked = λ busy. absurd (omega (arith, e, ap bool_bit busy));
  given = λ busy. absurd (omega (arith, e, ap bool_bit busy));
  sent = λ busy. absurd (omega (arith, e, ap bool_bit busy));
  arriving = λ busy. absurd (omega (arith, e, ap bool_bit busy));
}

pub wanted-aligned : (pc : ℕ) → pc < 2 ^ 64 → get_address_to_fetch_from_pc pc % 8 ≡ 0
wanted-aligned pc h = omega (arith, aligned-down pc h)

pub empty-PendingAt :
    (a : ℕ) (pending : Option BusPacket) → count_pending pending ≡ 0 → PendingAt a pending
empty-PendingAt a none e = tt
empty-PendingAt a (some pkt) e = absurd (omega (arith, e))

-- The response that the cache gives is the one that the fetch stage waits for.
pub given-Answers :
    (memory : ℕ → ℕ) (l : Locals) (pkt : BusPacket)
    → l.fetch_pc < 2 ^ 64
    → l.fetch_pc < no_address
    → IsReply (get_address_to_fetch_from_pc l.fetch_pc) pkt
    → PacketAgrees memory pkt
    → Answers memory pkt l
given-Answers memory l pkt small below (at, kind) (agrees, aligned) =
    let apart : pkt.address ≢ no_address =
      λ e. absurd (omega (arith, aligned-down l.fetch_pc small)) in
    (kind, agrees apart ∙ ap memory at)

-- What holds at a switch reads of the bus only the response.
pub AtSwitch-bus :
    (memory : ℕ → ℕ) (state : FetchState) (l : Locals) (bus bus' : MemoryBus)
    → AtSwitch memory state l bus
    → (waits state ≡ 0 → bus'.response_busy ≡ false)
    → (waits state ≡ 1 → bus'.response_busy ≡ true → Answers memory bus'.response_data l)
    → AtSwitch memory state l bus'
AtSwitch-bus memory FetchState.boot l bus bus' at free answers = free refl
AtSwitch-bus memory FetchState.top l bus bus' at free answers = free refl
AtSwitch-bus memory FetchState.await_target l bus bus' at free answers = free refl
AtSwitch-bus memory FetchState.have_target l bus bus' at free answers = free refl
AtSwitch-bus memory FetchState.await_response l bus bus' at free answers = answers refl
AtSwitch-bus memory FetchState.have_response l bus bus' at free answers = (free refl, at.1)
AtSwitch-bus memory (FetchState.got_target target) l bus bus' at free answers = (free refl, at.1)
AtSwitch-bus memory (FetchState.got_response response) l bus bus' at free answers =
    (free refl, at.1)
AtSwitch-bus memory (FetchState.fetched insn) l bus bus' at free answers = (free refl, at.1)
AtSwitch-bus memory (FetchState.emitting insn) l bus bus' at free answers = (free refl, at.1)
