-- ===== src/Core/FrontEnd/Turns.antt =====
-- The turns of the fetch stage and of the instruction cache of CoreLib/include/Core.h.
use ecc_cpu.Base.{
  ℕ, ◌+◌, ◌<◌, ◌%◌, ◌≡◌, arith, sym, ap, ◌∙◌, subst, bool_bit, false, Option, none, some, ◌>>=◌,
}
use ecc_cpu.Packets.{BusPacket}
use ecc_cpu.Bus.MemoryBus.{MemoryBus, send_read_request_data}
use ecc_cpu.Stage.Fetch
use ecc_cpu.Stage.Fetch.{get_address_to_fetch_from_pc, fetch_id}
use ecc_cpu.Stage.Fetch.Invariant
use ecc_cpu.Stage.Fetch.Invariant.{IsConsistent, AtSwitch}
use ecc_cpu.Stage.Fetch.Correct.{step-IsCorrect}
use ecc_cpu.Stage.Fetch.Requests.{waits, quiet, asks, remains, takes, Does, step-Does}
use ecc_cpu.Memory.L1InsnCache
use ecc_cpu.Memory.L1InsnCache.{no_address}
use ecc_cpu.Memory.L1InsnCache.Coherence
use ecc_cpu.Memory.L1InsnCache.Coherence.{ResponseAgrees, step-IsCoherent}
use ecc_cpu.Memory.L1InsnCache.Conserved.{
  held, on_buses, BusesAt, HeldAt, load, Tracked, step-Tracked,
}
use ecc_cpu.Core.{Core, step_fetch, step_l1i}
use ecc_cpu.Core.FrontEnd.{fetch_view, cache_view}
use ecc_cpu.Core.FrontEnd.Invariant.{
  count_pending, PendingAt, wanted, IsServed, Serves, no_bit, empty-HeldAt, empty-BusesAt,
  empty-PendingAt, wanted-aligned, given-Answers, AtSwitch-bus,
}

module _ (memory : ℕ → ℕ) (c : Core) (pending : Option BusPacket) where
  module _ (h : IsServed memory (record { core = c; pending = pending })) where
    -- No response is there while the stage does not wait.
    no_response : waits c.fetch ≡ 0 → c.core_l1i.response_busy ≡ false
    no_response e = no_bit c.core_l1i.response_busy (omega (arith, e, h.counted))

    -- The core after a step of the fetch stage.
    abbrev after_fetch : Fetch.Stepped → Core
    after_fetch s = record c {
      fetch = s.state;
      fetch_locals = s.locals;
      fetch_decode_bus = s.decode_bus;
      store_fetch_bus = s.store_bus;
      core_l1i = s.memory_bus;
      stats = s.stats;
    }

    -- What is left to show of it.
    served :
        (s : Fetch.Stepped)
        → Invariant.IsCorrect memory s
        → load (cache_view (after_fetch s)) + count_pending pending ≡ waits s.state
        → BusesAt (wanted (after_fetch s)) s.memory_bus c.l1i_to_l2i
        → HeldAt (wanted (after_fetch s)) c.l1i
        → PendingAt (wanted (after_fetch s)) pending
        → (waits s.state ≡ 1 → s.locals.fetch_pc < no_address)
        → ResponseAgrees memory s.memory_bus
        → IsServed memory (record { core = after_fetch s; pending = pending })
    served s correct counted buses holds waiting below agrees = record {
      fetching = correct;
      coherent = (
        record {
          cached = h.coherent.0.cached;
          arriving = h.coherent.0.arriving;
          given = agrees;
          asked = λ busy.
              subst (λ (a : ℕ). a % 8 ≡ 0) (sym (buses.asked busy))
                (wanted-aligned s.locals.fetch_pc correct.0.small);
        },
        h.coherent.1,
      );
      counted = counted;
      placed = (buses, holds);
      pending_placed = waiting;
      below = below;
    }

    -- Nothing is on its way.
    IsServed-none :
        (s : Fetch.Stepped)
        → Invariant.IsCorrect memory s
        → waits s.state ≡ 0
        → load (cache_view (after_fetch s)) + count_pending pending ≡ 0
        → IsServed memory (record { core = after_fetch s; pending = pending })
    IsServed-none s correct e counted =
        let none_on : on_buses s.memory_bus c.l1i_to_l2i ≡ 0 = omega (arith, counted) in
        served s correct (counted ∙ sym e) (empty-BusesAt _ _ _ none_on)
          (empty-HeldAt _ c.l1i (omega (arith, counted)))
          (empty-PendingAt _ pending (omega (arith, counted)))
          (λ one. absurd (omega (arith, e, one)))
          (λ busy. absurd (omega (arith, none_on, ap bool_bit busy)))

    -- The stage has asked.
    IsServed-asked :
        (core_id : ℕ) (s : Fetch.Stepped)
        → Invariant.IsCorrect memory s
        → waits c.fetch ≡ 0
        → waits s.state ≡ 1
        → s.locals.fetch_pc ≡ c.fetch_locals.fetch_pc
        → s.memory_bus ≡ send_read_request_data c.core_l1i (wanted c) (fetch_id core_id)
        → s.locals.fetch_pc < no_address
        → IsServed memory (record { core = after_fetch s; pending = pending })
    unfolding send_read_request_data
    IsServed-asked core_id s correct w w' pc e below =
        let idle : held c.l1i + on_buses c.core_l1i c.l1i_to_l2i + count_pending pending ≡ 0 =
          h.counted ∙ w in
        let buses : BusesAt (wanted (after_fetch s))
            (send_read_request_data c.core_l1i (wanted c) (fetch_id core_id)) c.l1i_to_l2i =
          record {
            asked = λ busy. ap get_address_to_fetch_from_pc (sym pc);
            given = λ busy. absurd (omega (arith, idle, ap bool_bit busy));
            sent = λ busy. absurd (omega (arith, idle, ap bool_bit busy));
            arriving = λ busy. absurd (omega (arith, idle, ap bool_bit busy));
          } in
        served s correct
          (ap (λ (b : MemoryBus). held c.l1i + on_buses b c.l1i_to_l2i + count_pending pending) e
            ∙ omega (arith, idle, w'))
          (subst (λ (b : MemoryBus). BusesAt (wanted (after_fetch s)) b c.l1i_to_l2i) (sym e) buses)
          (empty-HeldAt _ c.l1i (omega (arith, idle)))
          (empty-PendingAt _ pending (omega (arith, idle))) (λ one. below)
          (subst (λ (b : MemoryBus). ResponseAgrees memory b) (sym e)
            (λ busy. absurd (omega (arith, idle, ap bool_bit busy))))

    -- The stage goes on waiting.
    IsServed-waiting :
        (s : Fetch.Stepped)
        → Invariant.IsCorrect memory s
        → waits c.fetch ≡ waits s.state
        → s.locals.fetch_pc ≡ c.fetch_locals.fetch_pc
        → s.memory_bus ≡ c.core_l1i
        → s.locals.fetch_pc < no_address
        → IsServed memory (record { core = after_fetch s; pending = pending })
    IsServed-waiting s correct w pc e below =
        let same : wanted c ≡ wanted (after_fetch s) = ap get_address_to_fetch_from_pc (sym pc) in
        served s correct
          (ap (λ (b : MemoryBus). held c.l1i + on_buses b c.l1i_to_l2i + count_pending pending) e
            ∙ h.counted
            ∙ w)
          (subst (λ (b : MemoryBus). BusesAt (wanted (after_fetch s)) b c.l1i_to_l2i) (sym e)
            (subst (λ (a : ℕ). BusesAt a c.core_l1i c.l1i_to_l2i) same h.placed.0))
          (subst (λ (a : ℕ). HeldAt a c.l1i) same h.placed.1)
          (subst (λ (a : ℕ). PendingAt a pending) same h.pending_placed) (λ one. below)
          (subst (λ (b : MemoryBus). ResponseAgrees memory b) (sym e) h.coherent.0.given)

    fetch-served :
        (core_id : ℕ) (r : Option Fetch.Stepped)
        → c.fetch_locals.fetch_pc < no_address
        → Invariant.Succeeds memory r
        → Does core_id c.core_l1i c.fetch_locals (waits c.fetch) r
        → Serves memory pending (r >>= λ s. some (after_fetch s))
    fetch-served core_id none below correct does = absurd correct
    fetch-served core_id (some s) below correct (quiet w w' e) = IsServed-none s correct w' (
        ap (λ (b : MemoryBus). held c.l1i + on_buses b c.l1i_to_l2i + count_pending pending) e
        ∙ h.counted
        ∙ w)
    fetch-served core_id (some s) below correct (asks w st pc e) =
        IsServed-asked core_id s correct w (ap waits st) pc e (omega (arith, below, pc))
    fetch-served core_id (some s) below correct (remains w st pc e) =
        IsServed-waiting s correct (w ∙ sym (ap waits st)) pc e (omega (arith, below, pc))
    fetch-served core_id (some s) below correct (takes w w' busy e) = IsServed-none s correct w' (
        ap (λ (b : MemoryBus). held c.l1i + on_buses b c.l1i_to_l2i + count_pending pending) e
        ∙ omega (arith, h.counted, w, ap bool_bit busy))

    -- A step of the fetch stage below the address that marks empty lines.
    pub step_fetch-Serves :
        (core_id : ℕ)
        → c.fetch_locals.fetch_pc < no_address
        → Serves memory pending (step_fetch core_id c)
    unfolding step_fetch
    step_fetch-Serves core_id below =
        fetch-served core_id (Fetch.step core_id (fetch_view c)) below
          (step-IsCorrect memory core_id (fetch_view c) h.fetching)
          (step-Does core_id (fetch_view c) no_response)

    cache-served :
        (r : Option L1InsnCache.Stepped)
        → Coherence.Succeeds memory r
        → Tracked (wanted c) (load (cache_view c)) r
        → Serves memory pending (
            r >>= λ s. some (record c {
              l1i = s.state;
              l1i_lines = s.lines;
              core_l1i = s.to_cpu;
              l1i_to_l2i = s.to_memory;
              stats = s.stats;
            }))
    cache-served none coherent tracked = absurd coherent
    cache-served (some s) coherent (same, placed) =
        let counted : load s + count_pending pending ≡ waits c.fetch =
          omega (arith, same, h.counted) in
        let consistent : IsConsistent memory (fetch_view c) = h.fetching.0 in
        record {
          fetching = (
            record {
              aligned = consistent.aligned;
              small = consistent.small;
              pair = consistent.pair;
              targets = consistent.targets;
              sent = consistent.sent;
            },
            AtSwitch-bus memory c.fetch c.fetch_locals c.core_l1i s.to_cpu h.fetching.1
                (λ e. no_bit s.to_cpu.response_busy (omega (arith, e, counted)))
                (λ one busy.
                  given-Answers memory c.fetch_locals s.to_cpu.response_data consistent.small
                    (h.below one) (placed.0.given busy) (coherent.0.given busy)),
          );
          coherent = coherent;
          counted = counted;
          placed = placed;
          pending_placed = h.pending_placed;
          below = h.below;
        }

    -- A step of the cache.
    pub step_l1i-Serves : Serves memory pending (step_l1i c)
    unfolding step_l1i
    step_l1i-Serves =
        cache-served (L1InsnCache.step (cache_view c))
          (step-IsCoherent memory (cache_view c) h.coherent)
          (step-Tracked (wanted c) (cache_view c) h.placed)
