-- ===== src/Core/FrontEnd/Safe.antt =====
-- The fetch stage and the instruction cache of CoreLib/include/Core.h, however the components and the
-- memory take turns.
use ecc_cpu.Base.{
  ℕ, ◌<◌, ◌%◌, ◌≡◌, arith, refl, sym, ap, subst, bool_bit, true, false, Option, none, some, inl,
}
use ecc_cpu.Packets.{BusPacket}
use ecc_cpu.Bus.MemoryBus
use ecc_cpu.Bus.MemoryBus.{MemoryBus, send_read_response}
use ecc_cpu.Bus.FetchToDecodeBus
use ecc_cpu.Bus.StoreToFetchBus
use ecc_cpu.Stage.Fetch.Invariant.{insn_at}
use ecc_cpu.Memory.L1InsnCache.{no_address}
use ecc_cpu.Core
use ecc_cpu.Core.{
  Core, step_fetch, step_decode, step_execute, step_store, step_l1d, step_l1i,
  step_vec_mem_controller,
}
use ecc_cpu.Core.FrontEnd.{
  FrontEnd, Turn, fetch, decode, execute, store, l1d, l1i, vec_mem_controller, data_memory,
  memory_accepts, memory_answers, booted, Reach, start, later,
}
use ecc_cpu.Core.FrontEnd.Invariant.{IsServed, Serves, wanted-aligned}
use ecc_cpu.Core.FrontEnd.Turns.{step_fetch-Serves, step_l1i-Serves}
use ecc_cpu.Core.FrontEnd.OtherTurns.{
  Keeps, KeepsOnTarget, step_decode-Keeps, step_execute-Keeps, step_l1d-Keeps, data_memory-Keeps,
  step_vec_mem_controller-Keeps, step_store-KeepsOnTarget,
}

module _ (core_id : ℕ) (memory : ℕ → ℕ) where
  new-IsServed :
      (c : Core) (garbage : ℕ × ℕ) (payloads : ℕ → ℕ)
      → IsServed memory (record { core = Core.init (booted c garbage payloads); pending = none })
  unfolding Core.init MemoryBus.init FetchToDecodeBus.init StoreToFetchBus.init
  new-IsServed c garbage payloads = record {
    fetching = (
      record {
        aligned = refl;
        small = omega arith;
        pair = inl refl;
        targets = λ e. cc;
        sent = λ e. cc;
      },
      refl,
    );
    coherent = (
      record {
        cached = λ index apart. absurd (apart refl);
        arriving = λ e. cc;
        given = λ e. cc;
        asked = λ e. cc;
      },
      tt,
    );
    counted = refl;
    placed = (record { asked = λ e. cc; given = λ e. cc; sent = λ e. cc; arriving = λ e. cc }, tt);
    pending_placed = tt;
    below = λ e. absurd (omega (arith, e));
  }

  -- The memory accepts a request, or answers the one that it has.
  accept-IsServed :
      (c : Core)
      → IsServed memory (record { core = c; pending = none })
      → c.l1i_to_l2i.request_busy ≡ true
      → IsServed memory (record {
        core = record c { l1i_to_l2i = record c.l1i_to_l2i { request_busy = false } };
        pending = some c.l1i_to_l2i.request_data;
      })
  accept-IsServed c h busy = record {
    fetching = h.fetching;
    coherent = (
      record {
        cached = h.coherent.0.cached;
        arriving = h.coherent.0.arriving;
        given = h.coherent.0.given;
        asked = h.coherent.0.asked;
      },
      h.coherent.1,
    );
    counted = omega (arith, h.counted, ap bool_bit busy);
    placed = (
      record {
        asked = h.placed.0.asked;
        given = h.placed.0.given;
        sent = λ e. cc;
        arriving = h.placed.0.arriving;
      },
      h.placed.1,
    );
    pending_placed = h.placed.0.sent busy;
    below = h.below;
  }

  answer-IsServed :
      (c : Core) (pkt : BusPacket)
      → IsServed memory (record { core = c; pending = some pkt })
      → c.l1i_to_l2i.response_busy ≡ false
      → IsServed memory (record {
        core = record c {
          l1i_to_l2i = send_read_response c.l1i_to_l2i (memory pkt.address) pkt.source pkt.address;
        };
        pending = none;
      })
  unfolding send_read_response
  answer-IsServed c pkt h free = record {
    fetching = h.fetching;
    coherent = (
      record {
        cached = h.coherent.0.cached;
        arriving = λ busy. (
          (λ apart. refl),
          subst (λ (a : ℕ). a % 8 ≡ 0) (sym h.pending_placed)
              (wanted-aligned c.fetch_locals.fetch_pc h.fetching.0.small),
        );
        given = h.coherent.0.given;
        asked = h.coherent.0.asked;
      },
      h.coherent.1,
    );
    counted = omega (arith, h.counted, ap bool_bit free);
    placed = (
      record {
        asked = h.placed.0.asked;
        given = h.placed.0.given;
        sent = h.placed.0.sent;
        arriving = λ busy. (h.pending_placed, refl);
      },
      h.placed.1,
    );
    pending_placed = tt;
    below = h.below;
  }

  -- What a turn of the core alone has led to.
  served :
      (s : FrontEnd) (c' : Core) (r : Option Core)
      → r ≡ some c'
      → Serves memory s.pending r
      → IsServed memory (record s { core = c' })
  served s c' r e h = subst (λ (x : Option Core). Serves memory s.pending x) e h

  kept :
      (s : FrontEnd) (c' : Core) (r : Option Core)
      → r ≡ some c'
      → Keeps memory s.core s.pending r
      → IsServed memory (record s { core = c' })
  kept s c' r e h = subst (λ (x : Option Core). Keeps memory s.core s.pending x) e h

  with_pending :
      (s : FrontEnd) (pending : Option BusPacket)
      → s.pending ≡ pending
      → IsServed memory s
      → IsServed memory (record s { pending = pending })
  with_pending s pending e h =
      subst (λ (x : Option BusPacket). IsServed memory (record s { pending = x })) e h

  Turn-IsServed : (s t : FrontEnd) → IsServed memory s → Turn core_id memory s t → IsServed memory t
  Turn-IsServed s t h (fetch below e) =
      served s _ (step_fetch core_id s.core) e
        (step_fetch-Serves memory s.core s.pending h core_id below)
  Turn-IsServed s t h (decode e) =
      kept s _ (step_decode s.core) e (step_decode-Keeps memory s.core s.pending h)
  Turn-IsServed s t h (execute e) =
      kept s _ (step_execute s.core) e (step_execute-Keeps memory s.core s.pending h)
  Turn-IsServed s t h (store e target) =
      subst (λ (x : Option Core). KeepsOnTarget memory s.core s.pending x) e
        (step_store-KeepsOnTarget memory s.core s.pending h core_id) target
  Turn-IsServed s t h (l1d e) =
      kept s _ (step_l1d s.core) e (step_l1d-Keeps memory s.core s.pending h)
  Turn-IsServed s t h (l1i e) =
      served s _ (step_l1i s.core) e (step_l1i-Serves memory s.core s.pending h)
  Turn-IsServed s t h (vec_mem_controller e) =
      kept s _ (step_vec_mem_controller s.core) e
        (step_vec_mem_controller-Keeps memory s.core s.pending h)
  Turn-IsServed s t h (data_memory bus) = data_memory-Keeps memory s.core s.pending h bus
  Turn-IsServed s t h (memory_accepts e busy) =
      accept-IsServed s.core (with_pending s none e h) busy
  Turn-IsServed s t h (memory_answers pkt e free) =
      answer-IsServed s.core pkt (with_pending s (some pkt) e h) free

  Reach-IsServed : (s : FrontEnd) → Reach core_id memory s → IsServed memory s
  Reach-IsServed s (start c garbage payloads) = new-IsServed c garbage payloads
  Reach-IsServed s (later r turn) = Turn-IsServed _ s (Reach-IsServed _ r) turn

  -- A step that keeps the invariant has not failed.
  succeeds :
      (pending : Option BusPacket) (r : Option Core)
      → Serves memory pending r
      → (c' : Core) × (r ≡ some c')
  succeeds pending none h = absurd h
  succeeds pending (some c') h = (c', refl)

  -- The two components do not fail, the fetch stage below the address that marks empty lines, and
  -- what the decode stage is sent is the memory's instruction at the program counter sent with it.
  abbrev pub IsSafe : FrontEnd → Type 0
  IsSafe s =
      (s.core.fetch_locals.fetch_pc < no_address
        → (c' : Core) × (step_fetch core_id s.core ≡ some c'))
      × ((c' : Core) × (step_l1i s.core ≡ some c'))
      × (s.core.fetch_decode_bus.is_busy ≡ true
          → s.core.fetch_decode_bus.packet.insn ≡ insn_at memory s.core.fetch_decode_bus.packet.pc)

  -- However the components of a core and a memory behind its instruction cache take turns from the
  -- start on, however long the memory takes, and whatever the other memory does: if the store stage
  -- only sends aligned addresses and the fetch stage has run only below the address that marks empty
  -- lines, then neither the fetch stage nor the cache fails an assertion in its next step, and every
  -- instruction that the decode stage is sent is the memory's at the program counter sent with it.
  pub Reach-IsSafe : (s : FrontEnd) → Reach core_id memory s → IsSafe s
  Reach-IsSafe s r =
      let h : IsServed memory s = Reach-IsServed s r in
      (
        λ below.
            succeeds s.pending (step_fetch core_id s.core)
              (step_fetch-Serves memory s.core s.pending h core_id below),
        succeeds s.pending (step_l1i s.core) (step_l1i-Serves memory s.core s.pending h),
        h.fetching.0.sent,
      )
