-- ===== src/Core/FrontEnd/OtherTurns.antt =====
-- The turns of the other components of CoreLib/include/Core.h, which leave the fetch stage and the
-- instruction cache alone.
use ecc_cpu.Base.{ℕ, ◌≡◌, refl, sym, subst, true, Option, none, some, ◌>>=◌}
use ecc_cpu.Packets.{BusPacket}
use ecc_cpu.Bus.MemoryBus.{MemoryBus}
use ecc_cpu.Bus.FetchToDecodeBus.{FetchToDecodeBus}
use ecc_cpu.Stage.Fetch.Invariant.{IsConsistent, IsTarget, insn_at}
use ecc_cpu.Stage.Decode
use ecc_cpu.Stage.Decode.{Outcome, stall, done, DecodeState, idle, decoding, after, decode_insn}
use ecc_cpu.Stage.Decode.Receives.{TakesOnly, step-TakesOnly}
use ecc_cpu.Stage.Execute
use ecc_cpu.Stage.Store
use ecc_cpu.Memory.VectorMemoryController
use ecc_cpu.Memory.Relays.{Relay, l1_data_step}
use ecc_cpu.Core.{Core, step_decode, step_execute, step_store, step_l1d, step_vec_mem_controller}
use ecc_cpu.Core.FrontEnd.{fetch_view}
use ecc_cpu.Core.FrontEnd.Invariant.{IsServed}

module _ (memory : ℕ → ℕ) (c : Core) (pending : Option BusPacket) where
  -- If the turn does not fail, the invariant is kept.
  abbrev pub Keeps : Option Core → Type 0
  Keeps none = Unit {0}
  Keeps (some c') = IsServed memory (record { core = c'; pending = pending })

  -- The same if the target that is sent is aligned.
  abbrev pub KeepsOnTarget : Option Core → Type 0
  KeepsOnTarget none = Unit {0}
  KeepsOnTarget (some c') =
      (c'.store_fetch_bus.can_receive ≡ true → IsTarget memory c'.store_fetch_bus.packet)
      → IsServed memory (record { core = c'; pending = pending })

  module _ (h : IsServed memory (record { core = c; pending = pending })) where
    -- A core with the front end of `c`.
    abbrev beside : Core → Core
    beside other = record other {
      fetch = c.fetch;
      fetch_locals = c.fetch_locals;
      core_l1i = c.core_l1i;
      l1i = c.l1i;
      l1i_lines = c.l1i_lines;
      l1i_to_l2i = c.l1i_to_l2i;
    }

    beside-IsServed :
        (other : Core)
        → (other.fetch_decode_bus.is_busy ≡ true → other.fetch_decode_bus ≡ c.fetch_decode_bus)
        → (other.store_fetch_bus.can_receive ≡ true → IsTarget memory other.store_fetch_bus.packet)
        → IsServed memory (record { core = beside other; pending = pending })
    beside-IsServed other decodes targets =
        let consistent : IsConsistent memory (fetch_view c) = h.fetching.0 in
        record {
          fetching = (
            record {
              aligned = consistent.aligned;
              small = consistent.small;
              pair = consistent.pair;
              targets = targets;
              sent = λ busy.
                  subst (λ (b : FetchToDecodeBus). b.packet.insn ≡ insn_at memory b.packet.pc)
                    (sym (decodes busy))
                    (consistent.sent
                      (subst (λ (b : FetchToDecodeBus). b.is_busy ≡ true) (decodes busy) busy));
            },
            h.fetching.1,
          );
          coherent = (
            record {
              cached = h.coherent.0.cached;
              arriving = h.coherent.0.arriving;
              given = h.coherent.0.given;
              asked = h.coherent.0.asked;
            },
            h.coherent.1,
          );
          counted = h.counted;
          placed = h.placed;
          pending_placed = h.pending_placed;
          below = h.below;
        }

    decode-Keeps :
        (r : Option Decode.Stepped)
        → TakesOnly c.fetch_decode_bus r
        → Keeps (
            r >>= λ s.
            some (record c { decode = s.0; fetch_decode_bus = s.1; decode_execute_bus = s.2 }))
    decode-Keeps none only = tt
    decode-Keeps (some (state, bus, execute_bus)) only =
        beside-IsServed
          (record c { decode = state; fetch_decode_bus = bus; decode_execute_bus = execute_bus })
          only h.fetching.0.targets

    pub step_decode-Keeps : Keeps (step_decode c)
    unfolding step_decode
    step_decode-Keeps =
        decode-Keeps (Decode.step c.decode c.fetch_decode_bus c.decode_execute_bus c.regs)
          (step-TakesOnly c.decode c.fetch_decode_bus c.decode_execute_bus c.regs)

    execute-Keeps :
        (r : Option Execute.Stepped)
        → Keeps (
            r >>= λ s. some (record c {
              execute = s.state;
              decode_execute_bus = s.decode_bus;
              execute_store_bus = s.store_bus;
              regs = s.regs;
              stats = s.stats;
            }))
    execute-Keeps none = tt
    execute-Keeps (some s) =
        beside-IsServed
          (record c {
            execute = s.state;
            decode_execute_bus = s.decode_bus;
            execute_store_bus = s.store_bus;
            regs = s.regs;
            stats = s.stats;
          })
          (λ busy. refl) h.fetching.0.targets

    pub step_execute-Keeps : Keeps (step_execute c)
    unfolding step_execute
    step_execute-Keeps = execute-Keeps (
        Execute.step (record {
          state = c.execute;
          decode_bus = c.decode_execute_bus;
          store_bus = c.execute_store_bus;
          regs = c.regs;
          stats = c.stats;
        }))

    l1d-Keeps :
        (r : Option Relay)
        → Keeps (r >>= λ s. some (record c { core_l1d = s.to_cpu; l1d_to_l2d = s.to_memory }))
    l1d-Keeps none = tt
    l1d-Keeps (some s) =
        beside-IsServed (record c { core_l1d = s.to_cpu; l1d_to_l2d = s.to_memory }) (λ busy. refl)
          h.fetching.0.targets

    pub step_l1d-Keeps : Keeps (step_l1d c)
    unfolding step_l1d
    step_l1d-Keeps =
        l1d-Keeps (l1_data_step (record { to_cpu = c.core_l1d; to_memory = c.l1d_to_l2d }))

    pub data_memory-Keeps :
        (bus : MemoryBus)
        → IsServed memory (record { core = record c { l1d_to_l2d = bus }; pending = pending })
    data_memory-Keeps bus =
        beside-IsServed (record c { l1d_to_l2d = bus }) (λ busy. refl) h.fetching.0.targets

    vec_mem_controller-Keeps :
        (r : Option VectorMemoryController.Stepped)
        → Keeps (
            r >>= λ s. some (record c {
              vec_mem_controller = s.state;
              store_to_vec_controller_bus = s.to_cpu;
              core_l1d = s.to_memory;
            }))
    vec_mem_controller-Keeps none = tt
    vec_mem_controller-Keeps (some s) =
        beside-IsServed
          (record c {
            vec_mem_controller = s.state;
            store_to_vec_controller_bus = s.to_cpu;
            core_l1d = s.to_memory;
          })
          (λ busy. refl) h.fetching.0.targets

    pub step_vec_mem_controller-Keeps : Keeps (step_vec_mem_controller c)
    unfolding step_vec_mem_controller
    step_vec_mem_controller-Keeps = vec_mem_controller-Keeps (
        VectorMemoryController.step (record {
          state = c.vec_mem_controller;
          to_cpu = c.store_to_vec_controller_bus;
          to_memory = c.core_l1d;
        }))

    store-KeepsOnTarget :
        (r : Option Store.Stepped)
        → KeepsOnTarget (
            r >>= λ s. some (record c {
              store = s.state;
              execute_store_bus = s.execute_bus;
              store_to_vec_controller_bus = s.memory_bus;
              regs = s.regs;
              store_fetch_bus = s.fetch_bus;
              divergence_queue = s.divergence_queue;
              stats = s.stats;
            }))
    store-KeepsOnTarget none = tt
    store-KeepsOnTarget (some s) = λ targets.
        beside-IsServed
          (record c {
            store = s.state;
            execute_store_bus = s.execute_bus;
            store_to_vec_controller_bus = s.memory_bus;
            regs = s.regs;
            store_fetch_bus = s.fetch_bus;
            divergence_queue = s.divergence_queue;
            stats = s.stats;
          })
          (λ busy. refl) targets

    pub step_store-KeepsOnTarget : (core_id : ℕ) → KeepsOnTarget (step_store core_id c)
    unfolding step_store
    step_store-KeepsOnTarget core_id = store-KeepsOnTarget (
        Store.step core_id (record {
          state = c.store;
          execute_bus = c.execute_store_bus;
          memory_bus = c.store_to_vec_controller_bus;
          regs = c.regs;
          fetch_bus = c.store_fetch_bus;
          divergence_queue = c.divergence_queue;
          stats = c.stats;
        }))
