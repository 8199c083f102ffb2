-- ===== src/Tests/Memory.antt =====
-- The theorems on the memory of CoreLib at concrete states.
use ecc_cpu.Base.{arith, refl, ℕ, ◌+◌, ◌*◌, ◌≡◌, ◌≤◌, ◌<◌, ◌⊎◌, suc, zero, true, false, none, some}
use ecc_cpu.VectorValue.{lane}
use ecc_cpu.Packets.{bus_read_data, bus_write_data, bus_read_response, read_response_vec64}
use ecc_cpu.Bus.MemoryBus.{send_read_response}
use ecc_cpu.Memory.Dram
use ecc_cpu.Memory.Dram.{read_value, write_value, steps}
use ecc_cpu.Memory.Dram.Bytes.{IsBytes, read-write}
use ecc_cpu.Memory.Dram.Service.{read_served, write_served, last_word_fails}
use ecc_cpu.Memory.L1InsnCache
use ecc_cpu.Memory.L1InsnCache.Coherence
use ecc_cpu.Memory.L1InsnCache.Coherence.{step-IsCoherent}
use ecc_cpu.Memory.Relays.{Relay, l1_data_step, l2_data_step, l2_insn_step}
use ecc_cpu.Memory.Relays.Lossless.{
  Relays, RelaysInsn, l1_data_step-Relays, l2_data_step-Relays, l2_insn_step-Relays,
}
use ecc_cpu.Memory.VectorMemoryController
use ecc_cpu.Memory.VectorMemoryController.Gather
use ecc_cpu.Memory.VectorMemoryController.Gather.{step-IsGathering}
use ecc_cpu.Memory.CoreInternalMemoryMultiplexer
use ecc_cpu.Memory.CoreInternalMemoryMultiplexer.Routing
use ecc_cpu.Memory.CoreInternalMemoryMultiplexer.Routing.{step-IsRouted}
use ecc_cpu.Memory.CoreSelectionMemoryMultiplexer
use ecc_cpu.Memory.CoreSelectionMemoryMultiplexer.Routing as Selection
use ecc_cpu.Memory.CoreSelectionMemoryMultiplexer.Routing.{step-IsSelected}
use ecc_cpu.Tests.{
  packet, from_fetch_stage, from_store_stage, a_read, bus_with, idle_bus, vec_bus, ascending,
  no_stats,
}

abbrev empty : Dram.Storage
empty = λ _. 0

read-write_example :
    (read_value (write_value empty 16 1234567) 16 ≡ 1234567)
    × ((24 + 8 ≤ 16) ⊎ (16 + 8 ≤ 24)
        → read_value (write_value empty 16 1234567) 24 ≡ read_value empty 24)
    × IsBytes (write_value empty 16 1234567)
read-write_example =
    read-write empty 16 24 1234567 (λ a. omega arith) (omega arith) (omega arith) (omega arith)

abbrev reading : Dram.Stepped
reading = record { state = Dram.top; to_cpu = bus_with true a_read false a_read; storage = λ _. 1 }

abbrev writing : ℕ → Dram.Stepped
writing address = record {
  state = Dram.top;
  to_cpu = bus_with true (packet bus_write_data from_store_stage address 42) false a_read;
  storage = empty;
}

read_served_example :
    steps 103 reading
    ≡ some (record reading {
      to_cpu =
          send_read_response
            (bus_with false a_read false a_read)
            (read_value (λ _. 1) 16)
            from_fetch_stage
            16;
    })
read_served_example = read_served reading refl refl refl (omega arith)

write_served_example :
    steps 102 (writing 32)
    ≡ some (record (writing 32) {
      to_cpu = bus_with false (packet bus_write_data from_store_stage 32 42) false a_read;
      storage = write_value empty 32 42;
    })
write_served_example = write_served (writing 32) refl refl refl (omega arith)

last_word_fails_example : steps 3 (writing 2097144) ≡ none
last_word_fails_example = last_word_fails (writing 2097144) 1 refl refl (omega arith)

-- The memory holds at each address its double.
abbrev double : ℕ → ℕ
double a = a * 2

abbrev missing : L1InsnCache.Stepped
missing = record {
  state = L1InsnCache.top;
  lines = λ _. record { address = 100000000; payload = 5 };
  to_cpu = bus_with true a_read false a_read;
  to_memory = bus_with false a_read true (packet bus_read_response from_fetch_stage 16 32);
  stats = no_stats;
}

step-IsCoherent_example : Coherence.Succeeds double (L1InsnCache.step missing)
step-IsCoherent_example = step-IsCoherent double missing (
  record {
    cached = λ i ne. absurd (ne refl);
    arriving = λ _. ((λ _. refl), refl);
    given = λ e. cc;
    asked = λ _. refl;
  },
  tt,
)

-- A request and a response at once.
abbrev busy_relay : Relay
busy_relay = record {
  to_cpu = bus_with true a_read false a_read;
  to_memory = bus_with false a_read true (packet bus_read_response from_fetch_stage 8 7);
}

l1_data_step-Relays_example : Relays busy_relay (l1_data_step busy_relay)
l1_data_step-Relays_example = l1_data_step-Relays busy_relay

l2_data_step-Relays_example : Relays busy_relay (l2_data_step busy_relay)
l2_data_step-Relays_example = l2_data_step-Relays busy_relay (λ _. refl)

l2_insn_step-Relays_example : RelaysInsn busy_relay (l2_insn_step busy_relay)
l2_insn_step-Relays_example = l2_insn_step-Relays busy_relay (λ _. refl) (λ _. refl)

-- The response of lane 0 has come.
abbrev gathering : VectorMemoryController.Stepped
gathering = record {
  state =
      VectorMemoryController.got
        (record {
          packet_type = read_response_vec64;
          source = from_store_stage;
          address = ascending;
          payload = ascending;
        })
        1 (packet bus_read_response from_store_stage 8 16);
  to_cpu = vec_bus false;
  to_memory = idle_bus;
}

first_lane : (j : ℕ) → j < 1 → lane ascending j ≡ double (lane ascending j)
first_lane zero lt = refl
first_lane (suc j) lt = absurd (omega arith)

step-IsGathering_example : Gather.Succeeds double (VectorMemoryController.step gathering)
step-IsGathering_example =
    step-IsGathering double gathering
      (((λ e. cc), λ e. cc), (refl, (refl, refl), omega arith, (refl, refl), (refl, first_lane)))

abbrev routing : CoreInternalMemoryMultiplexer.Stepped
routing = record {
  state = CoreInternalMemoryMultiplexer.answering (packet bus_read_response from_fetch_stage 8 7);
  out = idle_bus;
  fetch_input = bus_with true a_read false a_read;
  vec_ctrlr_input = bus_with true (packet bus_read_data from_store_stage 8 0) false a_read;
}

step-IsRouted_example : Routing.Succeeds (CoreInternalMemoryMultiplexer.step routing)
step-IsRouted_example =
    step-IsRouted routing
      (record {
        holds = tt;
        fetch = ((λ _. refl), (λ e. cc));
        vec_ctrlr = ((λ _. refl), (λ e. cc));
      })
      ((λ _. refl), (λ _. refl))

-- A response for the second of three cores.
abbrev selecting : CoreSelectionMemoryMultiplexer.Stepped
selecting = record {
  state =
      CoreSelectionMemoryMultiplexer.answering
        (packet bus_read_response (record from_fetch_stage { core_id = 1 }) 8 7);
  out = idle_bus;
  inputs = λ _. idle_bus;
}

step-IsSelected_example :
    Selection.Succeeds 3 selecting.state selecting (CoreSelectionMemoryMultiplexer.step 3 selecting)
step-IsSelected_example =
    step-IsSelected 3 selecting
      (record { held = omega arith; shared = λ e. cc; given = λ ix e. cc }) refl
