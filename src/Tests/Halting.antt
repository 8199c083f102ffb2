-- ===== src/Tests/Halting.antt =====
-- The theorem on CoreLib/SimComponentRegistry.cpp at a machine that is about to halt.
use ecc_cpu.Base.{zero, suc, ◌≡◌, subst, refl, true, false, inl, Option, some, none, arith}
use mathlib.Core.Option.{some-injective}
use ecc_cpu.Defines.{StorageStageOpcode}
use ecc_cpu.Stage.Store.{StoreState}
use ecc_cpu.CoreClusterGrid
use ecc_cpu.CoreClusterGrid.{CoreClusterGrid, grid_has_halted}
use ecc_cpu.RegisterFile.{has_halted}
use ecc_cpu.SimComponentRegistry.{run}
use ecc_cpu.SimComponentRegistry.Halting.{steps, RunsOn, run-Halts}
use ecc_cpu.Tests.{a_split}
use ecc_cpu.Tests.Machine.{core, machine}

-- The store stage has received a halt, and no context waits.
abbrev halting : CoreClusterGrid
halting =
    let m : CoreClusterGrid = machine (λ _. 0) in
    record m {
      core_cluster = record m.core_cluster {
        core0 = record core {
          store = StoreState.storing (record a_split { opcode = StorageStageOpcode.halt });
        };
      };
    }

abbrev or_else : Option CoreClusterGrid → CoreClusterGrid → CoreClusterGrid
or_else none m = m
or_else (some m') m = m'

abbrev halted : CoreClusterGrid
halted = or_else (CoreClusterGrid.step halting) halting

halting-steps : steps 1 halting ≡ some halted
unfolding steps ecc_cpu.Memory.CoreSelectionMemoryMultiplexer.send_to_source
    ecc_cpu.Memory.CoreSelectionMemoryMultiplexer.one_input_matches
    ecc_cpu.Bus.DecodeToExecuteBus.init ecc_cpu.Bus.DecodeToExecuteBus.send_req0
    ecc_cpu.Bus.DecodeToExecuteBus.send_req1 ecc_cpu.Bus.DecodeToExecuteBus.send_req2_reg
    ecc_cpu.Bus.DecodeToExecuteBus.send_req2_vec ecc_cpu.Bus.DecodeToExecuteBus.send_req3_reg
    ecc_cpu.Bus.DecodeToExecuteBus.send_req3_vec ecc_cpu.Bus.DecodeToExecuteBus.recv
    ecc_cpu.Bus.ExecuteToStoreBus.init ecc_cpu.Bus.ExecuteToStoreBus.send_none
    ecc_cpu.Bus.ExecuteToStoreBus.send_reg_vec ecc_cpu.Bus.ExecuteToStoreBus.send_vec_vec
    ecc_cpu.Bus.ExecuteToStoreBus.send_address ecc_cpu.Bus.ExecuteToStoreBus.send_2_address
    ecc_cpu.Bus.ExecuteToStoreBus.recv ecc_cpu.Bus.FetchToDecodeBus.init
    ecc_cpu.Bus.FetchToDecodeBus.send ecc_cpu.Bus.FetchToDecodeBus.recv ecc_cpu.Bus.MemoryBus.init
    ecc_cpu.Bus.MemoryBus.send_read_request_data ecc_cpu.Bus.MemoryBus.send_write_request_data
    ecc_cpu.Bus.MemoryBus.send_read_response ecc_cpu.Bus.MemoryBus.accept_request
    ecc_cpu.Bus.MemoryBus.get_response ecc_cpu.Bus.MemoryBus.send_request
    ecc_cpu.Bus.MemoryBus.send_response ecc_cpu.Bus.StoreToFetchBus.init
    ecc_cpu.Bus.StoreToFetchBus.send ecc_cpu.Bus.StoreToFetchBus.recv ecc_cpu.Bus.VecMemoryBus.init
    ecc_cpu.Bus.VecMemoryBus.send_read_request_vec ecc_cpu.Bus.VecMemoryBus.send_write_request_vec
    ecc_cpu.Bus.VecMemoryBus.accept_request ecc_cpu.Bus.VecMemoryBus.accept_response
    ecc_cpu.Bus.VecMemoryBus.send_response ecc_cpu.Core.init ecc_cpu.Core.step_fetch
    ecc_cpu.Core.step_store ecc_cpu.Core.step_decode ecc_cpu.Core.step_execute ecc_cpu.Core.step_l1d
    ecc_cpu.Core.step_l1i ecc_cpu.Core.step_vec_mem_controller ecc_cpu.Core.step
    ecc_cpu.CoreCluster.init ecc_cpu.CoreCluster.step_data_multiplexer
    ecc_cpu.CoreCluster.step_insn_multiplexer ecc_cpu.CoreClusterGrid.init
    ecc_cpu.CoreClusterGrid.step_l2d ecc_cpu.CoreClusterGrid.step_l2i
    ecc_cpu.CoreClusterGrid.step_l2di_multiplexer ecc_cpu.CoreClusterGrid.step_l3
    ecc_cpu.CoreClusterGrid.step_dram ecc_cpu.CoreClusterGrid.step_core0
    ecc_cpu.CoreClusterGrid.step_data ecc_cpu.CoreClusterGrid.step_insn ecc_cpu.CoreClusterGrid.step
    ecc_cpu.CoreClusterGrid.grid_has_halted ecc_cpu.DivergenceQueue.init
    ecc_cpu.DivergenceQueue.is_empty ecc_cpu.DivergenceQueue.get_next_pos
    ecc_cpu.DivergenceQueue.push_to_front ecc_cpu.DivergenceQueue.get_back
    ecc_cpu.DivergenceQueue.advance_read_pos ecc_cpu.DivergenceQueue.advance_write_pos
    ecc_cpu.GlobalStats.inc_num_l1_insn_cache_hits
    ecc_cpu.GlobalStats.inc_num_vector_local_divergences ecc_cpu.GlobalStats.inc_num_cycles_used
    ecc_cpu.GlobalStats.inc_wait_for_operand_fetch ecc_cpu.GlobalStats.inc_fetched_insn_wait
    ecc_cpu.Memory.CoreInternalMemoryMultiplexer.take_response
    ecc_cpu.Memory.CoreInternalMemoryMultiplexer.take_other
    ecc_cpu.Memory.CoreInternalMemoryMultiplexer.take_fetch
    ecc_cpu.Memory.CoreInternalMemoryMultiplexer.forward_fetch
    ecc_cpu.Memory.CoreInternalMemoryMultiplexer.forward_other
    ecc_cpu.Memory.CoreInternalMemoryMultiplexer.answer
    ecc_cpu.Memory.CoreInternalMemoryMultiplexer.step_from
    ecc_cpu.Memory.CoreSelectionMemoryMultiplexer.take_response
    ecc_cpu.Memory.CoreSelectionMemoryMultiplexer.scan
    ecc_cpu.Memory.CoreSelectionMemoryMultiplexer.forward
    ecc_cpu.Memory.CoreSelectionMemoryMultiplexer.answer
    ecc_cpu.Memory.CoreSelectionMemoryMultiplexer.step_from
    ecc_cpu.Memory.Dram.initial_write_to_global_memory ecc_cpu.Memory.Dram.read_value
    ecc_cpu.Memory.Dram.write_from ecc_cpu.Memory.Dram.read_after ecc_cpu.Memory.Dram.write_after
    ecc_cpu.Memory.Dram.serve ecc_cpu.Memory.Dram.step_from
    ecc_cpu.Memory.L1InsnCache.get_l1_insn_cache_index ecc_cpu.Memory.L1InsnCache.take_response
    ecc_cpu.Memory.L1InsnCache.answer_hit ecc_cpu.Memory.L1InsnCache.forward_miss
    ecc_cpu.Memory.L1InsnCache.answer ecc_cpu.Memory.L1InsnCache.look_up
    ecc_cpu.Memory.L1InsnCache.fill ecc_cpu.Memory.L1InsnCache.step_from
    ecc_cpu.Memory.Relays.get_l1_data_cache_index ecc_cpu.Memory.Relays.pass_request
    ecc_cpu.Memory.Relays.pass_response ecc_cpu.Memory.Relays.l1_data_step
    ecc_cpu.Memory.Relays.l2_data_step ecc_cpu.Memory.Relays.l3_step
    ecc_cpu.Memory.Relays.pass_insn_request ecc_cpu.Memory.Relays.pass_insn_response
    ecc_cpu.Memory.Relays.l2_insn_step ecc_cpu.Memory.VectorMemoryController.await_response
    ecc_cpu.Memory.VectorMemoryController.read_lane ecc_cpu.Memory.VectorMemoryController.read_loop
    ecc_cpu.Memory.VectorMemoryController.write_lane
    ecc_cpu.Memory.VectorMemoryController.write_loop ecc_cpu.Memory.VectorMemoryController.fill_lane
    ecc_cpu.Memory.VectorMemoryController.serve ecc_cpu.Memory.VectorMemoryController.step_from
    ecc_cpu.RegisterFile.init ecc_cpu.RegisterFile.mark_invalid ecc_cpu.RegisterFile.mark_valid
    ecc_cpu.RegisterFile.is_valid ecc_cpu.RegisterFile.set ecc_cpu.RegisterFile.get
    ecc_cpu.RegisterFile.set_machine_flag ecc_cpu.RegisterFile.set_has_halted
    ecc_cpu.RegisterFile.has_halted ecc_cpu.Stage.Decode.get_expected_cond_jump_flags_mask
    ecc_cpu.Stage.Decode.decode_cond_jump ecc_cpu.Stage.Decode.decode_or_r0
    ecc_cpu.Stage.Decode.decode_store ecc_cpu.Stage.Decode.decode_cmp
    ecc_cpu.Stage.Decode.decode_add ecc_cpu.Stage.Decode.decode_const8
    ecc_cpu.Stage.Decode.decode_load ecc_cpu.Stage.Decode.decode_restore_pc
    ecc_cpu.Stage.Decode.decode_move ecc_cpu.Stage.Decode.decode_op ecc_cpu.Stage.Decode.decode_insn
    ecc_cpu.Stage.Decode.step ecc_cpu.Stage.Execute.get_cmp_mask ecc_cpu.Stage.Execute.jump_target
    ecc_cpu.Stage.Execute.write_back ecc_cpu.Stage.Execute.branch
    ecc_cpu.Stage.Execute.execute_cond_jmp ecc_cpu.Stage.Execute.execute_cmp
    ecc_cpu.Stage.Execute.execute_op ecc_cpu.Stage.Execute.execute_insn ecc_cpu.Stage.Execute.accept
    ecc_cpu.Stage.Execute.step_from ecc_cpu.Stage.Fetch.get_insn_data
    ecc_cpu.Stage.Fetch.get_address_to_fetch_from_pc ecc_cpu.Stage.Fetch.changes_control_flow
    ecc_cpu.Stage.Fetch.select_insn ecc_cpu.Stage.Fetch.select ecc_cpu.Stage.Fetch.await_target_loop
    ecc_cpu.Stage.Fetch.await_response_loop ecc_cpu.Stage.Fetch.emit ecc_cpu.Stage.Fetch.look_up
    ecc_cpu.Stage.Fetch.step_from ecc_cpu.Stage.Store.store_value_into_reg
    ecc_cpu.Stage.Store.store_reg_into_mem ecc_cpu.Stage.Store.await_response
    ecc_cpu.Stage.Store.load_mem_into_reg ecc_cpu.Stage.Store.finish_load
    ecc_cpu.Stage.Store.store_jmp ecc_cpu.Stage.Store.store_cjmp ecc_cpu.Stage.Store.store_halt
    ecc_cpu.Stage.Store.resume ecc_cpu.Stage.Store.store_op ecc_cpu.Stage.Store.step_from
halting-steps = refl

halted-halts : grid_has_halted halted ≡ true
unfolding ecc_cpu.Memory.CoreSelectionMemoryMultiplexer.send_to_source
    ecc_cpu.Memory.CoreSelectionMemoryMultiplexer.one_input_matches
    ecc_cpu.Bus.DecodeToExecuteBus.init ecc_cpu.Bus.DecodeToExecuteBus.send_req0
    ecc_cpu.Bus.DecodeToExecuteBus.send_req1 ecc_cpu.Bus.DecodeToExecuteBus.send_req2_reg
    ecc_cpu.Bus.DecodeToExecuteBus.send_req2_vec ecc_cpu.Bus.DecodeToExecuteBus.send_req3_reg
    ecc_cpu.Bus.DecodeToExecuteBus.send_req3_vec ecc_cpu.Bus.DecodeToExecuteBus.recv
    ecc_cpu.Bus.ExecuteToStoreBus.init ecc_cpu.Bus.ExecuteToStoreBus.send_none
    ecc_cpu.Bus.ExecuteToStoreBus.send_reg_vec ecc_cpu.Bus.ExecuteToStoreBus.send_vec_vec
    ecc_cpu.Bus.ExecuteToStoreBus.send_address ecc_cpu.Bus.ExecuteToStoreBus.send_2_address
    ecc_cpu.Bus.ExecuteToStoreBus.recv ecc_cpu.Bus.FetchToDecodeBus.init
    ecc_cpu.Bus.FetchToDecodeBus.send ecc_cpu.Bus.FetchToDecodeBus.recv ecc_cpu.Bus.MemoryBus.init
    ecc_cpu.Bus.MemoryBus.send_read_request_data ecc_cpu.Bus.MemoryBus.send_write_request_data
    ecc_cpu.Bus.MemoryBus.send_read_response ecc_cpu.Bus.MemoryBus.accept_request
    ecc_cpu.Bus.MemoryBus.get_response ecc_cpu.Bus.MemoryBus.send_request
    ecc_cpu.Bus.MemoryBus.send_response ecc_cpu.Bus.StoreToFetchBus.init
    ecc_cpu.Bus.StoreToFetchBus.send ecc_cpu.Bus.StoreToFetchBus.recv ecc_cpu.Bus.VecMemoryBus.init
    ecc_cpu.Bus.VecMemoryBus.send_read_request_vec ecc_cpu.Bus.VecMemoryBus.send_write_request_vec
    ecc_cpu.Bus.VecMemoryBus.accept_request ecc_cpu.Bus.VecMemoryBus.accept_response
    ecc_cpu.Bus.VecMemoryBus.send_response ecc_cpu.Core.init ecc_cpu.Core.step_fetch
    ecc_cpu.Core.step_store ecc_cpu.Core.step_decode ecc_cpu.Core.step_execute ecc_cpu.Core.step_l1d
    ecc_cpu.Core.step_l1i ecc_cpu.Core.step_vec_mem_controller ecc_cpu.Core.step
    ecc_cpu.CoreCluster.init ecc_cpu.CoreCluster.step_data_multiplexer
    ecc_cpu.CoreCluster.step_insn_multiplexer ecc_cpu.CoreClusterGrid.init
    ecc_cpu.CoreClusterGrid.step_l2d ecc_cpu.CoreClusterGrid.step_l2i
    ecc_cpu.CoreClusterGrid.step_l2di_multiplexer ecc_cpu.CoreClusterGrid.step_l3
    ecc_cpu.CoreClusterGrid.step_dram ecc_cpu.CoreClusterGrid.step_core0
    ecc_cpu.CoreClusterGrid.step_data ecc_cpu.CoreClusterGrid.step_insn ecc_cpu.CoreClusterGrid.step
    ecc_cpu.CoreClusterGrid.grid_has_halted ecc_cpu.DivergenceQueue.init
    ecc_cpu.DivergenceQueue.is_empty ecc_cpu.DivergenceQueue.get_next_pos
    ecc_cpu.DivergenceQueue.push_to_front ecc_cpu.DivergenceQueue.get_back
    ecc_cpu.DivergenceQueue.advance_read_pos ecc_cpu.DivergenceQueue.advance_write_pos
    ecc_cpu.GlobalStats.inc_num_l1_insn_cache_hits
    ecc_cpu.GlobalStats.inc_num_vector_local_divergences ecc_cpu.GlobalStats.inc_num_cycles_used
    ecc_cpu.GlobalStats.inc_wait_for_operand_fetch ecc_cpu.GlobalStats.inc_fetched_insn_wait
    ecc_cpu.Memory.CoreInternalMemoryMultiplexer.take_response
    ecc_cpu.Memory.CoreInternalMemoryMultiplexer.take_other
    ecc_cpu.Memory.CoreInternalMemoryMultiplexer.take_fetch
    ecc_cpu.Memory.CoreInternalMemoryMultiplexer.forward_fetch
    ecc_cpu.Memory.CoreInternalMemoryMultiplexer.forward_other
    ecc_cpu.Memory.CoreInternalMemoryMultiplexer.answer
    ecc_cpu.Memory.CoreInternalMemoryMultiplexer.step_from
    ecc_cpu.Memory.CoreSelectionMemoryMultiplexer.take_response
    ecc_cpu.Memory.CoreSelectionMemoryMultiplexer.scan
    ecc_cpu.Memory.CoreSelectionMemoryMultiplexer.forward
    ecc_cpu.Memory.CoreSelectionMemoryMultiplexer.answer
    ecc_cpu.Memory.CoreSelectionMemoryMultiplexer.step_from
    ecc_cpu.Memory.Dram.initial_write_to_global_memory ecc_cpu.Memory.Dram.read_value
    ecc_cpu.Memory.Dram.write_from ecc_cpu.Memory.Dram.read_after ecc_cpu.Memory.Dram.write_after
    ecc_cpu.Memory.Dram.serve ecc_cpu.Memory.Dram.step_from
    ecc_cpu.Memory.L1InsnCache.get_l1_insn_cache_index ecc_cpu.Memory.L1InsnCache.take_response
    ecc_cpu.Memory.L1InsnCache.answer_hit ecc_cpu.Memory.L1InsnCache.forward_miss
    ecc_cpu.Memory.L1InsnCache.answer ecc_cpu.Memory.L1InsnCache.look_up
    ecc_cpu.Memory.L1InsnCache.fill ecc_cpu.Memory.L1InsnCache.step_from
    ecc_cpu.Memory.Relays.get_l1_data_cache_index ecc_cpu.Memory.Relays.pass_request
    ecc_cpu.Memory.Relays.pass_response ecc_cpu.Memory.Relays.l1_data_step
    ecc_cpu.Memory.Relays.l2_data_step ecc_cpu.Memory.Relays.l3_step
    ecc_cpu.Memory.Relays.pass_insn_request ecc_cpu.Memory.Relays.pass_insn_response
    ecc_cpu.Memory.Relays.l2_insn_step ecc_cpu.Memory.VectorMemoryController.await_response
    ecc_cpu.Memory.VectorMemoryController.read_lane ecc_cpu.Memory.VectorMemoryController.read_loop
    ecc_cpu.Memory.VectorMemoryController.write_lane
    ecc_cpu.Memory.VectorMemoryController.write_loop ecc_cpu.Memory.VectorMemoryController.fill_lane
    ecc_cpu.Memory.VectorMemoryController.serve ecc_cpu.Memory.VectorMemoryController.step_from
    ecc_cpu.RegisterFile.init ecc_cpu.RegisterFile.mark_invalid ecc_cpu.RegisterFile.mark_valid
    ecc_cpu.RegisterFile.is_valid ecc_cpu.RegisterFile.set ecc_cpu.RegisterFile.get
    ecc_cpu.RegisterFile.set_machine_flag ecc_cpu.RegisterFile.set_has_halted
    ecc_cpu.RegisterFile.has_halted ecc_cpu.Stage.Decode.get_expected_cond_jump_flags_mask
    ecc_cpu.Stage.Decode.decode_cond_jump ecc_cpu.Stage.Decode.decode_or_r0
    ecc_cpu.Stage.Decode.decode_store ecc_cpu.Stage.Decode.decode_cmp
    ecc_cpu.Stage.Decode.decode_add ecc_cpu.Stage.Decode.decode_const8
    ecc_cpu.Stage.Decode.decode_load ecc_cpu.Stage.Decode.decode_restore_pc
    ecc_cpu.Stage.Decode.decode_move ecc_cpu.Stage.Decode.decode_op ecc_cpu.Stage.Decode.decode_insn
    ecc_cpu.Stage.Decode.step ecc_cpu.Stage.Execute.get_cmp_mask ecc_cpu.Stage.Execute.jump_target
    ecc_cpu.Stage.Execute.write_back ecc_cpu.Stage.Execute.branch
    ecc_cpu.Stage.Execute.execute_cond_jmp ecc_cpu.Stage.Execute.execute_cmp
    ecc_cpu.Stage.Execute.execute_op ecc_cpu.Stage.Execute.execute_insn ecc_cpu.Stage.Execute.accept
    ecc_cpu.Stage.Execute.step_from ecc_cpu.Stage.Fetch.get_insn_data
    ecc_cpu.Stage.Fetch.get_address_to_fetch_from_pc ecc_cpu.Stage.Fetch.changes_control_flow
    ecc_cpu.Stage.Fetch.select_insn ecc_cpu.Stage.Fetch.select ecc_cpu.Stage.Fetch.await_target_loop
    ecc_cpu.Stage.Fetch.await_response_loop ecc_cpu.Stage.Fetch.emit ecc_cpu.Stage.Fetch.look_up
    ecc_cpu.Stage.Fetch.step_from ecc_cpu.Stage.Store.store_value_into_reg
    ecc_cpu.Stage.Store.store_reg_into_mem ecc_cpu.Stage.Store.await_response
    ecc_cpu.Stage.Store.load_mem_into_reg ecc_cpu.Stage.Store.finish_load
    ecc_cpu.Stage.Store.store_jmp ecc_cpu.Stage.Store.store_cjmp ecc_cpu.Stage.Store.store_halt
    ecc_cpu.Stage.Store.resume ecc_cpu.Stage.Store.store_op ecc_cpu.Stage.Store.step_from
halted-halts = refl

halting-RunsOn : RunsOn 1 halting
unfolding steps grid_has_halted has_halted
halting-RunsOn zero m1 lt e =
    subst (λ (m : CoreClusterGrid). grid_has_halted m ≡ false) (some-injective _ _ e) refl
halting-RunsOn (suc j) m1 lt e = absurd (omega arith)

run-Halts_example : run halting ≡ some halted
run-Halts_example =
    run-Halts 1 halting halted (omega arith) halting-steps halting-RunsOn (inl halted-halts)
