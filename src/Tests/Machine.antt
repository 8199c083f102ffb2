-- ===== src/Tests/Machine.antt =====
-- The whole machine as the simulator starts it, with a program from a source text.
use ecc_cpu.Base.{ℕ, Option, some, none, ◌>>=◌, List, [], ◌∷◌, ◌≡◌, refl, ◌+◌}
use ecc_cpu.RegisterFile.{zeroed}
use ecc_cpu.Stage.Fetch.{FetchState, initial_locals}
use ecc_cpu.Stage.Decode.{DecodeState}
use ecc_cpu.Stage.Execute.{ExecuteState}
use ecc_cpu.Stage.Store.{StoreState}
use ecc_cpu.Memory.L1InsnCache.{CacheState, no_address}
use ecc_cpu.Memory.VectorMemoryController.{ControllerState}
use ecc_cpu.Memory.CoreSelectionMemoryMultiplexer
use ecc_cpu.Memory.CoreInternalMemoryMultiplexer
use ecc_cpu.Memory.Dram.{DramState, Storage}
use ecc_cpu.Core.{Core}
use ecc_cpu.CoreCluster.{CoreCluster}
use ecc_cpu.CoreClusterGrid.{CoreClusterGrid, init}
use ecc_cpu.SimComponentRegistry.{run_for, run}
use ecc_cpu.Tests.{
  idle_bus, vec_bus, no_stats, free_fetch_bus, free_decode_bus, free_execute_bus, free_store_bus,
  queue,
}
use ecc_cpu.Base.{true, false}
use ecc_cpu.Assembler.Text.{Text, codes}
use ecc_cpu.Assembler.Main.{assemble}
use ecc_cpu.Simulator.Simulate.{simulate}
use ecc_cpu.VectorValue.{VectorValue}

abbrev pub core : Core
core = record {
  divergence_queue = queue 0 0;
  store_fetch_bus = free_fetch_bus;
  fetch_decode_bus = free_decode_bus;
  decode_execute_bus = free_execute_bus;
  execute_store_bus = free_store_bus;
  regs = zeroed;
  fetch = FetchState.boot;
  fetch_locals = initial_locals (0, 0);
  decode = DecodeState.idle;
  execute = ExecuteState.top;
  store = StoreState.top;
  core_l1d = idle_bus;
  l1i = CacheState.boot;
  l1i_lines = λ _. record { address = no_address; payload = 0 };
  core_l1i = idle_bus;
  l1i_to_l2i = idle_bus;
  l1d_to_l2d = idle_bus;
  store_to_vec_controller_bus = vec_bus false;
  vec_mem_controller = ControllerState.top;
  stats = no_stats;
}

abbrev pub machine : Storage → CoreClusterGrid
machine storage = record {
  l3_dram = idle_bus;
  l2d_multiplexer_bus = idle_bus;
  l2i_multiplexer_bus = idle_bus;
  l2_l3 = idle_bus;
  core_to_l2d = idle_bus;
  core_to_l2i = idle_bus;
  l2di_multiplexer = CoreInternalMemoryMultiplexer.top;
  dram = DramState.top;
  storage = storage;
  core_cluster = record {
    core0 = core;
    main_memory_data_access_multiplexer = CoreSelectionMemoryMultiplexer.top;
    main_memory_insn_access_multiplexer = CoreSelectionMemoryMultiplexer.top;
    sram_multiplexer_bus = idle_bus;
  };
}

-- What thread 3 has in two registers, and the number of cycles, when the simulator has stopped with
-- the files that a text is assembled to.
outcome : Text → Option (ℕ × ℕ × ℕ)
outcome text = do
  (code, data') ← assemble (some text)
  m ← simulate (λ _. 0) (codes "a.bin") (some code) (some data') (machine (λ _. 0))
  let c = m.core_cluster.core0
  some ((c.regs.regs 1).data3, (c.regs.regs 2).data3, c.stats.num_cycles_used)

sum_runs : outcome (codes "\tmov %r1, 42\n\tadd %r2, %r1, -2 # 40\n\thalt\n") ≡ some (42, 40, 242)
unfolding outcome ecc_cpu.Simulator.Simulate.simulate
    ecc_cpu.Memory.CoreSelectionMemoryMultiplexer.send_to_source
    ecc_cpu.Memory.CoreSelectionMemoryMultiplexer.one_input_matches ecc_cpu.Base.for_all
    ecc_cpu.Assembler.Insns.jump_opcode ecc_cpu.Assembler.Insns.encode_load_addr
    ecc_cpu.Assembler.Insns.get_encoded_instruction ecc_cpu.Assembler.Linker.same_text
    ecc_cpu.Assembler.Linker.find ecc_cpu.Assembler.Linker.place_insns
    ecc_cpu.Assembler.Linker.code_dict ecc_cpu.Assembler.Linker.place_fields
    ecc_cpu.Assembler.Linker.place_objs ecc_cpu.Assembler.Linker.data_dict
    ecc_cpu.Assembler.Linker.link_insn ecc_cpu.Assembler.Linker.link_insns
    ecc_cpu.Assembler.Linker.link ecc_cpu.Assembler.Main.assemble
    ecc_cpu.Assembler.ObjectWriter.write_from ecc_cpu.Assembler.ObjectWriter.write_field
    ecc_cpu.Assembler.ObjectWriter.write_fields ecc_cpu.Assembler.ObjectWriter.write_objects
    ecc_cpu.Assembler.ObjectWriter.code_file ecc_cpu.Assembler.Parser.append_field
    ecc_cpu.Assembler.Parser.parse_data_line ecc_cpu.Assembler.Parser.lines_from
    ecc_cpu.Assembler.Parser.parse_line ecc_cpu.Assembler.Parser.parse_lines
    ecc_cpu.Assembler.Parser.parse ecc_cpu.Assembler.Parser.CodeLine.parse_cmp
    ecc_cpu.Assembler.Parser.CodeLine.parse_shl ecc_cpu.Assembler.Parser.CodeLine.parse_mov
    ecc_cpu.Assembler.Parser.CodeLine.parse_store ecc_cpu.Assembler.Parser.CodeLine.parse_load
    ecc_cpu.Assembler.Parser.CodeLine.parse_restore_pc ecc_cpu.Assembler.Parser.CodeLine.parse_add
    ecc_cpu.Assembler.Parser.CodeLine.parse_insn ecc_cpu.Assembler.Parser.CodeLine.parse_code_line
    ecc_cpu.Assembler.Parser.Constants.digits_from ecc_cpu.Assembler.Parser.Constants.magnitude
    ecc_cpu.Assembler.Parser.Constants.signed_number
    ecc_cpu.Assembler.Parser.Constants.is_int_constant
    ecc_cpu.Assembler.Parser.Constants.get_int_constant ecc_cpu.Assembler.Parser.Constants.is_symbol
    ecc_cpu.Assembler.Parser.Opcodes.string_to_opcode
    ecc_cpu.Assembler.Parser.Registers.get_register_id ecc_cpu.Assembler.Parser.Tokens.is_split_char
    ecc_cpu.Assembler.Parser.Tokens.push_token ecc_cpu.Assembler.Parser.Tokens.tokens_from
    ecc_cpu.Assembler.Text.skip_spaces ecc_cpu.Assembler.Text.cut_comment
    ecc_cpu.Assembler.Text.trim ecc_cpu.Assembler.Text.starts_with ecc_cpu.Assembler.Text.ends_with
    ecc_cpu.Bus.DecodeToExecuteBus.init ecc_cpu.Bus.DecodeToExecuteBus.send_req0
    ecc_cpu.Bus.DecodeToExecuteBus.send_req1 ecc_cpu.Bus.DecodeToExecuteBus.send_req2_reg
    ecc_cpu.Bus.DecodeToExecuteBus.send_req2_vec ecc_cpu.Bus.DecodeToExecuteBus.send_req3_reg
    ecc_cpu.Bus.DecodeToExecuteBus.send_req3_vec ecc_cpu.Bus.DecodeToExecuteBus.recv
    ecc_cpu.Bus.ExecuteToStoreBus.init ecc_cpu.Bus.ExecuteToStoreBus.send_none
    ecc_cpu.Bus.ExecuteToStoreBus.send_reg_vec ecc_cpu.Bus.ExecuteToStoreBus.send_vec_vec
    ecc_cpu.Bus.ExecuteToStoreBus.send_address ecc_cpu.Bus.ExecuteToStoreBus.send_2_address
    ecc_cpu.Bus.ExecuteToStoreBus.recv ecc_cpu.Bus.FetchToDecodeBus.init
    ecc_cpu.Bus.FetchToDecodeBus.send ecc_cpu.Bus.FetchToDecodeBus.recv ecc_cpu.Bus.MemoryBus.init
    ecc_cpu.Bus.MemoryBus.send_read_request_data ecc_cpu.Bus.MemoryBus.send_write_request_data
    ecc_cpu.Bus.MemoryBus.send_read_response ecc_cpu.Bus.MemoryBus.accept_request
    ecc_cpu.Bus.MemoryBus.get_response ecc_cpu.Bus.MemoryBus.send_request
    ecc_cpu.Bus.MemoryBus.send_response ecc_cpu.Bus.StoreToFetchBus.init
    ecc_cpu.Bus.StoreToFetchBus.send ecc_cpu.Bus.StoreToFetchBus.recv ecc_cpu.Bus.VecMemoryBus.init
    ecc_cpu.Bus.VecMemoryBus.send_read_request_vec ecc_cpu.Bus.VecMemoryBus.send_write_request_vec
    ecc_cpu.Bus.VecMemoryBus.accept_request ecc_cpu.Bus.VecMemoryBus.accept_response
    ecc_cpu.Bus.VecMemoryBus.send_response ecc_cpu.Core.init ecc_cpu.Core.step_fetch
    ecc_cpu.Core.step_store ecc_cpu.Core.step_decode ecc_cpu.Core.step_execute ecc_cpu.Core.step_l1d
    ecc_cpu.Core.step_l1i ecc_cpu.Core.step_vec_mem_controller ecc_cpu.Core.step
    ecc_cpu.CoreCluster.init ecc_cpu.CoreCluster.step_data_multiplexer
    ecc_cpu.CoreCluster.step_insn_multiplexer ecc_cpu.CoreClusterGrid.init
    ecc_cpu.CoreClusterGrid.step_l2d ecc_cpu.CoreClusterGrid.step_l2i
    ecc_cpu.CoreClusterGrid.step_l2di_multiplexer ecc_cpu.CoreClusterGrid.step_l3
    ecc_cpu.CoreClusterGrid.step_dram ecc_cpu.CoreClusterGrid.step_core0
    ecc_cpu.CoreClusterGrid.step_data ecc_cpu.CoreClusterGrid.step_insn ecc_cpu.CoreClusterGrid.step
    ecc_cpu.CoreClusterGrid.grid_has_halted ecc_cpu.Defines.get_opcode ecc_cpu.DivergenceQueue.init
    ecc_cpu.DivergenceQueue.is_empty ecc_cpu.DivergenceQueue.get_next_pos
    ecc_cpu.DivergenceQueue.push_to_front ecc_cpu.DivergenceQueue.get_back
    ecc_cpu.DivergenceQueue.advance_read_pos ecc_cpu.DivergenceQueue.advance_write_pos
    ecc_cpu.GlobalStats.inc_num_l1_insn_cache_hits
    ecc_cpu.GlobalStats.inc_num_vector_local_divergences ecc_cpu.GlobalStats.inc_num_cycles_used
    ecc_cpu.GlobalStats.inc_wait_for_operand_fetch ecc_cpu.GlobalStats.inc_fetched_insn_wait
    ecc_cpu.Memory.CoreInternalMemoryMultiplexer.take_response
    ecc_cpu.Memory.CoreInternalMemoryMultiplexer.take_other
    ecc_cpu.Memory.CoreInternalMemoryMultiplexer.take_fetch
    ecc_cpu.Memory.CoreInternalMemoryMultiplexer.forward_fetch
    ecc_cpu.Memory.CoreInternalMemoryMultiplexer.forward_other
    ecc_cpu.Memory.CoreInternalMemoryMultiplexer.answer
    ecc_cpu.Memory.CoreInternalMemoryMultiplexer.step_from
    ecc_cpu.Memory.CoreSelectionMemoryMultiplexer.take_response
    ecc_cpu.Memory.CoreSelectionMemoryMultiplexer.scan
    ecc_cpu.Memory.CoreSelectionMemoryMultiplexer.forward
    ecc_cpu.Memory.CoreSelectionMemoryMultiplexer.answer
    ecc_cpu.Memory.CoreSelectionMemoryMultiplexer.step_from
    ecc_cpu.Memory.Dram.initial_write_to_global_memory ecc_cpu.Memory.Dram.read_value
    ecc_cpu.Memory.Dram.write_from ecc_cpu.Memory.Dram.read_after ecc_cpu.Memory.Dram.write_after
    ecc_cpu.Memory.Dram.serve ecc_cpu.Memory.Dram.step_from
    ecc_cpu.Memory.L1InsnCache.get_l1_insn_cache_index ecc_cpu.Memory.L1InsnCache.take_response
    ecc_cpu.Memory.L1InsnCache.answer_hit ecc_cpu.Memory.L1InsnCache.forward_miss
    ecc_cpu.Memory.L1InsnCache.answer ecc_cpu.Memory.L1InsnCache.look_up
    ecc_cpu.Memory.L1InsnCache.fill ecc_cpu.Memory.L1InsnCache.step_from
    ecc_cpu.Memory.Relays.get_l1_data_cache_index ecc_cpu.Memory.Relays.pass_request
    ecc_cpu.Memory.Relays.pass_response ecc_cpu.Memory.Relays.l1_data_step
    ecc_cpu.Memory.Relays.l2_data_step ecc_cpu.Memory.Relays.l3_step
    ecc_cpu.Memory.Relays.pass_insn_request ecc_cpu.Memory.Relays.pass_insn_response
    ecc_cpu.Memory.Relays.l2_insn_step ecc_cpu.Memory.VectorMemoryController.await_response
    ecc_cpu.Memory.VectorMemoryController.read_lane ecc_cpu.Memory.VectorMemoryController.read_loop
    ecc_cpu.Memory.VectorMemoryController.write_lane
    ecc_cpu.Memory.VectorMemoryController.write_loop ecc_cpu.Memory.VectorMemoryController.fill_lane
    ecc_cpu.Memory.VectorMemoryController.serve ecc_cpu.Memory.VectorMemoryController.step_from
    ecc_cpu.RegisterFile.init ecc_cpu.RegisterFile.mark_invalid ecc_cpu.RegisterFile.mark_valid
    ecc_cpu.RegisterFile.is_valid ecc_cpu.RegisterFile.set ecc_cpu.RegisterFile.get
    ecc_cpu.RegisterFile.set_machine_flag ecc_cpu.RegisterFile.set_has_halted
    ecc_cpu.RegisterFile.has_halted ecc_cpu.SimComponentRegistry.run_for ecc_cpu.Simulator.load_code
    ecc_cpu.Simulator.read_code_memory_dump ecc_cpu.Simulator.load_data
    ecc_cpu.Simulator.read_data_memory_dump ecc_cpu.Stage.Decode.get_expected_cond_jump_flags_mask
    ecc_cpu.Stage.Decode.decode_cond_jump ecc_cpu.Stage.Decode.decode_or_r0
    ecc_cpu.Stage.Decode.decode_store ecc_cpu.Stage.Decode.decode_cmp
    ecc_cpu.Stage.Decode.decode_add ecc_cpu.Stage.Decode.decode_const8
    ecc_cpu.Stage.Decode.decode_load ecc_cpu.Stage.Decode.decode_restore_pc
    ecc_cpu.Stage.Decode.decode_move ecc_cpu.Stage.Decode.decode_op ecc_cpu.Stage.Decode.decode_insn
    ecc_cpu.Stage.Decode.step ecc_cpu.Stage.Execute.get_cmp_mask ecc_cpu.Stage.Execute.jump_target
    ecc_cpu.Stage.Execute.write_back ecc_cpu.Stage.Execute.branch
    ecc_cpu.Stage.Execute.execute_cond_jmp ecc_cpu.Stage.Execute.execute_cmp
    ecc_cpu.Stage.Execute.execute_op ecc_cpu.Stage.Execute.execute_insn ecc_cpu.Stage.Execute.accept
    ecc_cpu.Stage.Execute.step_from ecc_cpu.Stage.Fetch.get_insn_data
    ecc_cpu.Stage.Fetch.get_address_to_fetch_from_pc ecc_cpu.Stage.Fetch.changes_control_flow
    ecc_cpu.Stage.Fetch.select_insn ecc_cpu.Stage.Fetch.select ecc_cpu.Stage.Fetch.await_target_loop
    ecc_cpu.Stage.Fetch.await_response_loop ecc_cpu.Stage.Fetch.emit ecc_cpu.Stage.Fetch.look_up
    ecc_cpu.Stage.Fetch.step_from ecc_cpu.Stage.Store.store_value_into_reg
    ecc_cpu.Stage.Store.store_reg_into_mem ecc_cpu.Stage.Store.await_response
    ecc_cpu.Stage.Store.load_mem_into_reg ecc_cpu.Stage.Store.finish_load
    ecc_cpu.Stage.Store.store_jmp ecc_cpu.Stage.Store.store_cjmp ecc_cpu.Stage.Store.store_halt
    ecc_cpu.Stage.Store.resume ecc_cpu.Stage.Store.store_op ecc_cpu.Stage.Store.step_from
    ecc_cpu.VectorValue.set_lane ecc_cpu.VectorValue.get ecc_cpu.VectorValue.or_shift_left
    ecc_cpu.VectorValue.shift_left ecc_cpu.VectorValue.add ecc_cpu.VectorValue.bit_and_vec
    ecc_cpu.VectorValue.all_equal ecc_cpu.VectorValue.get_compare_result
    ecc_cpu.VectorValue.compare_vecs ecc_cpu.VectorValue.are_all_adjacent_memory_addresses
    ecc_cpu.VectorValue.reduce_to_uint64_t
sum_runs = refl
