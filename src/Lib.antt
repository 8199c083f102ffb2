-- ===== src/Lib.antt =====
-- This library models the simulator of a pipelined vector processor (CoreLib, Simulator) and its
-- assembler (Assembler), and states what makes them correct.
--
-- The parts, and how they interact. The assembler parses a source text into instructions and data
-- objects, places them, links jumps and addresses of labels, and writes a code file and a data file;
-- the simulator loads both files into the DRAM and steps all components in turn until the machine
-- has halted. A core has four stages, connected by one-place buses: the fetch stage sends words to
-- the decode stage, that sends requests to the execute stage, that sends requests to the store stage,
-- and the store stage tells the fetch stage where to go on after a change of control flow. Registers
-- are shared by three stages; two counters for each register say whether a write is still on its way.
-- When the threads of a vector disagree on a conditional jump, the store stage puts those that jump
-- aside in a ring and resumes them at a halt. Behind the stages are the instruction cache and its
-- second level, the vector memory controller, the data caches, the multiplexers and the DRAM,
-- connected by memory buses.
--
-- Files:
-- - Base and its children: shared names, Boolean tests, lists as arrays, machine words, digits of
--   numbers, signed integers.
-- - Defines: CoreLib/include/Defines.h (getOpcode is get_opcode, isValidIndex is is_valid_index).
-- - VectorValue: CoreLib/include/VectorValue.h; RegisterFile: CoreLib/include/RegisterFile.h;
--   DivergenceQueue: CoreLib/include/DivergenceQueue.h; Packets, Bus and its children, GlobalStats:
--   the headers of these names in CoreLib/include.
-- - Stage.Fetch, Stage.Decode, Stage.Execute, Stage.Store: the `run` coroutines of
--   CoreLib/FetchStage.cpp, CoreLib/DecodeStage.cpp, CoreLib/ExecuteStage.cpp, CoreLib/StoreStage.cpp.
-- - Memory.L1InsnCache, Memory.VectorMemoryController, Memory.CoreInternalMemoryMultiplexer,
--   Memory.CoreSelectionMemoryMultiplexer, Memory.Dram: the coroutines of the files of these names in
--   CoreLib. Memory.Relays: CoreLib/L1DataCache.cpp, CoreLib/L2DataCache.cpp,
--   CoreLib/L2InsnCache.cpp and CoreLib/L3Cache.cpp.
-- - Core, CoreCluster, CoreClusterGrid: the headers of these names in CoreLib/include. The state of an
--   owner is a record of the states of its components and buses, and its step makes the steps of its
--   components in the order in which they are registered. Core.FrontEnd lets the components of a core
--   and a memory behind its instruction cache take turns in any order.
--   SimComponentRegistry: the main loop of CoreLib/SimComponentRegistry.cpp.
-- - Assembler.Text, Assembler.Parser and its children: Assembler/parser.cpp. Text has strings and the
--   members of Line; Tokens is tokenize; Constants is isInt16Constant and its like; Registers and
--   Opcodes are the tables; CodeLine is Program::parseCodeLine; Parser itself has parseDataLine and
--   Program::parse. Parser.Spells and Parser.Source say how an instruction and a source text are
--   written down.
-- - Assembler.Insns: getEncodedInstruction of the classes in Assembler/include. Assembler.Meaning says
--   what each instruction asks of the execute stage in terms of its operands alone, and
--   Assembler.Effect which register it writes and with what value. Assembler.Retire sends one
--   instruction through the encoder and three stages, with no other in between.
-- - Assembler.Linker: Assembler/Linker.cpp and the link methods of Assembler/Assembler.cpp.
-- - Assembler.ObjectWriter: Assembler/ObjectWriter.cpp and the write methods of
--   Assembler/include/DataObject.h. Assembler.Main: `main` of Assembler/Assembler.cpp.
-- - Simulator: the two loading functions of Simulator/Simulator.cpp, and in Simulator.Simulate its
--   `main`. Simulator.Toolchain and Simulator.ParsedData follow a program from its source text to the
--   DRAM.
-- - Tests: the theorems at concrete states, and a source text that is assembled, loaded and run by the
--   whole machine.
--
-- Conventions. A coroutine is a step function: its state names the CONTEXT_SWITCH() at which it
-- waits, with the local variables that live there, and a step runs it to the next one. Other
-- components may change the buses between two steps; what a theorem needs of them is in its
-- invariant or among its hypotheses. A failed assertion, an uncaught exception and undefined
-- behaviour are `none`. A machine integer is a natural number with its wrap-around written out, a
-- signed one is its two's complement pattern; signed sums that overflow wrap. A C array is a function
-- of its index where only accesses in range occur, and a list where the accesses are checked. A union
-- is a sum that knows the member written last. A string is the list of its bytes, a file is one too,
-- `none` if it cannot be opened; the functions of ctype are those of the C locale. An error message
-- is the number of its line. The bytes that a short read leaves in a buffer are a parameter.
--
-- No definition uses fuel: loops over a fixed range are structural, an unbounded wait is one step for
-- each round, and the main loop has its own bound of a million rounds.
--
-- Not modelled: logging and printing; the arguments of the two programs and the configuration file
-- that the simulator writes (write_config); C++ coroutine frames (CoreLib/include/Task.h,
-- CoreLib/Task.cpp), which the step functions replace; VerilogGenerator, which is Python and
-- generated code.
pub mod Base
pub mod Defines
pub mod VectorValue
pub mod RegisterFile
pub mod DivergenceQueue
pub mod Packets
pub mod Bus
pub mod GlobalStats
pub mod Stage
pub mod Assembler
pub mod Memory
pub mod Tests
pub mod Simulator
pub mod Core
pub mod CoreCluster
pub mod CoreClusterGrid
pub mod SimComponentRegistry
