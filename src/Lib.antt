-- ===== src/Lib.antt =====
-- Verification of the processors of CPU.cpp.
--
-- The repository holds several processor designs. This library models the out-of-order core of
-- superscalar, from its parts to the cycle that composes them, and, of the other processors, the
-- shared decoder, the control units and the pipeline's hazard unit: state records with one function
-- per operation.
--
-- How the parts interact: rename gives each instruction a physical register from the free list and
-- reads its sources through the alias table; dispatch puts it into the reorder buffer and the issue
-- queue; the issue unit takes ready instructions out of the queue; memory operations stand in the
-- load/store queue and the store buffer and reach the memory through the data cache; commit takes
-- completed entries from the head of the reorder buffer, in order, and frees the registers that they
-- displaced; a mispredicted branch makes the recovery unit cut the reorder buffer, restore the alias
-- table, release the registers and clear the issue queue. A cycle of the core runs these in the order
-- commit, memory, branch, ALU, then decode, rename and dispatch of the pair that the fetch/decode
-- register holds. That pair is an input of the model's cycle and the redirect of the fetch an output,
-- so what is proved holds for every sequence of fetched pairs; the fetch stages that follow in the
-- same cycle are a definition of their own, with the redirect as its input.
--
-- Files, with the code they are about (paths from the repository's root):
-- - Isa: include/isa/Opcode.hpp, InstructionFormat.hpp and Registers.hpp,
--   components/ControlSignals.hpp (the ALU's operations), superscalar/core/decode/DecodeTypes.hpp.
-- - Decode/Instruction, Decode/Decoder, Decode/Unit: include/isa/Instruction.hpp and
--   InstructionDecoder.hpp, superscalar/core/decode/DecodeUnit.hpp. Decode/Fields and
--   Decode/Bits have the fields as arithmetic, Decode/RoundTrip the documented layout.
-- - Control/SingleCycle, Control/Pipelined, Control/MultiCycle:
--   single_cycle_cpu/datapath/ControlUnit.hpp, pipelined_cpu/core/ControlUnit.hpp,
--   multi_cycle_cpu/core/FSMControlUnit.hpp, with Control/Agree and Control/MultiCycle/Cycles.
-- - Hazard: pipelined_cpu/core/HazardUnit.hpp and pipelined_cpu/multiplexers.
-- - Rename/Bundle, Rename/FreeList, Rename/AliasTable, Rename/RegisterFile, Rename/Renamer:
--   superscalar/core/rename and superscalar/core/issue/PhysicalRegisterFile.hpp. Rename/Conserve and
--   Rename/TwoWide hold the theorems.
-- - Ring, Rob/Entry, Rob/Buffer: superscalar/core/dispatch/ReOrderBuffer.hpp and ROBEntry.hpp.
--   Rob/Queue is the specification, a bounded queue; Rob/Contents has the view and the invariant;
--   Rob/Allocate, Rob/Complete, Rob/Commit, Rob/Squash and Rob/Trace hold the refinement.
-- - Memory/LoadStoreQueue, Memory/StoreBuffer: superscalar/core/memory/LoadStoreQueue.hpp and
--   superscalar/core/commit/StoreBuffer.hpp.
-- - Memory/DataMemory, Memory/DataCache: superscalar/core/memory/data. Memory/DataCache/View has the
--   memory as a reader sees it; the files beside it hold the theorems.
-- - Issue/Queue, Issue/Unit, Issue/Dispatch: superscalar/core/issue and
--   superscalar/core/dispatch/DispatchUnit.hpp, with the theorems in Issue/Counting, Issue/Wakeup,
--   Issue/Ready, Issue/Progress, Issue/Accepted, Issue/Holds, Issue/Entered and Issue/Atomic.
-- - Retire/ArchitecturalFile, Retire/Unit: superscalar/core/commit, with Retire/Told and Retire/InOrder.
-- - Branch/Predictor, Branch/PredictionUnit, Branch/Recovery: superscalar/core/branch, with
--   Branch/Saturation and Branch/Restored.
-- - Execute/Branch, Execute/Memory: superscalar/core/branch/BranchExecutionUnit.hpp and
--   superscalar/core/execution/MemoryExecutionUnit.hpp, with Execute/Branch/Checked and
--   Execute/Memory/Kept. Execute/Alu: the integer operations of
--   superscalar/datapath/SuperScalarCPU.hpp.
--   Execute/Pipeline: superscalar/core/execution/IntegerExecutionPipeline.hpp.
-- - Fetch/InstructionCache, Fetch/CacheController: superscalar/core/memory/instruction/CacheLine.hpp
--   and InstructionCacheController.hpp, with Fetch/LineFill and Fetch/Refilled.
-- - Fetch/ProgramCounter, Fetch/Unit, Fetch/DecodeReg: components/ProgramCounter.hpp and
--   superscalar/core/fetch, with Fetch/Stream and Fetch/Latched.
-- - Fetch/InstructionMemory: superscalar/core/memory/instruction/SuperScalarInstructionMemory.hpp.
-- - Cpu/FetchStage: the fetch stages of superscalar/datapath/SuperScalarCPU.hpp, with
--   Cpu/FetchFollows.
-- - Cpu/State, Cpu/Backend, Cpu/Frontend, Cpu/Step: superscalar/datapath/SuperScalarCPU.hpp. The
--   invariant stands in Cpu/Parts, Cpu/Kept and Cpu/Reachable, the run loop in Cpu/Termination,
--   what is never executed in Cpu/Stuck, and the empty fetch in Cpu/Bubble.
-- - Base, First: shared lists, tests, searches. Examples: the theorems at concrete states.
--
-- How the code is rendered. A class is a record of its fields, and of what its references lead to; an
-- operation that changes state returns the new state beside its result. A template's size is a
-- parameter or the length of a list. A `uint32_t`, a `size_t` or a register number is a natural
-- number; the operations modelled store and compare such numbers, and where the code casts
-- (`uint8_t` in the resets, `uint32_t` for a cache tag) the remainder is written out. A count that
-- the code decrements wraps at 0 where the invariant does not exclude it. A pointer into an array is
-- the index, a null pointer is `none`. Each loop is a structural recursion on the number of rounds
-- that the code's bound gives, or on the list, so that no fuel can run out; the one loop on fuel is the
-- run loop of the core, and Cpu/Termination shows which fuel is enough. The parts of the external
-- `logic` library (its buses, registers, adders, ALU and multiplexers) are records of functions that the
-- definitions take, with their documented behaviour as a record of laws. The cache's theorems ask
-- for a memory of at most 2^32 words, since a tag has 32 bits.
--
-- Not modelled: the datapaths and pipeline registers of the single-cycle, multi-cycle and pipelined
-- processors, which are flip-flops, adders and multiplexers of the external `logic` library wired
-- together; the vector processor; the components over that library; the cache's and the core's
-- floating-point rates; the Python bindings and the tests.
pub mod Base
pub mod Branch
pub mod Control
pub mod Cpu
pub mod Decode
pub mod Examples
pub mod Execute
pub mod Fetch
pub mod First
pub mod Hazard
pub mod Isa
pub mod Issue
pub mod Memory
pub mod Rename
pub mod Retire
pub mod Ring
pub mod Rob
