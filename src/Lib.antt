-- ===== src/Lib.antt =====
-- REIL: the intermediate language of a reverse-engineering toolkit, its interpreter, the memory
-- images and the flow graphs.
--
-- A program's bytes lie in a memory image. A native instruction is translated to a sequence of
-- REIL instructions, whose operands are immediates of any size, registers, temporaries and
-- offsets of other instructions in the sequence. The interpreter runs such a sequence on
-- registers and memory. The disassembler decodes AArch64 instructions, follows their branches,
-- and records them in native flow graphs, and from these the REIL flow graphs are made.
-- Immediates are the values throughout.
--
-- Base: tests on numbers, lists with positions, machine words, and the outcomes of code that
--   can fail.
-- Immediate (reil/immediate.h, reil/immediate.cpp): the class Immediate, as the list of its
--   bytes, lowest first. Immediate.Shift has <<=, >>=, Extract and the masks, Immediate.Logic
--   has &=, |=, ^=, Immediate.Arith has +, -, *, / and %. Value, Convert, Compare, Shift.Left,
--   Shift.Right, Shift.Extract, Logic.Values and Arith.Add.Sums relate them to the numbers
--   that the bytes stand for.
-- Instruction (reil/reil.h, reil/reil.cpp): operands and instructions; Instruction.Build has
--   the functions Add, And, ... that make them.
-- Interpreter (reil/interpreter.h, reil/interpreter.cpp): the class Interpreter; handle is the
--   switch of SingleStep with all handlers, execute is Execute.
-- MemoryImage (memory_image/memory_image.h, memory_image/memory_image.cpp): mappings,
--   AccessOk, Read.
-- Translation (reil/translation.h, reil/translation.cpp): the class Translation, whose methods
--   are functions on its state; Translation.Finalise is Finalise, which turns labels to
--   offsets for the interpreter, with its loops; Translation.Finalise.Reference says without
--   loops what it is to return.
-- Aarch64.Decoder (reil/aarch64/decoder.h, reil/aarch64/decoder.cpp): DecodeInstruction. Bits
--   has the fields, Masks the bit masks, Constants, System, Branches, Registers, Address,
--   Simd, Exclusive and LoadStore the classes of instructions. Fields and Sign say what a
--   field is, Valid that operands are in range.
-- Disassembler (disassembler/disassembler.cpp): the front end. Disassembler.Aarch64
--   (disassembler/aarch64/disassemble.cpp): Disassemble, with search_from for its loop;
--   Complete shows that a branch has its operand, Reach where control goes.
--   Disassembler.Functions (disassembler/aarch64/find_functions.cpp): FindFunctions.
-- Flow.Edge (flow_graph/native_edge.cpp, node.cpp, edge.cpp): edges and nodes with operator<
--   and operator==. Flow.Containers: std::map and std::set as sequences in ascending order.
--   Flow.Native (flow_graph/native_flow_graph.cpp): the class NativeFlowGraph. Flow.Graph
--   (flow_graph/flow_graph.cpp): the class FlowGraph, without Create and Load. Flow.Provider
--   (flow_graph/instruction_provider.cpp): the class InstructionProvider, over any translator.
--
-- State is passed explicitly: an operation that changes an object takes the object before and
-- returns it after. Code that can fail returns Run, whose faults tell a failed check, an
-- exception of std::map::at, a call of abort, an access outside an object, and a loop that is
-- still running at the end of its fuel. Failed checks count as faults, as in debug builds.
-- Machine integers are natural numbers with their wrap-around written out.
--
-- Fuel: the loops of + and - have an 8-bit counter and no other test that changes, so 257 rounds
-- decide whether they end, and the theorems on larger sizes hold for any fuel. The loops of the
-- conversion to bool, the comparisons and the bitwise operators have a uint16_t counter; their
-- rounds are as many as it takes until they have ended or are back at an index where they were.
-- The recursion of * halves the size with each level, so 16 levels suffice. The loop of Finalise
-- has a round for each instruction, since it never adds one. The loop of Disassemble has three
-- rounds for each address of 64 bits and one more, since each address is visited once and adds
-- two addresses at most to the queue. The loop of the interpreter takes its fuel as an argument;
-- the theorem on it says how much is enough.
--
-- Not modelled: protocol buffers (Load, Save and LoadBinexport2), printing, the command line, the
-- tests' emulator, the creation of REIL flow graphs, the AArch64 translator and printer, the
-- resolution of branches, and the constants analysis.
pub mod Base
pub mod Immediate
pub mod Instruction
pub mod Interpreter
pub mod MemoryImage
pub mod Flow
pub mod Aarch64
pub mod Disassembler
pub mod Translation
