-- ===== src/Lib.antt =====
-- A model of the NornRune policy engine: the part that evaluates a compiled policy over a batch of
-- requests, and the tables and registries that it stands on.
--
-- The engine compiles a policy into a program of instructions over numbered slots and evaluates it
-- for many requests at once. A truth value is four-valued, two bits per request in 64-bit words;
-- an unknown value carries the reasons for which it is unknown, one bitplane per reason. A leaf of
-- the program compares a fact column or scans evidence records; what stays unknown at the root is
-- resolved into an outcome by a table of nine rows, one per reason.
--
-- Truth/Planes models internal/truth/planes.go and scalar.go (Set, Not, And, Or, maskTail), and
-- Truth/Reason models internal/truth/reason.go (ReasonBit, With, Has, Valid). Result/Outcome,
-- Result/Remediation and Result/Resolution model the files of those names under internal/result
-- (Lookup, Prefer, preferKnown, valid, NewResolver, Resolve). Program models the columns of
-- internal/program/program.go and the opcodes of instruction.go, Program/Symbols the lookups of
-- symbols and fields, Program/Schema BuildSchema of internal/index/schema.go, and Program/Registry
-- internal/program/registry.go (Lookup, Publish, Activate, LoadOrCompile). Eval/Batch models
-- internal/eval/batch.go, Eval/Leaf scalar.go, Eval/Predicate predicate.go (evalPredicate,
-- fillInMatches, programPredicateValue) and Eval/Evidence evidence_eval.go (Bind,
-- validEvidenceBatch, classifyEvidenceRecord, evalEvidenceUnchecked). Eval/Reduce and Eval/Clause
-- model parts of executor.go: reduceTruthGroup and reduceReasonGroup, which combine slots in
-- place, and instructionTruth, instructionReasons, resolveApplicability, resolveActiveClause with
-- its searches for drivers, and the calls of preferExecutionCandidate in finalizeResults.
-- Eval/Schedule models the schedule of executor.go (validExecutionSchedule, executeSchedule and
-- executeInstructionMode), with a reference evaluation in Eval/Schedule/Reference that has no
-- slots. Compile models the part of internal/compile that gives instructions their slots:
-- Compile/Lifetimes the validation, computeLastUses, computeReasonLive and assignSlots of
-- liveness.go, Compile/Allocate allocateSlots with its lists of rows, and Compile/Slots the bitset
-- of free slots. Arena models internal/arena/bytes.go (Append, Bytes, Reset), and Schema/Interner
-- internal/schema/symbols.go (HashSymbol, Intern, Lookup, Bytes, Reset, grow), which stands on it.
-- Scheduler models partitionRows of internal/scheduler/shard.go, which splits the rows of a batch.
-- Common and Words hold lists, loops, tests and bits that all of them share, and Tests holds small
-- inputs.
--
-- The compiler writes the columns of a program, and slot assignment its slots; the executor reads
-- both, takes the windows of the slots as its scratch memory, and leaves in the slots of the roots
-- what clauses and applicability read. What a slot holds is therefore a contract between
-- Compile/Lifetimes and Eval/Schedule, stated as a record of what the slots keep.
--
-- Words are natural numbers with their width written out: `^x` is `2 ^ w - 1 - x`. Identifiers are
-- one-based, and 0 is none, as in the source. A slice is a list, an operation returns what it
-- writes, and a panic is `none`. A destination is read only where the source reads it: for its
-- shape. Loops are recursion on the number of rounds left or on a list. Fuel bounds the lists of
-- rows in allocateSlots, which get shorter by one row at each step, by the number of rows; the
-- probes of the interner, which visit no slot twice, by the size of the table; and its outer loop
-- by two rounds, as a table that has grown has room.
--
-- Integers and timestamps are unbounded here, as the code only compares them. Sums of 32-bit
-- numbers are widened to 64 bits in the source before they are taken, or stay below 2^32 since the
-- number of rows does, so that they do not wrap.
-- The modelled mode is the scalar one: the vector instructions and the bitmap indexes that stand
-- in for the same loops are not modelled. Nor are the provenance of reasons and the assembly of
-- results, reuse of capacity and aliasing of slices, the callers that transport requests, the
-- frontends, and the rest of the compiler, which builds a program. The mutexes and channels of the
-- registry appear as the atomicity of its steps.
pub mod Common
pub mod Words
pub mod Arena
pub mod Schema
pub mod Truth
pub mod Result
pub mod Program
pub mod Scheduler
pub mod Compile
pub mod Eval
pub mod Tests
