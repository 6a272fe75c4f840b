-- ===== src/Lib.antt =====
-- stratamoto, a fuzzer for the roles of Stratum V2. A test case is a program in a typed intermediate
-- representation: a builder accepts or rejects its instructions, a compiler lowers it to actions, a
-- runner carries the actions out against a deployment, and oracles judge what came back.
--
-- Base holds what the modules share: tests and lists over the native numbers, hash sets and maps as
-- lists, and `Result`, whose third case `panic` stands for a failed `expect`, an index out of range
-- or an arithmetic overflow.
-- Ir is crates/stratamoto-ir. Ir.Variable, Ir.Operation, Ir.Errors and Ir.Instruction are the source
-- files of these names and the data of lib.rs. Ir.Builder is builder.rs: `append` returns the new
-- builder beside its result, as the source changes the builder also on one error path. Ir.Spec and
-- Ir.Compiler are compiler.rs: each arm of `compile_instruction` is a function of its own.
-- Ir.Renumber is `Program::without` and `remove_nops` of lib.rs; Ir.Minimizers, Ir.Generators and
-- Ir.Mutators are the directories of these names. The three minimizers are values of one record, the
-- trait `Minimizer`, and MinimizerLaws is what the stage that drives them relies on. A loop of a
-- minimizer has as fuel its counter or the number of instructions. The loops that draw a value until
-- it has changed run on a fuel of the caller, since the random numbers may never change it; the mutator of operations
-- is a panic where that fuel runs out. The
-- random numbers are the record `Rng`, with what is documented of them as `RngLaws`.
-- Libafl.MinimizerStage is the loop of crates/stratamoto-libafl/src/stages/mod.rs; the execution of
-- a candidate is a parameter, and the measure of the minimizer is a fuel that is enough.
-- Libafl.StabilityCheck is stages/stability_check.rs: the target and the event manager are a parameter,
-- and as each turn of its loop adds at most two to a bound below eight, a fuel of ten more than that
-- bound is enough.
-- Libafl.VerifyTimeouts is stages/verify_timeouts.rs with the feedback of feedbacks.rs that shares its
-- queue and its flag.
-- Harness is crates/stratamoto and crates/stratamoto-scenarios. Harness.Frames is frame.rs, Harness.Events
-- is events.rs, Harness.Environment is transport.rs and roles/mod.rs, Harness.Runner is runner.rs with its
-- data in Harness.Runner.Outcomes,
-- Harness.Oracle is oracle.rs and Harness.Scenario the scenario crate with the `main` of scenario.rs. What
-- lies outside of the harness, the roles, their sockets and the clock, is one state that a record
-- `Deployment` acts on; the real operations take it from the operating system. A received frame is its
-- header with what the wire library decodes. The loops over arriving frames run on a fuel that is read
-- off that state; DeploymentLaws says that finitely many frames are to come, and a fuel above their
-- number is enough. The loop over the actions has as fuel the number of actions.
-- Dst is crates/stratamoto-dst, the deterministic runtime: Dst.Files is fs.rs, Dst.Time the directory time
-- and Dst.Network the directory net. Locks and shared pointers are one state that every operation takes
-- and gives; the inodes and the channels are kept in stores and held by their index. The callbacks of
-- timers are data, which the network delivers when an advance fires them.
-- Ir.Tests, Libafl.Tests, Harness.Tests and Dst.Tests hold the programs on which the theorems
-- are applied.
--
-- A `usize`, `u8`, `u16`, `u32` or a duration is a native number, a text or a byte vector the list of
-- its bytes. Counters grow by at most one for each instruction, so that they are not wrapped. A stack
-- kept in a vector is a list with its top first; every other vector keeps its order.
-- The wire library that encodes a message is the record `Wire`, with what it documents as `WireLaws`.
-- Printing, logging, serialization, the noise transport, processes, sockets and the fuzzing engine are not modelled.
pub mod Base
pub mod Ir
pub mod Libafl
pub mod Harness
pub mod Dst
