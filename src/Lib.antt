-- ===== src/Lib.antt =====
-- Hopper SVM: a test harness for Solana programs that runs instructions in process.
--
-- The program and its model
--
-- A `HopperSvm` (src/lib.rs) holds a registry of built-in programs, the sysvars, a compute budget,
-- two cells of the compute-budget program, a validation policy, a fee calculator and an account
-- store. A call dispatches an instruction: the engine charges the cost of the program, resolves the
-- metas to a working set of accounts, invokes the program on it and merges the working set back, or
-- hands the accounts back as they came where a step fails; the validator then checks what the
-- program did. A chain feeds the accounts of one instruction into the next, a transaction charges a
-- fee before that, and the calls with a store read their accounts from the overlay and commit a
-- success to it.
--
--   Harness.antt               src/lib.rs, src/result.rs: state, dispatch of one instruction
--   Harness/Chain.antt         src/lib.rs: chains and transactions
--   Harness/Overlay.antt       src/lib.rs: the account store and the calls on it
--   Harness/Warp.antt          src/lib.rs: moves of the clock
--   Harness/Runtime.antt       src/lib.rs: construction, builders and setters
--   Harness/Lookups.antt       src/lib.rs: resolution through a lookup table
--   Harness/Results.antt       src/result.rs: what a caller reads off a result
--   Engine.antt                src/engine.rs: the built-in engine
--   Builtin.antt               src/builtin.rs: the interface of a built-in program
--   Validation.antt            src/validation.rs: the rules on what an instruction changed
--   System.antt, System/       src/system_program.rs: dispatch, and a file per group of
--                              instructions (Create, Transfers, Seeds, Nonce)
--   ComputeBudgetProgram.antt  src/compute_budget_program.rs
--   Token.antt, Token/         src/spl/token.rs: dispatch, State, Setup, Moves, Supply;
--                              src/token.rs: Factories
--   Stake.antt, Stake/         src/spl/stake_program.rs: dispatch, State, Setup, Delegate, Withdraw
--   Vote.antt, Vote/           src/spl/vote_program.rs: dispatch, Header, Handlers
--   Alt.antt, Alt/             src/spl/alt_program.rs: dispatch, Handlers; src/alt.rs: Table
--   Config.antt, Ata.antt, Token2022.antt
--                              src/spl/config_program.rs, src/spl/ata.rs, src/spl/token_2022.rs
--   Compute.antt, Fees.antt, Log.antt, Sysvar.antt, Account.antt, Error.antt
--                              the files of src/ with these names in lower case
--   Sdk.antt                   what the source takes from other crates, as parameters
--   Prelude.antt, Bytes.antt, Map.antt
--                              shared tests, lists, signed numbers, byte codecs, maps
--   Tests.antt                 the inputs and the theorems applied at them
--
-- The other files under a component hold its proofs and are named for what they are about. A
-- function keeps the name it has in the source; a handler of a program takes the body, the slots
-- and the context, and returns the slots after it and the message that it logs, since no handler
-- writes before its last check.
--
-- Conventions
--
-- * A machine integer is a natural number; saturation, checked addition and the cap are written
--   out, and no operation wraps. A signed timestamp is an integer with its saturating operations.
-- * A `Pubkey` is the number of its 32 little-endian bytes, and data is a list of numbers; where a
--   theorem needs that each is a byte it says so by `AreBytes`.
-- * A `Result` has the errors of src/error.rs and a third end, `panic`, for an overflow or a division
--   by zero of a debug build, a slice out of range and a vector over `isize::MAX`. A vector below that
--   is taken to be there. A call of the harness is `none` where a panic unwinds out of it.
-- * A message is the text that `format!` gets, without its arguments; a line of the transcript is
--   data. Locks are fields that the calls pass on, since one call holds them one after another.
-- * The order of the entries of a map has no meaning: the store is an association list, read and
--   written by key.
-- * No function runs on fuel: each loop is over a list or a count that is given.
--
-- Parameters
--
-- `Sdk` has the program ids, the derivations of seeded and of program addresses, UTF-8 validity,
-- SHA-256, the scaling by an `f64` and the measured time. `SplToken` has the `Pack` of the records of
-- the token crate, and `PackLaws` the round trip that it documents.
--
-- Not modelled
--
-- The Agave and BPF engines and the builders for them (features that the default build leaves out),
-- the text of messages, logs and errors, and the bindings. An
-- `f64` is the number of its bits, and arithmetic on it is a parameter.
pub mod Prelude
pub mod Bytes
pub mod Map
pub mod Error
pub mod Account
pub mod Sdk
pub mod Compute
pub mod Log
pub mod Sysvar
pub mod Builtin
pub mod Engine
pub mod System
pub mod Validation
pub mod Fees
pub mod ComputeBudgetProgram
pub mod Token
pub mod Stake
pub mod Alt
pub mod Vote
pub mod Config
pub mod Ata
pub mod Token2022
pub mod Harness
mod Tests
