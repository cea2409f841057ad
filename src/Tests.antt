-- ===== src/Tests.antt =====
-- Concrete inputs and the theorems applied at them.
mod Fixtures
mod Parts
mod Programs
mod Calls
mod Codec
mod Tokens
mod Runs
mod Allowances
mod Staking
mod Tables
mod Bundles
mod Ballots
