-- ===== src/Tests.antt =====
-- Runs of the programs on small worlds, and each result at an input that meets its hypotheses.
mod Setup
mod Calls
mod Run
mod Staked
mod Delegated
mod Divided
mod Closing
mod Reached
mod Settled
mod Attested
mod Escrows
mod Disputed
