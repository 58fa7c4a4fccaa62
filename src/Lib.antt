-- ===== src/Lib.antt =====
-- TaskForest: a job board with escrow on Solana, and the metered payments beside it. This library
-- models the two on-chain programs, programs/taskforest and programs/taskforest-payments, and proves
-- what they keep and what each settlement does.
--
-- The programs. A poster opens a job with a reward, which its account holds; agents bid inside an
-- attested enclave, or the poster assigns one; the winner locks a stake, submits a proof, and is
-- paid by the poster's verdict, after a review period, or after a dispute window. Disputes move
-- stakes; finished jobs are archived or compressed. The payments program holds a deposit for a job,
-- counts payments against it in an attested session and settles it. The payments program reads job
-- accounts; nothing else passes between the two.
--
-- The files, with paths of the source from the repository's root:
--   State, State/*    the accounts and their sizes: programs/*/src/state, constants.rs
--   Errors, Words     errors.rs of both programs; machine integers, with a sum that overflows an
--                     error (overflow-checks in Cargo.toml)
--   Chain             accounts, signatures, the checks of #[derive(Accounts)], lamports, and the
--                     payout block that the handlers repeat (min(amount, lamports - rent))
--   Job, Bidding, Proof, Settlement, Dispute
--                     programs/taskforest/src/instructions/{job,bidding,proof,settlement,dispute}.rs
--   Registry          ttd.rs, credential.rs, delegation.rs
--   Tee, Signature, Bytes
--                     tee.rs: the attestation report, the check of its signature, byte slices; the
--                     copies of these in payment.rs are Payments/Attestation
--   Payments          programs/taskforest-payments/src/instructions/payment.rs
--   Compression       compressed.rs of both programs
--   Program           lib.rs of both programs: an instruction as a value, `execute`, and the steps
--   Lifecycle, Invariant, Escrow, Payout, Records, Accounts, Bonds, Session
--                     what the handlers are measured against: the life of a job, its well-formedness,
--                     the reward it holds; how other accounts may change, where they stand, what they
--                     hold; and an abstract session that the escrows refine
--   Tests             runs on small worlds
-- A handler `handler_x` is the function `x`: it takes the runtime, what it sees of its transaction
-- (signers, clock), its arguments, the addresses of its accounts and the world, and returns the world
-- after it or the error. Where `x` checks the accounts and creates one first, the body of the handler
-- may be a function of its own. Below each component, Lifecycle, Conserves, Invariant, Escrow,
-- Records, Sound and Bonds hold a lemma for each of its handlers, Payouts and Once what single
-- handlers do, and Program puts them together: for all instructions (Program/Lifecycle and so on), and
-- for every world that is reached (Program/Steps, Reached, Once, Progress, Sessions).
--
-- Choices. The world maps each address to lamports, owner, and a typed content, in place of bytes with
-- a discriminator. A public key or a hash is the number of its 32 bytes. u64 and i64 sums are checked
-- where the source adds them; no loop needs fuel. A step is a transaction of one instruction: so the
-- account that `compress_finished_job` empties is gone after it, where in a longer transaction it
-- would live to its end. An instruction names an account twice without complaint, as the source lets
-- it, so the results ask for different addresses where they need them.
--
-- Two layers. `delegate_job` and `delegate_to_per` give an account to the delegation program, which
-- lends it to a rollup. `away` in the world says which accounts the layer at hand does not have: on
-- the base layer those that are delegated, until the delegation program hands them back. `load`
-- refuses an account that is away, as the framework's check of the owner does. A call on the rollup
-- is a call in a world where the account is not away; a hand-back, and a change of layers between
-- calls, are steps of others (`Outside` in Program/Steps), which may set `away` as they will and keep
-- the data. So an invariant over all reached worlds covers delegated accounts, and a result that a call
-- succeeds asks for accounts that are not away. Registry/Delegated and Payments/Delegated say what a
-- delegation locks. The rent of the delegation program's own records is not modelled.
--
-- Parameters, as what they stand for is not in the repository: the runtime (rent, transfers, the
-- creation of accounts, derived addresses), the rollup that accounts are delegated to, the compression
-- service, the hash function, the instructions sysvar. `IsLawful` says what the results take from the
-- runtime: a transfer moves what the payer has, and a created account becomes rent-exempt.
-- `SignsFairly` says that no account of the programs and no derived address signs.
--
-- Not modelled: log messages, the order in which the framework checks several accounts beyond which
-- of them must hold, transactions of several instructions, the wire format of accounts, the
-- TypeScript clients (sdk, dark-forest), tests and scripts.
pub mod Prelude
pub mod Errors
pub mod Words
pub mod State
pub mod Chain
pub mod Lifecycle
pub mod Session
pub mod Bonds
pub mod Accounts
pub mod Records
pub mod Payout
pub mod Invariant
pub mod Escrow
pub mod Job
pub mod Bidding
pub mod Proof
pub mod Settlement
pub mod Dispute
pub mod Registry
pub mod Bytes
pub mod Signature
pub mod Tee
pub mod Payments
pub mod Compression
pub mod Program
pub mod Tests
