-- ===== src/Program.antt =====
-- programs/taskforest/src/lib.rs and programs/taskforest-payments/src/lib.rs: the instructions of
-- both programs, the handler of each, and the steps of the chain that they run on.
pub mod Lifecycle
pub mod Invariant
pub mod Conserves
pub mod Escrow
pub mod Records
pub mod Sound
pub mod Bonds
pub mod Reached
pub mod Once
pub mod Progress
pub mod Sessions
pub mod Work
pub mod Steps
use taskforest_protocol.Prelude.{ℕ, ◌≤◌, ◌≡◌, ◌≢◌, Option, List, [], ◌∷◌, ℤ}
use taskforest_protocol.Errors.{Result, ok, err, ◌>>=◌}
use taskforest_protocol.State.{AgentReputation, PosterReputation, taskforest_id, payments_id}
use taskforest_protocol.Signature.{Sysvar}
use taskforest_protocol.Chain.{World, Runtime, Env}
use taskforest_protocol.Job
use taskforest_protocol.Job.{JobTerms, SubJobTerms}
use taskforest_protocol.Bidding
use taskforest_protocol.Proof
use taskforest_protocol.Proof.{VerifiedProof}
use taskforest_protocol.Settlement
use taskforest_protocol.Settlement.{SettleJob}
use taskforest_protocol.Dispute
use taskforest_protocol.Dispute.{OpenDispute, ResolveDispute}
use taskforest_protocol.Registry
use taskforest_protocol.Tee
use taskforest_protocol.Tee.{VerifyBidAttestation}
use taskforest_protocol.Payments
use taskforest_protocol.Payments.{CreateEscrowWrapper, VerifyTeeAttestation, RecordSettlement}
use taskforest_protocol.Compression
use taskforest_protocol.Compression.{Light, LightArgs}

-- The instructions of the taskforest program on compressed accounts, each with its arguments and
-- then the addresses of its accounts, in the order of the handler's parameters.
pub data CompressedInstruction : Type 0 where
  archive_settlement_compressed :
      (l : LightArgs) (reason_code signer job : ℕ) → CompressedInstruction
  init_agent_reputation : (l : LightArgs) (r : AgentReputation) (signer : ℕ) → CompressedInstruction
  init_poster_reputation :
      (l : LightArgs) (r : PosterReputation) (signer : ℕ) → CompressedInstruction
  register_ttd_compressed :
      (l : LightArgs) (ttd_hash ttd_uri_hash version signer : ℕ) → CompressedInstruction
  compress_finished_job : (l : LightArgs) (poster job : ℕ) → CompressedInstruction

-- The instructions of the taskforest program, in the same way.
pub data TaskForestInstruction : Type 0 where
  register_ttd : (ttd_hash : ℕ) (ttd_uri : List ℕ) (version ttd creator : ℕ) → TaskForestInstruction
  initialize_job : (terms : JobTerms) (job poster : ℕ) → TaskForestInstruction
  auto_assign_job : (assigned_agent job poster : ℕ) → TaskForestInstruction
  create_sub_job : (terms : SubJobTerms) (parent sub orchestrator : ℕ) → TaskForestInstruction
  delegate_job : (validator : Option ℕ) (payer job : ℕ) → TaskForestInstruction
  place_bid : (stake_lamports job bidder : ℕ) → TaskForestInstruction
  close_bidding : (payer job : ℕ) → TaskForestInstruction
  lock_stake : (job claimer : ℕ) → TaskForestInstruction
  submit_proof : (proof_hash job submitter : ℕ) → TaskForestInstruction
  submit_verified_proof : (proof : VerifiedProof) (job submitter : ℕ) → TaskForestInstruction
  submit_encrypted_proof : (proof_hash output_hash job submitter : ℕ) → TaskForestInstruction
  settle_job : (verdict : ℕ) (accounts : SettleJob) → TaskForestInstruction
  auto_settle : (job claimer : ℕ) → TaskForestInstruction
  claim_timeout : (job claimer : ℕ) → TaskForestInstruction
  archive_settlement : (reason_code payer job archive : ℕ) → TaskForestInstruction
  expire_claim : (job poster_account : ℕ) → TaskForestInstruction
  expire_unclaimed : (job poster : ℕ) → TaskForestInstruction
  extend_deadline : (new_deadline : ℤ) (job poster : ℕ) → TaskForestInstruction
  store_credential : (encrypted_cred_hash vault job poster : ℕ) → TaskForestInstruction
  clear_credential : (vault poster : ℕ) → TaskForestInstruction
  open_dispute : (accounts : OpenDispute) → TaskForestInstruction
  resolve_dispute : (verdict : ℕ) (accounts : ResolveDispute) → TaskForestInstruction
  cast_vote : (verdict dispute vote verifier : ℕ) → TaskForestInstruction
  tally_panel : (remaining : List ℕ) (accounts : ResolveDispute) → TaskForestInstruction
  verify_bid_attestation :
      (sysvar : Sysvar) (accounts : VerifyBidAttestation) → TaskForestInstruction
  compressed : CompressedInstruction → TaskForestInstruction

-- The instructions of the payments program.
pub data PaymentsInstruction : Type 0 where
  create_escrow_wrapper : (accounts : CreateEscrowWrapper) → PaymentsInstruction
  delegate_to_per : (validator : Option ℕ) (escrow_id escrow payer : ℕ) → PaymentsInstruction
  verify_tee_attestation : (sysvar : Sysvar) (accounts : VerifyTeeAttestation) → PaymentsInstruction
  record_payment : (escrow_id amount escrow caller : ℕ) → PaymentsInstruction
  record_settlement : (accounts : RecordSettlement) → PaymentsInstruction
  compress_settlement : (l : LightArgs) (total_paid escrow signer : ℕ) → PaymentsInstruction

pub data Instruction : Type 0 where
  task : TaskForestInstruction → Instruction
  payment : PaymentsInstruction → Instruction

-- What the programs call and do not implement: the runtime, the compression service, the hash.
pub record Services : Type 0 where
  pub runtime : Runtime
  pub light : Light
  pub blake3 : List ℕ → ℕ

-- `pub mod taskforest`, the part on compressed accounts
pub taskforest_compressed : Services → Env → CompressedInstruction → World → Result World
taskforest_compressed s env (archive_settlement_compressed l reason payer job) =
    Compression.archive_settlement_compressed s.light env l reason payer job
taskforest_compressed s env (init_agent_reputation l r payer) =
    Compression.init_agent_reputation s.light env l r payer
taskforest_compressed s env (init_poster_reputation l r payer) =
    Compression.init_poster_reputation s.light env l r payer
taskforest_compressed s env (register_ttd_compressed l hash uri version payer) =
    Compression.register_ttd_compressed s.light env l hash uri version payer
taskforest_compressed s env (compress_finished_job l poster job) =
    Compression.compress_finished_job s.light env l poster job

-- `pub mod taskforest`
unfoldable pub taskforest : Services → Env → TaskForestInstruction → World → Result World
unfolding taskforest_compressed
taskforest s env (register_ttd hash uri version ttd creator) =
    Registry.register_ttd s.runtime env hash uri version ttd creator
taskforest s env (initialize_job t job poster) = Job.initialize_job s.runtime env t job poster
taskforest s env (auto_assign_job agent job poster) = Job.auto_assign_job env agent job poster
taskforest s env (create_sub_job t parent sub orchestrator) =
    Job.create_sub_job s.runtime env t parent sub orchestrator
taskforest s env (delegate_job validator payer job) =
    Registry.delegate_job s.runtime env validator payer job
taskforest s env (place_bid stake job bidder) = Bidding.place_bid env stake job bidder
taskforest s env (close_bidding payer job) = Bidding.close_bidding s.runtime env payer job
taskforest s env (lock_stake job claimer) = Bidding.lock_stake s.runtime env job claimer
taskforest s env (submit_proof proof job submitter) = Proof.submit_proof env proof job submitter
taskforest s env (submit_verified_proof p job submitter) =
    Proof.submit_verified_proof env p job submitter
taskforest s env (submit_encrypted_proof proof output job submitter) =
    Proof.submit_encrypted_proof env proof output job submitter
taskforest s env (settle_job verdict a) = Settlement.settle_job s.runtime env verdict a
taskforest s env (auto_settle job claimer) = Settlement.auto_settle s.runtime env job claimer
taskforest s env (claim_timeout job claimer) = Settlement.claim_timeout s.runtime env job claimer
taskforest s env (archive_settlement reason payer job archive) =
    Settlement.archive_settlement s.runtime env reason payer job archive
taskforest s env (expire_claim job payee) = Job.expire_claim s.runtime env job payee
taskforest s env (expire_unclaimed job poster) = Job.expire_unclaimed s.runtime env job poster
taskforest s env (extend_deadline t job poster) = Job.extend_deadline env t job poster
taskforest s env (store_credential hash vault job poster) =
    Registry.store_credential s.runtime env hash vault job poster
taskforest s env (clear_credential vault poster) = Registry.clear_credential env vault poster
taskforest s env (open_dispute a) = Dispute.open_dispute s.runtime env a
taskforest s env (resolve_dispute verdict a) = Dispute.resolve_dispute s.runtime env verdict a
taskforest s env (cast_vote verdict dispute vote verifier) =
    Dispute.cast_vote s.runtime env verdict dispute vote verifier
taskforest s env (tally_panel remaining a) = Dispute.tally_panel s.runtime env remaining a
taskforest s env (verify_bid_attestation sysvar a) = Tee.verify_bid_attestation env sysvar a
taskforest s env (compressed i) = taskforest_compressed s env i

-- `pub mod taskforest_payments`
pub taskforest_payments : Services → Env → PaymentsInstruction → World → Result World
taskforest_payments s env (create_escrow_wrapper a) = Payments.create_escrow_wrapper s.runtime env a
taskforest_payments s env (delegate_to_per validator escrow_id escrow payer) =
    Payments.delegate_to_per s.runtime env validator escrow_id escrow payer
taskforest_payments s env (verify_tee_attestation sysvar a) =
    Payments.verify_tee_attestation s.runtime env sysvar a
taskforest_payments s env (record_payment escrow_id amount escrow caller) =
    Payments.record_payment s.runtime env escrow_id amount escrow caller
taskforest_payments s env (record_settlement a) =
    Payments.record_settlement s.runtime s.blake3 env a
taskforest_payments s env (compress_settlement l paid escrow payer) =
    Compression.compress_settlement s.light env l paid escrow payer

unfoldable pub execute : Services → Env → Instruction → World → Result World
unfolding taskforest taskforest_payments
execute s env (task i) = taskforest s env i
execute s env (payment i) = taskforest_payments s env i
