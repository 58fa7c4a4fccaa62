-- ===== src/Program/Invariant.antt =====
-- Every instruction of both programs keeps all job accounts valid.
use taskforest_protocol.Prelude.{ℕ}
use taskforest_protocol.Chain.{World, Env}
use taskforest_protocol.Lifecycle.{job_at}
use taskforest_protocol.Invariant.{ValidAt, Validates}
use taskforest_protocol.Job.Invariant.{
  initialize_job-Validates, auto_assign_job-Validates, create_sub_job-Validates,
  expire_claim-Validates, expire_unclaimed-Validates, extend_deadline-Validates,
}
use taskforest_protocol.Bidding.Invariant.{
  place_bid-Validates, close_bidding-Validates, lock_stake-Validates,
}
use taskforest_protocol.Proof.Invariant.{
  submit_proof-Validates, submit_verified_proof-Validates, submit_encrypted_proof-Validates,
}
use taskforest_protocol.Settlement.Invariant.{
  auto_settle-Validates, settle_job-Validates, claim_timeout-Validates,
  archive_settlement-Validates,
}
use taskforest_protocol.Dispute.Invariant.{
  open_dispute-Validates, resolve_dispute-Validates, cast_vote-Validates, tally_panel-Validates,
}
use taskforest_protocol.Registry.Invariant.{
  register_ttd-Validates, store_credential-Validates, clear_credential-Validates,
  delegate_job-Validates,
}
use taskforest_protocol.Tee.Invariant.{verify_bid_attestation-Validates}
use taskforest_protocol.Payments.Invariant.{
  create_escrow_wrapper-Validates, delegate_to_per-Validates, record_payment-Validates,
  verify_tee_attestation-Validates, record_settlement-Validates,
}
use taskforest_protocol.Compression.Invariant.{
  archive_settlement_compressed-Validates, init_agent_reputation-Validates,
  init_poster_reputation-Validates, register_ttd_compressed-Validates,
  compress_finished_job-Validates, compress_settlement-Validates,
}
use taskforest_protocol.Program.{
  Instruction, task, payment, TaskForestInstruction, PaymentsInstruction, Services, taskforest,
  taskforest_payments, execute, initialize_job, auto_assign_job, create_sub_job, expire_claim,
  expire_unclaimed, extend_deadline, place_bid, close_bidding, lock_stake, submit_proof,
  submit_verified_proof, submit_encrypted_proof, auto_settle, settle_job, claim_timeout,
  archive_settlement, open_dispute, resolve_dispute, cast_vote, tally_panel, register_ttd,
  store_credential, clear_credential, delegate_job, verify_bid_attestation, compressed,
  archive_settlement_compressed, init_agent_reputation, init_poster_reputation,
  register_ttd_compressed, compress_finished_job, create_escrow_wrapper, delegate_to_per,
  record_payment, verify_tee_attestation, record_settlement, compress_settlement,
}

-- Every job account of the program is valid.
abbrev pub IsValid : World → Type 0
IsValid w = (q : ℕ) → ValidAt (job_at w q)

module _ (k : ℕ) (s : Services) (env : Env) where
  taskforest-Validates :
      (i : TaskForestInstruction) (w : World) → IsValid w → Validates k (taskforest s env i w)
  unfolding taskforest
  taskforest-Validates (initialize_job t job poster) w valid =
      initialize_job-Validates k env s.runtime t job poster w (valid k)
  taskforest-Validates (auto_assign_job agent job poster) w valid =
      auto_assign_job-Validates k env agent job poster w (valid k)
  taskforest-Validates (create_sub_job t parent sub orchestrator) w valid =
      create_sub_job-Validates k env s.runtime t parent sub orchestrator w (valid k) (valid parent)
  taskforest-Validates (expire_claim job payee) w valid =
      expire_claim-Validates k env s.runtime job payee w (valid k)
  taskforest-Validates (expire_unclaimed job poster) w valid =
      expire_unclaimed-Validates k env s.runtime job poster w (valid k)
  taskforest-Validates (extend_deadline new_deadline job poster) w valid =
      extend_deadline-Validates k env new_deadline job poster w (valid k)
  taskforest-Validates (place_bid stake job bidder) w valid =
      place_bid-Validates k env stake job bidder w (valid k)
  taskforest-Validates (close_bidding payer job) w valid =
      close_bidding-Validates k env s.runtime payer job w (valid k)
  taskforest-Validates (lock_stake job claimer) w valid =
      lock_stake-Validates k env s.runtime job claimer w (valid k)
  taskforest-Validates (submit_proof proof job submitter) w valid =
      submit_proof-Validates k env proof job submitter w (valid k)
  taskforest-Validates (submit_verified_proof p job submitter) w valid =
      submit_verified_proof-Validates k env p job submitter w (valid k)
  taskforest-Validates (submit_encrypted_proof proof output job submitter) w valid =
      submit_encrypted_proof-Validates k env proof output job submitter w (valid k)
  taskforest-Validates (auto_settle job claimer) w valid =
      auto_settle-Validates k env s.runtime job claimer w (valid k)
  taskforest-Validates (settle_job verdict a) w valid =
      settle_job-Validates k env s.runtime verdict a w (valid k)
  taskforest-Validates (claim_timeout job claimer) w valid =
      claim_timeout-Validates k env s.runtime job claimer w (valid k)
  taskforest-Validates (archive_settlement reason payer job archive) w valid =
      archive_settlement-Validates k env s.runtime reason payer job archive w (valid k)
  taskforest-Validates (open_dispute a) w valid =
      open_dispute-Validates k env s.runtime a w (valid k)
  taskforest-Validates (resolve_dispute verdict a) w valid =
      resolve_dispute-Validates k env s.runtime verdict a w (valid k)
  taskforest-Validates (cast_vote verdict dispute vote verifier) w valid =
      cast_vote-Validates k env s.runtime verdict dispute vote verifier w (valid k)
  taskforest-Validates (tally_panel remaining a) w valid =
      tally_panel-Validates k env s.runtime remaining a w (valid k)
  taskforest-Validates (register_ttd hash uri version ttd creator) w valid =
      register_ttd-Validates k env s.runtime hash uri version ttd creator w (valid k)
  taskforest-Validates (store_credential hash vault job poster) w valid =
      store_credential-Validates k env s.runtime hash vault job poster w (valid k)
  taskforest-Validates (clear_credential vault poster) w valid =
      clear_credential-Validates k env vault poster w (valid k)
  taskforest-Validates (delegate_job validator payer job) w valid =
      delegate_job-Validates k env s.runtime validator payer job w (valid k)
  taskforest-Validates (verify_bid_attestation sysvar a) w valid =
      verify_bid_attestation-Validates k env sysvar a w (valid k)
  taskforest-Validates (compressed (archive_settlement_compressed l reason payer job)) w valid =
      archive_settlement_compressed-Validates k env s.light l reason payer job w (valid k)
  taskforest-Validates (compressed (init_agent_reputation l r payer)) w valid =
      init_agent_reputation-Validates k env s.light l r payer w (valid k)
  taskforest-Validates (compressed (init_poster_reputation l r payer)) w valid =
      init_poster_reputation-Validates k env s.light l r payer w (valid k)
  taskforest-Validates (compressed (register_ttd_compressed l hash uri version payer)) w valid =
      register_ttd_compressed-Validates k env s.light l hash uri version payer w (valid k)
  taskforest-Validates (compressed (compress_finished_job l poster job)) w valid =
      compress_finished_job-Validates k env s.light l poster job w (valid k)

  taskforest_payments-Validates :
      (i : PaymentsInstruction) (w : World)
      → IsValid w
      → Validates k (taskforest_payments s env i w)
  unfolding taskforest_payments
  taskforest_payments-Validates (create_escrow_wrapper a) w valid =
      create_escrow_wrapper-Validates k env s.runtime a w (valid k)
  taskforest_payments-Validates (delegate_to_per validator escrow_id escrow payer) w valid =
      delegate_to_per-Validates k env s.runtime validator escrow_id escrow payer w (valid k)
  taskforest_payments-Validates (record_payment escrow_id amount escrow caller) w valid =
      record_payment-Validates k env s.runtime escrow_id amount escrow caller w (valid k)
  taskforest_payments-Validates (verify_tee_attestation sysvar a) w valid =
      verify_tee_attestation-Validates k env s.runtime sysvar a w (valid k)
  taskforest_payments-Validates (record_settlement a) w valid =
      record_settlement-Validates k env s.runtime s.blake3 a w (valid k)
  taskforest_payments-Validates (compress_settlement l paid escrow payer) w valid =
      compress_settlement-Validates k env s.light l paid escrow payer w (valid k)

  pub execute-Validates :
      (i : Instruction) (w : World) → IsValid w → Validates k (execute s env i w)
  unfolding execute
  execute-Validates (task i) w valid = taskforest-Validates i w valid
  execute-Validates (payment i) w valid = taskforest_payments-Validates i w valid
