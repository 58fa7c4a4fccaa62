-- ===== src/Program/Lifecycle.antt =====
-- Every instruction of both programs changes every job account only as Lifecycle allows.
use taskforest_protocol.Prelude.{ℕ}
use taskforest_protocol.Chain.{World, Env}
use taskforest_protocol.Lifecycle.{FollowsAt}
use taskforest_protocol.Job.Lifecycle.{
  initialize_job-FollowsAt, auto_assign_job-FollowsAt, create_sub_job-FollowsAt,
  expire_claim-FollowsAt, expire_unclaimed-FollowsAt, extend_deadline-FollowsAt,
}
use taskforest_protocol.Bidding.Lifecycle.{
  place_bid-FollowsAt, close_bidding-FollowsAt, lock_stake-FollowsAt,
}
use taskforest_protocol.Proof.Lifecycle.{
  submit_proof-FollowsAt, submit_verified_proof-FollowsAt, submit_encrypted_proof-FollowsAt,
}
use taskforest_protocol.Settlement.Lifecycle.{
  auto_settle-FollowsAt, settle_job-FollowsAt, claim_timeout-FollowsAt,
  archive_settlement-FollowsAt,
}
use taskforest_protocol.Dispute.Lifecycle.{
  open_dispute-FollowsAt, resolve_dispute-FollowsAt, cast_vote-FollowsAt, tally_panel-FollowsAt,
}
use taskforest_protocol.Registry.Lifecycle.{
  register_ttd-FollowsAt, store_credential-FollowsAt, clear_credential-FollowsAt,
  delegate_job-FollowsAt,
}
use taskforest_protocol.Tee.Lifecycle.{verify_bid_attestation-FollowsAt}
use taskforest_protocol.Payments.Lifecycle.{
  create_escrow_wrapper-FollowsAt, delegate_to_per-FollowsAt, record_payment-FollowsAt,
  verify_tee_attestation-FollowsAt, record_settlement-FollowsAt,
}
use taskforest_protocol.Compression.Lifecycle.{
  archive_settlement_compressed-FollowsAt, init_agent_reputation-FollowsAt,
  init_poster_reputation-FollowsAt, register_ttd_compressed-FollowsAt,
  compress_finished_job-FollowsAt, compress_settlement-FollowsAt,
}
use taskforest_protocol.Program.{
  Instruction, task, payment, TaskForestInstruction, PaymentsInstruction, Services, taskforest,
  taskforest_payments, execute, initialize_job, auto_assign_job, create_sub_job, expire_claim,
  expire_unclaimed, extend_deadline, place_bid, close_bidding, lock_stake, submit_proof,
  submit_verified_proof, submit_encrypted_proof, auto_settle, settle_job, claim_timeout,
  archive_settlement, open_dispute, resolve_dispute, cast_vote, tally_panel, register_ttd,
  store_credential, clear_credential, delegate_job, verify_bid_attestation, compressed,
  archive_settlement_compressed, init_agent_reputation, init_poster_reputation,
  register_ttd_compressed, compress_finished_job, create_escrow_wrapper, delegate_to_per,
  record_payment, verify_tee_attestation, record_settlement, compress_settlement,
}

module _ (k : ℕ) (s : Services) (env : Env) where
  taskforest-FollowsAt :
      (i : TaskForestInstruction) (w : World) → FollowsAt k w (taskforest s env i w)
  unfolding taskforest
  taskforest-FollowsAt (initialize_job t job poster) w =
      initialize_job-FollowsAt k env s.runtime t job poster w
  taskforest-FollowsAt (auto_assign_job agent job poster) w =
      auto_assign_job-FollowsAt k env agent job poster w
  taskforest-FollowsAt (create_sub_job t parent sub orchestrator) w =
      create_sub_job-FollowsAt k env s.runtime t parent sub orchestrator w
  taskforest-FollowsAt (expire_claim job payee) w =
      expire_claim-FollowsAt k env s.runtime job payee w
  taskforest-FollowsAt (expire_unclaimed job poster) w =
      expire_unclaimed-FollowsAt k env s.runtime job poster w
  taskforest-FollowsAt (extend_deadline new_deadline job poster) w =
      extend_deadline-FollowsAt k env new_deadline job poster w
  taskforest-FollowsAt (place_bid stake job bidder) w = place_bid-FollowsAt k env stake job bidder w
  taskforest-FollowsAt (close_bidding payer job) w =
      close_bidding-FollowsAt k env s.runtime payer job w
  taskforest-FollowsAt (lock_stake job claimer) w =
      lock_stake-FollowsAt k env s.runtime job claimer w
  taskforest-FollowsAt (submit_proof proof job submitter) w =
      submit_proof-FollowsAt k env proof job submitter w
  taskforest-FollowsAt (submit_verified_proof p job submitter) w =
      submit_verified_proof-FollowsAt k env p job submitter w
  taskforest-FollowsAt (submit_encrypted_proof proof output job submitter) w =
      submit_encrypted_proof-FollowsAt k env proof output job submitter w
  taskforest-FollowsAt (auto_settle job claimer) w =
      auto_settle-FollowsAt k env s.runtime job claimer w
  taskforest-FollowsAt (settle_job verdict a) w = settle_job-FollowsAt k env s.runtime verdict a w
  taskforest-FollowsAt (claim_timeout job claimer) w =
      claim_timeout-FollowsAt k env s.runtime job claimer w
  taskforest-FollowsAt (archive_settlement reason payer job archive) w =
      archive_settlement-FollowsAt k env s.runtime reason payer job archive w
  taskforest-FollowsAt (open_dispute a) w = open_dispute-FollowsAt k env s.runtime a w
  taskforest-FollowsAt (resolve_dispute verdict a) w =
      resolve_dispute-FollowsAt k env s.runtime verdict a w
  taskforest-FollowsAt (cast_vote verdict dispute vote verifier) w =
      cast_vote-FollowsAt k env s.runtime verdict dispute vote verifier w
  taskforest-FollowsAt (tally_panel remaining a) w =
      tally_panel-FollowsAt k env s.runtime remaining a w
  taskforest-FollowsAt (register_ttd hash uri version ttd creator) w =
      register_ttd-FollowsAt k env s.runtime hash uri version ttd creator w
  taskforest-FollowsAt (store_credential hash vault job poster) w =
      store_credential-FollowsAt k env s.runtime hash vault job poster w
  taskforest-FollowsAt (clear_credential vault poster) w =
      clear_credential-FollowsAt k env vault poster w
  taskforest-FollowsAt (delegate_job validator payer job) w =
      delegate_job-FollowsAt k env s.runtime validator payer job w
  taskforest-FollowsAt (verify_bid_attestation sysvar a) w =
      verify_bid_attestation-FollowsAt k env sysvar a w
  taskforest-FollowsAt (compressed (archive_settlement_compressed l reason payer job)) w =
      archive_settlement_compressed-FollowsAt k env s.light l reason payer job w
  taskforest-FollowsAt (compressed (init_agent_reputation l r payer)) w =
      init_agent_reputation-FollowsAt k env s.light l r payer w
  taskforest-FollowsAt (compressed (init_poster_reputation l r payer)) w =
      init_poster_reputation-FollowsAt k env s.light l r payer w
  taskforest-FollowsAt (compressed (register_ttd_compressed l hash uri version payer)) w =
      register_ttd_compressed-FollowsAt k env s.light l hash uri version payer w
  taskforest-FollowsAt (compressed (compress_finished_job l poster job)) w =
      compress_finished_job-FollowsAt k env s.light l poster job w

  taskforest_payments-FollowsAt :
      (i : PaymentsInstruction) (w : World) → FollowsAt k w (taskforest_payments s env i w)
  unfolding taskforest_payments
  taskforest_payments-FollowsAt (create_escrow_wrapper a) w =
      create_escrow_wrapper-FollowsAt k env s.runtime a w
  taskforest_payments-FollowsAt (delegate_to_per validator escrow_id escrow payer) w =
      delegate_to_per-FollowsAt k env s.runtime validator escrow_id escrow payer w
  taskforest_payments-FollowsAt (record_payment escrow_id amount escrow caller) w =
      record_payment-FollowsAt k env s.runtime escrow_id amount escrow caller w
  taskforest_payments-FollowsAt (verify_tee_attestation sysvar a) w =
      verify_tee_attestation-FollowsAt k env s.runtime sysvar a w
  taskforest_payments-FollowsAt (record_settlement a) w =
      record_settlement-FollowsAt k env s.runtime s.blake3 a w
  taskforest_payments-FollowsAt (compress_settlement l paid escrow payer) w =
      compress_settlement-FollowsAt k env s.light l paid escrow payer w

  -- Whatever instruction runs and whatever address is looked at: a job that was not there before is
  -- open; a job that was there before keeps its terms, goes along an edge of the status graph,
  -- keeps its worker and stake once it is claimed and its proof once that is handed in; and only a
  -- finished job goes away.
  pub execute-FollowsAt : (i : Instruction) (w : World) → FollowsAt k w (execute s env i w)
  unfolding execute
  execute-FollowsAt (task i) w = taskforest-FollowsAt i w
  execute-FollowsAt (payment i) w = taskforest_payments-FollowsAt i w
