-- ===== src/Program/Records.antt =====
-- Every instruction of both programs changes every other account only as Records allows.
use taskforest_protocol.Prelude.{ℕ}
use taskforest_protocol.Chain.{World, Env}
use taskforest_protocol.Records.{RecordsFollow}
use taskforest_protocol.Job.Records.{
  initialize_job-RecordsFollow, auto_assign_job-RecordsFollow, create_sub_job-RecordsFollow,
  expire_claim-RecordsFollow, expire_unclaimed-RecordsFollow, extend_deadline-RecordsFollow,
}
use taskforest_protocol.Bidding.Records.{
  place_bid-RecordsFollow, close_bidding-RecordsFollow, lock_stake-RecordsFollow,
}
use taskforest_protocol.Proof.Records.{
  submit_proof-RecordsFollow, submit_verified_proof-RecordsFollow,
  submit_encrypted_proof-RecordsFollow,
}
use taskforest_protocol.Settlement.Records.{
  auto_settle-RecordsFollow, settle_job-RecordsFollow, claim_timeout-RecordsFollow,
  archive_settlement-RecordsFollow,
}
use taskforest_protocol.Dispute.Records.{
  open_dispute-RecordsFollow, resolve_dispute-RecordsFollow, cast_vote-RecordsFollow,
  tally_panel-RecordsFollow,
}
use taskforest_protocol.Registry.Records.{
  register_ttd-RecordsFollow, store_credential-RecordsFollow, clear_credential-RecordsFollow,
  delegate_job-RecordsFollow,
}
use taskforest_protocol.Tee.Records.{verify_bid_attestation-RecordsFollow}
use taskforest_protocol.Payments.Records.{
  create_escrow_wrapper-RecordsFollow, delegate_to_per-RecordsFollow, record_payment-RecordsFollow,
  verify_tee_attestation-RecordsFollow, record_settlement-RecordsFollow,
}
use taskforest_protocol.Compression.Records.{
  archive_settlement_compressed-RecordsFollow, init_agent_reputation-RecordsFollow,
  init_poster_reputation-RecordsFollow, register_ttd_compressed-RecordsFollow,
  compress_finished_job-RecordsFollow, compress_settlement-RecordsFollow,
}
use taskforest_protocol.Program.{
  Instruction, task, payment, TaskForestInstruction, PaymentsInstruction, Services, taskforest,
  taskforest_payments, execute, initialize_job, auto_assign_job, create_sub_job, expire_claim,
  expire_unclaimed, extend_deadline, place_bid, close_bidding, lock_stake, submit_proof,
  submit_verified_proof, submit_encrypted_proof, auto_settle, settle_job, claim_timeout,
  archive_settlement, open_dispute, resolve_dispute, cast_vote, tally_panel, register_ttd,
  store_credential, clear_credential, delegate_job, verify_bid_attestation, compressed,
  archive_settlement_compressed, init_agent_reputation, init_poster_reputation,
  register_ttd_compressed, compress_finished_job, create_escrow_wrapper, delegate_to_per,
  record_payment, verify_tee_attestation, record_settlement, compress_settlement,
}

module _ (k : ℕ) (s : Services) (env : Env) where
  taskforest-RecordsFollow :
      (i : TaskForestInstruction) (w : World) → RecordsFollow k w (taskforest s env i w)
  unfolding taskforest
  taskforest-RecordsFollow (initialize_job t job poster) w =
      initialize_job-RecordsFollow k env s.runtime t job poster w
  taskforest-RecordsFollow (auto_assign_job agent job poster) w =
      auto_assign_job-RecordsFollow k env agent job poster w
  taskforest-RecordsFollow (create_sub_job t parent sub orchestrator) w =
      create_sub_job-RecordsFollow k env s.runtime t parent sub orchestrator w
  taskforest-RecordsFollow (expire_claim job payee) w =
      expire_claim-RecordsFollow k env s.runtime job payee w
  taskforest-RecordsFollow (expire_unclaimed job poster) w =
      expire_unclaimed-RecordsFollow k env s.runtime job poster w
  taskforest-RecordsFollow (extend_deadline new_deadline job poster) w =
      extend_deadline-RecordsFollow k env new_deadline job poster w
  taskforest-RecordsFollow (place_bid stake job bidder) w =
      place_bid-RecordsFollow k env stake job bidder w
  taskforest-RecordsFollow (close_bidding payer job) w =
      close_bidding-RecordsFollow k env s.runtime payer job w
  taskforest-RecordsFollow (lock_stake job claimer) w =
      lock_stake-RecordsFollow k env s.runtime job claimer w
  taskforest-RecordsFollow (submit_proof proof job submitter) w =
      submit_proof-RecordsFollow k env proof job submitter w
  taskforest-RecordsFollow (submit_verified_proof p job submitter) w =
      submit_verified_proof-RecordsFollow k env p job submitter w
  taskforest-RecordsFollow (submit_encrypted_proof proof output job submitter) w =
      submit_encrypted_proof-RecordsFollow k env proof output job submitter w
  taskforest-RecordsFollow (auto_settle job claimer) w =
      auto_settle-RecordsFollow k env s.runtime job claimer w
  taskforest-RecordsFollow (settle_job verdict a) w =
      settle_job-RecordsFollow k env s.runtime verdict a w
  taskforest-RecordsFollow (claim_timeout job claimer) w =
      claim_timeout-RecordsFollow k env s.runtime job claimer w
  taskforest-RecordsFollow (archive_settlement reason payer job archive) w =
      archive_settlement-RecordsFollow k env s.runtime reason payer job archive w
  taskforest-RecordsFollow (open_dispute a) w = open_dispute-RecordsFollow k env s.runtime a w
  taskforest-RecordsFollow (resolve_dispute verdict a) w =
      resolve_dispute-RecordsFollow k env s.runtime verdict a w
  taskforest-RecordsFollow (cast_vote verdict dispute vote verifier) w =
      cast_vote-RecordsFollow k env s.runtime verdict dispute vote verifier w
  taskforest-RecordsFollow (tally_panel remaining a) w =
      tally_panel-RecordsFollow k env s.runtime remaining a w
  taskforest-RecordsFollow (register_ttd hash uri version ttd creator) w =
      register_ttd-RecordsFollow k env s.runtime hash uri version ttd creator w
  taskforest-RecordsFollow (store_credential hash vault job poster) w =
      store_credential-RecordsFollow k env s.runtime hash vault job poster w
  taskforest-RecordsFollow (clear_credential vault poster) w =
      clear_credential-RecordsFollow k env vault poster w
  taskforest-RecordsFollow (delegate_job validator payer job) w =
      delegate_job-RecordsFollow k env s.runtime validator payer job w
  taskforest-RecordsFollow (verify_bid_attestation sysvar a) w =
      verify_bid_attestation-RecordsFollow k env sysvar a w
  taskforest-RecordsFollow (compressed (archive_settlement_compressed l reason payer job)) w =
      archive_settlement_compressed-RecordsFollow k env s.light l reason payer job w
  taskforest-RecordsFollow (compressed (init_agent_reputation l r payer)) w =
      init_agent_reputation-RecordsFollow k env s.light l r payer w
  taskforest-RecordsFollow (compressed (init_poster_reputation l r payer)) w =
      init_poster_reputation-RecordsFollow k env s.light l r payer w
  taskforest-RecordsFollow (compressed (register_ttd_compressed l hash uri version payer)) w =
      register_ttd_compressed-RecordsFollow k env s.light l hash uri version payer w
  taskforest-RecordsFollow (compressed (compress_finished_job l poster job)) w =
      compress_finished_job-RecordsFollow k env s.light l poster job w

  taskforest_payments-RecordsFollow :
      (i : PaymentsInstruction) (w : World) → RecordsFollow k w (taskforest_payments s env i w)
  unfolding taskforest_payments
  taskforest_payments-RecordsFollow (create_escrow_wrapper a) w =
      create_escrow_wrapper-RecordsFollow k env s.runtime a w
  taskforest_payments-RecordsFollow (delegate_to_per validator escrow_id escrow payer) w =
      delegate_to_per-RecordsFollow k env s.runtime validator escrow_id escrow payer w
  taskforest_payments-RecordsFollow (record_payment escrow_id amount escrow caller) w =
      record_payment-RecordsFollow k env s.runtime escrow_id amount escrow caller w
  taskforest_payments-RecordsFollow (verify_tee_attestation sysvar a) w =
      verify_tee_attestation-RecordsFollow k env s.runtime sysvar a w
  taskforest_payments-RecordsFollow (record_settlement a) w =
      record_settlement-RecordsFollow k env s.runtime s.blake3 a w
  taskforest_payments-RecordsFollow (compress_settlement l paid escrow payer) w =
      compress_settlement-RecordsFollow k env s.light l paid escrow payer w

  pub execute-RecordsFollow : (i : Instruction) (w : World) → RecordsFollow k w (execute s env i w)
  unfolding execute
  execute-RecordsFollow (task i) w = taskforest-RecordsFollow i w
  execute-RecordsFollow (payment i) w = taskforest_payments-RecordsFollow i w
