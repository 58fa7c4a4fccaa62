-- ===== src/Program/Escrow.antt =====
-- Every instruction of both programs keeps in every job account what it must hold.
use taskforest_protocol.Prelude.{ℕ}
use taskforest_protocol.Chain.{World, Env, IsLawful}
use taskforest_protocol.Escrow.{JobIsFunded, Funds, SignsFairly}
use taskforest_protocol.Job.Escrow.{
  initialize_job-Funds, auto_assign_job-Funds, create_sub_job-Funds, expire_claim-Funds,
  expire_unclaimed-Funds, extend_deadline-Funds,
}
use taskforest_protocol.Bidding.Escrow.{place_bid-Funds, close_bidding-Funds, lock_stake-Funds}
use taskforest_protocol.Proof.Escrow.{
  submit_proof-Funds, submit_verified_proof-Funds, submit_encrypted_proof-Funds,
}
use taskforest_protocol.Settlement.Escrow.{
  auto_settle-Funds, settle_job-Funds, claim_timeout-Funds, archive_settlement-Funds,
}
use taskforest_protocol.Dispute.Escrow.{
  open_dispute-Funds, resolve_dispute-Funds, cast_vote-Funds, tally_panel-Funds,
}
use taskforest_protocol.Registry.Escrow.{
  register_ttd-Funds, store_credential-Funds, clear_credential-Funds, delegate_job-Funds,
}
use taskforest_protocol.Tee.Escrow.{verify_bid_attestation-Funds}
use taskforest_protocol.Payments.Escrow.{
  create_escrow_wrapper-Funds, delegate_to_per-Funds, record_payment-Funds,
  verify_tee_attestation-Funds, record_settlement-Funds,
}
use taskforest_protocol.Compression.Escrow.{
  archive_settlement_compressed-Funds, init_agent_reputation-Funds, init_poster_reputation-Funds,
  register_ttd_compressed-Funds, compress_finished_job-Funds, compress_settlement-Funds,
}
use taskforest_protocol.Program.{
  Instruction, task, payment, TaskForestInstruction, PaymentsInstruction, Services, taskforest,
  taskforest_payments, execute, initialize_job, auto_assign_job, create_sub_job, expire_claim,
  expire_unclaimed, extend_deadline, place_bid, close_bidding, lock_stake, submit_proof,
  submit_verified_proof, submit_encrypted_proof, auto_settle, settle_job, claim_timeout,
  archive_settlement, open_dispute, resolve_dispute, cast_vote, tally_panel, register_ttd,
  store_credential, clear_credential, delegate_job, verify_bid_attestation, compressed,
  archive_settlement_compressed, init_agent_reputation, init_poster_reputation,
  register_ttd_compressed, compress_finished_job, create_escrow_wrapper, delegate_to_per,
  record_payment, verify_tee_attestation, record_settlement, compress_settlement,
}

module _ (k : ℕ) (s : Services) (env : Env) (law : IsLawful s.runtime) where
  taskforest-Funds :
      (i : TaskForestInstruction) (w : World)
      → JobIsFunded s.runtime k w
      → SignsFairly s.runtime env w
      → Funds s.runtime k (taskforest s env i w)
  unfolding taskforest
  taskforest-Funds (initialize_job t job poster) w funded fair =
      initialize_job-Funds k env s.runtime law t job poster w funded fair
  taskforest-Funds (auto_assign_job agent job poster) w funded fair =
      auto_assign_job-Funds k env s.runtime law agent job poster w funded fair
  taskforest-Funds (create_sub_job t parent sub orchestrator) w funded fair =
      create_sub_job-Funds k env s.runtime law t parent sub orchestrator w funded fair
  taskforest-Funds (expire_claim job payee) w funded fair =
      expire_claim-Funds k env s.runtime law job payee w funded fair
  taskforest-Funds (expire_unclaimed job poster) w funded fair =
      expire_unclaimed-Funds k env s.runtime law job poster w funded fair
  taskforest-Funds (extend_deadline new_deadline job poster) w funded fair =
      extend_deadline-Funds k env s.runtime law new_deadline job poster w funded fair
  taskforest-Funds (place_bid stake job bidder) w funded fair =
      place_bid-Funds k env s.runtime law stake job bidder w funded fair
  taskforest-Funds (close_bidding payer job) w funded fair =
      close_bidding-Funds k env s.runtime law payer job w funded fair
  taskforest-Funds (lock_stake job claimer) w funded fair =
      lock_stake-Funds k env s.runtime law job claimer w funded fair
  taskforest-Funds (submit_proof proof job submitter) w funded fair =
      submit_proof-Funds k env s.runtime law proof job submitter w funded fair
  taskforest-Funds (submit_verified_proof p job submitter) w funded fair =
      submit_verified_proof-Funds k env s.runtime law p job submitter w funded fair
  taskforest-Funds (submit_encrypted_proof proof output job submitter) w funded fair =
      submit_encrypted_proof-Funds k env s.runtime law proof output job submitter w funded fair
  taskforest-Funds (auto_settle job claimer) w funded fair =
      auto_settle-Funds k env s.runtime law job claimer w funded fair
  taskforest-Funds (settle_job verdict a) w funded fair =
      settle_job-Funds k env s.runtime law verdict a w funded fair
  taskforest-Funds (claim_timeout job claimer) w funded fair =
      claim_timeout-Funds k env s.runtime law job claimer w funded fair
  taskforest-Funds (archive_settlement reason payer job archive) w funded fair =
      archive_settlement-Funds k env s.runtime law reason payer job archive w funded fair
  taskforest-Funds (open_dispute a) w funded fair =
      open_dispute-Funds k env s.runtime law a w funded fair
  taskforest-Funds (resolve_dispute verdict a) w funded fair =
      resolve_dispute-Funds k env s.runtime law verdict a w funded fair
  taskforest-Funds (cast_vote verdict dispute vote verifier) w funded fair =
      cast_vote-Funds k env s.runtime law verdict dispute vote verifier w funded fair
  taskforest-Funds (tally_panel remaining a) w funded fair =
      tally_panel-Funds k env s.runtime law remaining a w funded fair
  taskforest-Funds (register_ttd hash uri version ttd creator) w funded fair =
      register_ttd-Funds k env s.runtime law hash uri version ttd creator w funded fair
  taskforest-Funds (store_credential hash vault job poster) w funded fair =
      store_credential-Funds k env s.runtime law hash vault job poster w funded fair
  taskforest-Funds (clear_credential vault poster) w funded fair =
      clear_credential-Funds k env s.runtime law vault poster w funded fair
  taskforest-Funds (delegate_job validator payer job) w funded fair =
      delegate_job-Funds k env s.runtime law validator payer job w funded fair
  taskforest-Funds (verify_bid_attestation sysvar a) w funded fair =
      verify_bid_attestation-Funds k env s.runtime law sysvar a w funded fair
  taskforest-Funds (compressed (archive_settlement_compressed l reason payer job)) w funded fair =
      archive_settlement_compressed-Funds k env s.runtime law s.light l reason payer job w funded
        fair
  taskforest-Funds (compressed (init_agent_reputation l r payer)) w funded fair =
      init_agent_reputation-Funds k env s.runtime law s.light l r payer w funded fair
  taskforest-Funds (compressed (init_poster_reputation l r payer)) w funded fair =
      init_poster_reputation-Funds k env s.runtime law s.light l r payer w funded fair
  taskforest-Funds (compressed (register_ttd_compressed l hash uri version payer)) w funded fair =
      register_ttd_compressed-Funds k env s.runtime law s.light l hash uri version payer w funded
        fair
  taskforest-Funds (compressed (compress_finished_job l poster job)) w funded fair =
      compress_finished_job-Funds k env s.runtime law s.light l poster job w funded fair

  taskforest_payments-Funds :
      (i : PaymentsInstruction) (w : World)
      → JobIsFunded s.runtime k w
      → SignsFairly s.runtime env w
      → Funds s.runtime k (taskforest_payments s env i w)
  unfolding taskforest_payments
  taskforest_payments-Funds (create_escrow_wrapper a) w funded fair =
      create_escrow_wrapper-Funds k env s.runtime law a w funded fair
  taskforest_payments-Funds (delegate_to_per validator escrow_id escrow payer) w funded fair =
      delegate_to_per-Funds k env s.runtime law validator escrow_id escrow payer w funded fair
  taskforest_payments-Funds (record_payment escrow_id amount escrow caller) w funded fair =
      record_payment-Funds k env s.runtime law escrow_id amount escrow caller w funded fair
  taskforest_payments-Funds (verify_tee_attestation sysvar a) w funded fair =
      verify_tee_attestation-Funds k env s.runtime law sysvar a w funded fair
  taskforest_payments-Funds (record_settlement a) w funded fair =
      record_settlement-Funds k env s.runtime law s.blake3 a w funded fair
  taskforest_payments-Funds (compress_settlement l paid escrow payer) w funded fair =
      compress_settlement-Funds k env s.runtime law s.light l paid escrow payer w funded fair

  pub execute-Funds :
      (i : Instruction) (w : World)
      → JobIsFunded s.runtime k w
      → SignsFairly s.runtime env w
      → Funds s.runtime k (execute s env i w)
  unfolding execute
  execute-Funds (task i) w funded fair = taskforest-Funds i w funded fair
  execute-Funds (payment i) w funded fair = taskforest_payments-Funds i w funded fair
