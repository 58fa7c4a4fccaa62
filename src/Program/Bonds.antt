-- ===== src/Program/Bonds.antt =====
-- Every instruction of both programs keeps in the accounts of disputes and escrows what they must
-- hold.
use taskforest_protocol.Prelude.{ℕ}
use taskforest_protocol.Chain.{World, Env, IsLawful}
use taskforest_protocol.Escrow.{SignsFairly}
use taskforest_protocol.Bonds.{BondIsHeld, Holds}
use taskforest_protocol.Job.Bonds.{
  initialize_job-Holds, auto_assign_job-Holds, create_sub_job-Holds, expire_claim-Holds,
  expire_unclaimed-Holds, extend_deadline-Holds,
}
use taskforest_protocol.Bidding.Bonds.{place_bid-Holds, close_bidding-Holds, lock_stake-Holds}
use taskforest_protocol.Proof.Bonds.{
  submit_proof-Holds, submit_verified_proof-Holds, submit_encrypted_proof-Holds,
}
use taskforest_protocol.Settlement.Bonds.{
  auto_settle-Holds, settle_job-Holds, claim_timeout-Holds, archive_settlement-Holds,
}
use taskforest_protocol.Dispute.Bonds.{
  open_dispute-Holds, resolve_dispute-Holds, cast_vote-Holds, tally_panel-Holds,
}
use taskforest_protocol.Registry.Bonds.{
  register_ttd-Holds, store_credential-Holds, clear_credential-Holds, delegate_job-Holds,
}
use taskforest_protocol.Tee.Bonds.{verify_bid_attestation-Holds}
use taskforest_protocol.Payments.Bonds.{
  create_escrow_wrapper-Holds, delegate_to_per-Holds, record_payment-Holds,
  verify_tee_attestation-Holds, record_settlement-Holds,
}
use taskforest_protocol.Compression.Bonds.{
  archive_settlement_compressed-Holds, init_agent_reputation-Holds, init_poster_reputation-Holds,
  register_ttd_compressed-Holds, compress_finished_job-Holds, compress_settlement-Holds,
}
use taskforest_protocol.Program.{
  Instruction, task, payment, TaskForestInstruction, PaymentsInstruction, Services, taskforest,
  taskforest_payments, execute, initialize_job, auto_assign_job, create_sub_job, expire_claim,
  expire_unclaimed, extend_deadline, place_bid, close_bidding, lock_stake, submit_proof,
  submit_verified_proof, submit_encrypted_proof, auto_settle, settle_job, claim_timeout,
  archive_settlement, open_dispute, resolve_dispute, cast_vote, tally_panel, register_ttd,
  store_credential, clear_credential, delegate_job, verify_bid_attestation, compressed,
  archive_settlement_compressed, init_agent_reputation, init_poster_reputation,
  register_ttd_compressed, compress_finished_job, create_escrow_wrapper, delegate_to_per,
  record_payment, verify_tee_attestation, record_settlement, compress_settlement,
}

module _ (k : ℕ) (s : Services) (env : Env) (law : IsLawful s.runtime) where
  taskforest-Holds :
      (i : TaskForestInstruction) (w : World)
      → BondIsHeld s.runtime k w
      → SignsFairly s.runtime env w
      → Holds s.runtime k (taskforest s env i w)
  unfolding taskforest
  taskforest-Holds (initialize_job t job poster) w held fair =
      initialize_job-Holds k env s.runtime law t job poster w held fair
  taskforest-Holds (auto_assign_job agent job poster) w held fair =
      auto_assign_job-Holds k env s.runtime law agent job poster w held fair
  taskforest-Holds (create_sub_job t parent sub orchestrator) w held fair =
      create_sub_job-Holds k env s.runtime law t parent sub orchestrator w held fair
  taskforest-Holds (expire_claim job payee) w held fair =
      expire_claim-Holds k env s.runtime law job payee w held fair
  taskforest-Holds (expire_unclaimed job poster) w held fair =
      expire_unclaimed-Holds k env s.runtime law job poster w held fair
  taskforest-Holds (extend_deadline new_deadline job poster) w held fair =
      extend_deadline-Holds k env s.runtime law new_deadline job poster w held fair
  taskforest-Holds (place_bid stake job bidder) w held fair =
      place_bid-Holds k env s.runtime law stake job bidder w held fair
  taskforest-Holds (close_bidding payer job) w held fair =
      close_bidding-Holds k env s.runtime law payer job w held fair
  taskforest-Holds (lock_stake job claimer) w held fair =
      lock_stake-Holds k env s.runtime law job claimer w held fair
  taskforest-Holds (submit_proof proof job submitter) w held fair =
      submit_proof-Holds k env s.runtime law proof job submitter w held fair
  taskforest-Holds (submit_verified_proof p job submitter) w held fair =
      submit_verified_proof-Holds k env s.runtime law p job submitter w held fair
  taskforest-Holds (submit_encrypted_proof proof output job submitter) w held fair =
      submit_encrypted_proof-Holds k env s.runtime law proof output job submitter w held fair
  taskforest-Holds (auto_settle job claimer) w held fair =
      auto_settle-Holds k env s.runtime law job claimer w held fair
  taskforest-Holds (settle_job verdict a) w held fair =
      settle_job-Holds k env s.runtime law verdict a w held fair
  taskforest-Holds (claim_timeout job claimer) w held fair =
      claim_timeout-Holds k env s.runtime law job claimer w held fair
  taskforest-Holds (archive_settlement reason payer job archive) w held fair =
      archive_settlement-Holds k env s.runtime law reason payer job archive w held fair
  taskforest-Holds (open_dispute a) w held fair =
      open_dispute-Holds k env s.runtime law a w held fair
  taskforest-Holds (resolve_dispute verdict a) w held fair =
      resolve_dispute-Holds k env s.runtime law verdict a w held fair
  taskforest-Holds (cast_vote verdict dispute vote verifier) w held fair =
      cast_vote-Holds k env s.runtime law verdict dispute vote verifier w held fair
  taskforest-Holds (tally_panel remaining a) w held fair =
      tally_panel-Holds k env s.runtime law remaining a w held fair
  taskforest-Holds (register_ttd hash uri version ttd creator) w held fair =
      register_ttd-Holds k env s.runtime law hash uri version ttd creator w held fair
  taskforest-Holds (store_credential hash vault job poster) w held fair =
      store_credential-Holds k env s.runtime law hash vault job poster w held fair
  taskforest-Holds (clear_credential vault poster) w held fair =
      clear_credential-Holds k env s.runtime law vault poster w held fair
  taskforest-Holds (delegate_job validator payer job) w held fair =
      delegate_job-Holds k env s.runtime law validator payer job w held fair
  taskforest-Holds (verify_bid_attestation sysvar a) w held fair =
      verify_bid_attestation-Holds k env s.runtime law sysvar a w held fair
  taskforest-Holds (compressed (archive_settlement_compressed l reason payer job)) w held fair =
      archive_settlement_compressed-Holds k env s.runtime law s.light l reason payer job w held fair
  taskforest-Holds (compressed (init_agent_reputation l r payer)) w held fair =
      init_agent_reputation-Holds k env s.runtime law s.light l r payer w held fair
  taskforest-Holds (compressed (init_poster_reputation l r payer)) w held fair =
      init_poster_reputation-Holds k env s.runtime law s.light l r payer w held fair
  taskforest-Holds (compressed (register_ttd_compressed l hash uri version payer)) w held fair =
      register_ttd_compressed-Holds k env s.runtime law s.light l hash uri version payer w held fair
  taskforest-Holds (compressed (compress_finished_job l poster job)) w held fair =
      compress_finished_job-Holds k env s.runtime law s.light l poster job w held fair

  taskforest_payments-Holds :
      (i : PaymentsInstruction) (w : World)
      → BondIsHeld s.runtime k w
      → SignsFairly s.runtime env w
      → Holds s.runtime k (taskforest_payments s env i w)
  unfolding taskforest_payments
  taskforest_payments-Holds (create_escrow_wrapper a) w held fair =
      create_escrow_wrapper-Holds k env s.runtime law a w held fair
  taskforest_payments-Holds (delegate_to_per validator escrow_id escrow payer) w held fair =
      delegate_to_per-Holds k env s.runtime law validator escrow_id escrow payer w held fair
  taskforest_payments-Holds (record_payment escrow_id amount escrow caller) w held fair =
      record_payment-Holds k env s.runtime law escrow_id amount escrow caller w held fair
  taskforest_payments-Holds (verify_tee_attestation sysvar a) w held fair =
      verify_tee_attestation-Holds k env s.runtime law sysvar a w held fair
  taskforest_payments-Holds (record_settlement a) w held fair =
      record_settlement-Holds k env s.runtime law s.blake3 a w held fair
  taskforest_payments-Holds (compress_settlement l paid escrow payer) w held fair =
      compress_settlement-Holds k env s.runtime law s.light l paid escrow payer w held fair

  pub execute-Holds :
      (i : Instruction) (w : World)
      → BondIsHeld s.runtime k w
      → SignsFairly s.runtime env w
      → Holds s.runtime k (execute s env i w)
  unfolding execute
  execute-Holds (task i) w held fair = taskforest-Holds i w held fair
  execute-Holds (payment i) w held fair = taskforest_payments-Holds i w held fair
