-- ===== src/Program/Sound.antt =====
-- Every instruction of both programs keeps every account sound.
use taskforest_protocol.Prelude.{ℕ}
use taskforest_protocol.Chain.{World, Env}
use taskforest_protocol.Accounts.{AccountIsSound, StaysSound}
use taskforest_protocol.Job.Sound.{
  initialize_job-StaysSound, auto_assign_job-StaysSound, create_sub_job-StaysSound,
  expire_claim-StaysSound, expire_unclaimed-StaysSound, extend_deadline-StaysSound,
}
use taskforest_protocol.Bidding.Sound.{
  place_bid-StaysSound, close_bidding-StaysSound, lock_stake-StaysSound,
}
use taskforest_protocol.Proof.Sound.{
  submit_proof-StaysSound, submit_verified_proof-StaysSound, submit_encrypted_proof-StaysSound,
}
use taskforest_protocol.Settlement.Sound.{
  auto_settle-StaysSound, settle_job-StaysSound, claim_timeout-StaysSound,
  archive_settlement-StaysSound,
}
use taskforest_protocol.Dispute.Sound.{
  open_dispute-StaysSound, resolve_dispute-StaysSound, cast_vote-StaysSound, tally_panel-StaysSound,
}
use taskforest_protocol.Registry.Sound.{
  register_ttd-StaysSound, store_credential-StaysSound, clear_credential-StaysSound,
  delegate_job-StaysSound,
}
use taskforest_protocol.Tee.Sound.{verify_bid_attestation-StaysSound}
use taskforest_protocol.Payments.Sound.{
  create_escrow_wrapper-StaysSound, delegate_to_per-StaysSound, record_payment-StaysSound,
  verify_tee_attestation-StaysSound, record_settlement-StaysSound,
}
use taskforest_protocol.Compression.Sound.{
  archive_settlement_compressed-StaysSound, init_agent_reputation-StaysSound,
  init_poster_reputation-StaysSound, register_ttd_compressed-StaysSound,
  compress_finished_job-StaysSound, compress_settlement-StaysSound,
}
use taskforest_protocol.Program.{
  Instruction, task, payment, TaskForestInstruction, PaymentsInstruction, Services, taskforest,
  taskforest_payments, execute, initialize_job, auto_assign_job, create_sub_job, expire_claim,
  expire_unclaimed, extend_deadline, place_bid, close_bidding, lock_stake, submit_proof,
  submit_verified_proof, submit_encrypted_proof, auto_settle, settle_job, claim_timeout,
  archive_settlement, open_dispute, resolve_dispute, cast_vote, tally_panel, register_ttd,
  store_credential, clear_credential, delegate_job, verify_bid_attestation, compressed,
  archive_settlement_compressed, init_agent_reputation, init_poster_reputation,
  register_ttd_compressed, compress_finished_job, create_escrow_wrapper, delegate_to_per,
  record_payment, verify_tee_attestation, record_settlement, compress_settlement,
}

module _ (k : ℕ) (s : Services) (env : Env) where
  taskforest-StaysSound :
      (i : TaskForestInstruction) (w : World)
      → AccountIsSound s.runtime k w
      → StaysSound s.runtime k (taskforest s env i w)
  unfolding taskforest
  taskforest-StaysSound (initialize_job t job poster) w sound =
      initialize_job-StaysSound k env s.runtime t job poster w sound
  taskforest-StaysSound (auto_assign_job agent job poster) w sound =
      auto_assign_job-StaysSound k env s.runtime agent job poster w sound
  taskforest-StaysSound (create_sub_job t parent sub orchestrator) w sound =
      create_sub_job-StaysSound k env s.runtime t parent sub orchestrator w sound
  taskforest-StaysSound (expire_claim job payee) w sound =
      expire_claim-StaysSound k env s.runtime job payee w sound
  taskforest-StaysSound (expire_unclaimed job poster) w sound =
      expire_unclaimed-StaysSound k env s.runtime job poster w sound
  taskforest-StaysSound (extend_deadline new_deadline job poster) w sound =
      extend_deadline-StaysSound k env s.runtime new_deadline job poster w sound
  taskforest-StaysSound (place_bid stake job bidder) w sound =
      place_bid-StaysSound k env s.runtime stake job bidder w sound
  taskforest-StaysSound (close_bidding payer job) w sound =
      close_bidding-StaysSound k env s.runtime payer job w sound
  taskforest-StaysSound (lock_stake job claimer) w sound =
      lock_stake-StaysSound k env s.runtime job claimer w sound
  taskforest-StaysSound (submit_proof proof job submitter) w sound =
      submit_proof-StaysSound k env s.runtime proof job submitter w sound
  taskforest-StaysSound (submit_verified_proof p job submitter) w sound =
      submit_verified_proof-StaysSound k env s.runtime p job submitter w sound
  taskforest-StaysSound (submit_encrypted_proof proof output job submitter) w sound =
      submit_encrypted_proof-StaysSound k env s.runtime proof output job submitter w sound
  taskforest-StaysSound (auto_settle job claimer) w sound =
      auto_settle-StaysSound k env s.runtime job claimer w sound
  taskforest-StaysSound (settle_job verdict a) w sound =
      settle_job-StaysSound k env s.runtime verdict a w sound
  taskforest-StaysSound (claim_timeout job claimer) w sound =
      claim_timeout-StaysSound k env s.runtime job claimer w sound
  taskforest-StaysSound (archive_settlement reason payer job archive) w sound =
      archive_settlement-StaysSound k env s.runtime reason payer job archive w sound
  taskforest-StaysSound (open_dispute a) w sound = open_dispute-StaysSound k env s.runtime a w sound
  taskforest-StaysSound (resolve_dispute verdict a) w sound =
      resolve_dispute-StaysSound k env s.runtime verdict a w sound
  taskforest-StaysSound (cast_vote verdict dispute vote verifier) w sound =
      cast_vote-StaysSound k env s.runtime verdict dispute vote verifier w sound
  taskforest-StaysSound (tally_panel remaining a) w sound =
      tally_panel-StaysSound k env s.runtime remaining a w sound
  taskforest-StaysSound (register_ttd hash uri version ttd creator) w sound =
      register_ttd-StaysSound k env s.runtime hash uri version ttd creator w sound
  taskforest-StaysSound (store_credential hash vault job poster) w sound =
      store_credential-StaysSound k env s.runtime hash vault job poster w sound
  taskforest-StaysSound (clear_credential vault poster) w sound =
      clear_credential-StaysSound k env s.runtime vault poster w sound
  taskforest-StaysSound (delegate_job validator payer job) w sound =
      delegate_job-StaysSound k env s.runtime validator payer job w sound
  taskforest-StaysSound (verify_bid_attestation sysvar a) w sound =
      verify_bid_attestation-StaysSound k env s.runtime sysvar a w sound
  taskforest-StaysSound (compressed (archive_settlement_compressed l reason payer job)) w sound =
      archive_settlement_compressed-StaysSound k env s.runtime s.light l reason payer job w sound
  taskforest-StaysSound (compressed (init_agent_reputation l r payer)) w sound =
      init_agent_reputation-StaysSound k env s.runtime s.light l r payer w sound
  taskforest-StaysSound (compressed (init_poster_reputation l r payer)) w sound =
      init_poster_reputation-StaysSound k env s.runtime s.light l r payer w sound
  taskforest-StaysSound (compressed (register_ttd_compressed l hash uri version payer)) w sound =
      register_ttd_compressed-StaysSound k env s.runtime s.light l hash uri version payer w sound
  taskforest-StaysSound (compressed (compress_finished_job l poster job)) w sound =
      compress_finished_job-StaysSound k env s.runtime s.light l poster job w sound

  taskforest_payments-StaysSound :
      (i : PaymentsInstruction) (w : World)
      → AccountIsSound s.runtime k w
      → StaysSound s.runtime k (taskforest_payments s env i w)
  unfolding taskforest_payments
  taskforest_payments-StaysSound (create_escrow_wrapper a) w sound =
      create_escrow_wrapper-StaysSound k env s.runtime a w sound
  taskforest_payments-StaysSound (delegate_to_per validator escrow_id escrow payer) w sound =
      delegate_to_per-StaysSound k env s.runtime validator escrow_id escrow payer w sound
  taskforest_payments-StaysSound (record_payment escrow_id amount escrow caller) w sound =
      record_payment-StaysSound k env s.runtime escrow_id amount escrow caller w sound
  taskforest_payments-StaysSound (verify_tee_attestation sysvar a) w sound =
      verify_tee_attestation-StaysSound k env s.runtime sysvar a w sound
  taskforest_payments-StaysSound (record_settlement a) w sound =
      record_settlement-StaysSound k env s.runtime s.blake3 a w sound
  taskforest_payments-StaysSound (compress_settlement l paid escrow payer) w sound =
      compress_settlement-StaysSound k env s.runtime s.light l paid escrow payer w sound

  pub execute-StaysSound :
      (i : Instruction) (w : World)
      → AccountIsSound s.runtime k w
      → StaysSound s.runtime k (execute s env i w)
  unfolding execute
  execute-StaysSound (task i) w sound = taskforest-StaysSound i w sound
  execute-StaysSound (payment i) w sound = taskforest_payments-StaysSound i w sound
