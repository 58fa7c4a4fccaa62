-- ===== src/Program/Conserves.antt =====
-- No instruction of either program makes or loses lamports.
use taskforest_protocol.Prelude.{ℕ, ◌≡◌, List, [], ◌∷◌, All}
use taskforest_protocol.Chain.{World, Env, IsLawful}
use taskforest_protocol.Chain.Ledger.{count}
use taskforest_protocol.Chain.Keeps.{Conserves}
use taskforest_protocol.Job.Conserves.{
  initialize_job-Conserves, auto_assign_job-Conserves, create_sub_job-Conserves,
  expire_claim-Conserves, expire_unclaimed-Conserves, extend_deadline-Conserves,
}
use taskforest_protocol.Bidding.Conserves.{
  place_bid-Conserves, close_bidding-Conserves, lock_stake-Conserves,
}
use taskforest_protocol.Proof.Conserves.{
  submit_proof-Conserves, submit_verified_proof-Conserves, submit_encrypted_proof-Conserves,
}
use taskforest_protocol.Settlement.Conserves.{
  auto_settle-Conserves, settle_job-Conserves, claim_timeout-Conserves,
  archive_settlement-Conserves,
}
use taskforest_protocol.Dispute.Conserves.{
  open_dispute-Conserves, resolve_dispute-Conserves, cast_vote-Conserves, tally_panel-Conserves,
}
use taskforest_protocol.Registry.Conserves.{
  register_ttd-Conserves, store_credential-Conserves, clear_credential-Conserves,
  delegate_job-Conserves,
}
use taskforest_protocol.Tee.Conserves.{verify_bid_attestation-Conserves}
use taskforest_protocol.Payments.Conserves.{
  create_escrow_wrapper-Conserves, delegate_to_per-Conserves, record_payment-Conserves,
  verify_tee_attestation-Conserves, record_settlement-Conserves,
}
use taskforest_protocol.Compression.Conserves.{
  archive_settlement_compressed-Conserves, init_agent_reputation-Conserves,
  init_poster_reputation-Conserves, register_ttd_compressed-Conserves,
  compress_finished_job-Conserves, compress_settlement-Conserves,
}
use taskforest_protocol.Program.{
  Instruction, task, payment, TaskForestInstruction, PaymentsInstruction, Services, taskforest,
  taskforest_payments, execute, initialize_job, auto_assign_job, create_sub_job, expire_claim,
  expire_unclaimed, extend_deadline, place_bid, close_bidding, lock_stake, submit_proof,
  submit_verified_proof, submit_encrypted_proof, auto_settle, settle_job, claim_timeout,
  archive_settlement, open_dispute, resolve_dispute, cast_vote, tally_panel, register_ttd,
  store_credential, clear_credential, delegate_job, verify_bid_attestation, compressed,
  archive_settlement_compressed, init_agent_reputation, init_poster_reputation,
  register_ttd_compressed, compress_finished_job, create_escrow_wrapper, delegate_to_per,
  record_payment, verify_tee_attestation, record_settlement, compress_settlement,
}

-- The accounts whose lamports an instruction may change.
abbrev pub participants : Instruction → List ℕ
participants (task (initialize_job t job poster)) = poster ∷ job ∷ []
participants (task (auto_assign_job agent job poster)) = []
participants (task (create_sub_job t parent sub orchestrator)) = orchestrator ∷ sub ∷ parent ∷ []
participants (task (expire_claim job payee)) = job ∷ payee ∷ []
participants (task (expire_unclaimed job poster)) = job ∷ poster ∷ []
participants (task (extend_deadline new_deadline job poster)) = []
participants (task (place_bid stake job bidder)) = []
participants (task (close_bidding payer job)) = []
participants (task (lock_stake job claimer)) = job ∷ claimer ∷ []
participants (task (submit_proof proof job submitter)) = []
participants (task (submit_verified_proof p job submitter)) = []
participants (task (submit_encrypted_proof proof output job submitter)) = []
participants (task (auto_settle job claimer)) = job ∷ claimer ∷ []
participants (task (settle_job verdict a)) = a.job ∷ a.poster_account ∷ a.claimer_account ∷ []
participants (task (claim_timeout job claimer)) = job ∷ claimer ∷ []
participants (task (archive_settlement reason payer job archive)) = payer ∷ archive ∷ []
participants (task (open_dispute a)) = a.challenger ∷ a.dispute ∷ []
participants (task (resolve_dispute verdict a)) = a.job ∷ a.dispute ∷ a.challenger_account ∷ []
participants (task (cast_vote verdict dispute vote verifier)) = verifier ∷ vote ∷ []
participants (task (tally_panel remaining a)) = a.job ∷ a.dispute ∷ a.challenger_account ∷ []
participants (task (register_ttd hash uri version ttd creator)) = creator ∷ ttd ∷ []
participants (task (store_credential hash vault job poster)) = poster ∷ vault ∷ []
participants (task (clear_credential vault poster)) = []
participants (task (delegate_job validator payer job)) = []
participants (task (verify_bid_attestation sysvar a)) = []
participants (task (compressed (archive_settlement_compressed l reason payer job))) = []
participants (task (compressed (init_agent_reputation l r payer))) = []
participants (task (compressed (init_poster_reputation l r payer))) = []
participants (task (compressed (register_ttd_compressed l hash uri version payer))) = []
participants (task (compressed (compress_finished_job l poster job))) = poster ∷ job ∷ []
participants (payment (create_escrow_wrapper a)) = a.poster ∷ a.escrow ∷ []
participants (payment (delegate_to_per validator escrow_id escrow payer)) = []
participants (payment (record_payment escrow_id amount escrow caller)) = []
participants (payment (verify_tee_attestation sysvar a)) = []
participants (payment (record_settlement a)) =
    a.escrow ∷ a.settlement_record ∷ a.poster ∷ a.agent ∷ a.payer ∷ []
participants (payment (compress_settlement l paid escrow payer)) = []

module _ (ks : List ℕ) (s : Services) (law : IsLawful s.runtime) (env : Env) where
  abbrev pub AllOnce : List ℕ → Type 0
  AllOnce xs = All (λ k. count k ks ≡ 1) xs

  taskforest-Conserves :
      (i : TaskForestInstruction) (w : World)
      → AllOnce (participants (task i))
      → Conserves ks w (taskforest s env i w)
  unfolding taskforest
  taskforest-Conserves (initialize_job t job poster) w h =
      initialize_job-Conserves ks env s.runtime law t job poster w h.0 h.1.0
  taskforest-Conserves (auto_assign_job agent job poster) w h =
      auto_assign_job-Conserves ks env agent job poster w
  taskforest-Conserves (create_sub_job t parent sub orchestrator) w h =
      create_sub_job-Conserves ks env s.runtime law t parent sub orchestrator w h.0 h.1.0 h.1.1.0
  taskforest-Conserves (expire_claim job payee) w h =
      expire_claim-Conserves ks env s.runtime job payee w h.0 h.1.0
  taskforest-Conserves (expire_unclaimed job poster) w h =
      expire_unclaimed-Conserves ks env s.runtime job poster w h.0 h.1.0
  taskforest-Conserves (extend_deadline new_deadline job poster) w h =
      extend_deadline-Conserves ks env new_deadline job poster w
  taskforest-Conserves (place_bid stake job bidder) w h =
      place_bid-Conserves ks env stake job bidder w
  taskforest-Conserves (close_bidding payer job) w h =
      close_bidding-Conserves ks env s.runtime payer job w
  taskforest-Conserves (lock_stake job claimer) w h =
      lock_stake-Conserves ks env s.runtime law job claimer w h.0 h.1.0
  taskforest-Conserves (submit_proof proof job submitter) w h =
      submit_proof-Conserves ks env proof job submitter w
  taskforest-Conserves (submit_verified_proof p job submitter) w h =
      submit_verified_proof-Conserves ks env p job submitter w
  taskforest-Conserves (submit_encrypted_proof proof output job submitter) w h =
      submit_encrypted_proof-Conserves ks env proof output job submitter w
  taskforest-Conserves (auto_settle job claimer) w h =
      auto_settle-Conserves ks env s.runtime job claimer w h.0 h.1.0
  taskforest-Conserves (settle_job verdict a) w h =
      settle_job-Conserves ks env s.runtime verdict a w h.0 h.1.0 h.1.1.0
  taskforest-Conserves (claim_timeout job claimer) w h =
      claim_timeout-Conserves ks env s.runtime job claimer w h.0 h.1.0
  taskforest-Conserves (archive_settlement reason payer job archive) w h =
      archive_settlement-Conserves ks env s.runtime law reason payer job archive w h.0 h.1.0
  taskforest-Conserves (open_dispute a) w h =
      open_dispute-Conserves ks env s.runtime law a w h.0 h.1.0
  taskforest-Conserves (resolve_dispute verdict a) w h =
      resolve_dispute-Conserves ks env s.runtime verdict a w h.0 h.1.0 h.1.1.0
  taskforest-Conserves (cast_vote verdict dispute vote verifier) w h =
      cast_vote-Conserves ks env s.runtime law verdict dispute vote verifier w h.0 h.1.0
  taskforest-Conserves (tally_panel remaining a) w h =
      tally_panel-Conserves ks env s.runtime remaining a w h.0 h.1.0 h.1.1.0
  taskforest-Conserves (register_ttd hash uri version ttd creator) w h =
      register_ttd-Conserves ks env s.runtime law hash uri version ttd creator w h.0 h.1.0
  taskforest-Conserves (store_credential hash vault job poster) w h =
      store_credential-Conserves ks env s.runtime law hash vault job poster w h.0 h.1.0
  taskforest-Conserves (clear_credential vault poster) w h =
      clear_credential-Conserves ks env vault poster w
  taskforest-Conserves (delegate_job validator payer job) w h =
      delegate_job-Conserves ks env s.runtime validator payer job w
  taskforest-Conserves (verify_bid_attestation sysvar a) w h =
      verify_bid_attestation-Conserves ks env sysvar a w
  taskforest-Conserves (compressed (archive_settlement_compressed l reason payer job)) w h =
      archive_settlement_compressed-Conserves ks env s.light l reason payer job w
  taskforest-Conserves (compressed (init_agent_reputation l r payer)) w h =
      init_agent_reputation-Conserves ks env s.light l r payer w
  taskforest-Conserves (compressed (init_poster_reputation l r payer)) w h =
      init_poster_reputation-Conserves ks env s.light l r payer w
  taskforest-Conserves (compressed (register_ttd_compressed l hash uri version payer)) w h =
      register_ttd_compressed-Conserves ks env s.light l hash uri version payer w
  taskforest-Conserves (compressed (compress_finished_job l poster job)) w h =
      compress_finished_job-Conserves ks env s.light l poster job w h.0 h.1.0

  taskforest_payments-Conserves :
      (i : PaymentsInstruction) (w : World)
      → AllOnce (participants (payment i))
      → Conserves ks w (taskforest_payments s env i w)
  unfolding taskforest_payments
  taskforest_payments-Conserves (create_escrow_wrapper a) w h =
      create_escrow_wrapper-Conserves ks env s.runtime law a w h.0 h.1.0
  taskforest_payments-Conserves (delegate_to_per validator escrow_id escrow payer) w h =
      delegate_to_per-Conserves ks env s.runtime validator escrow_id escrow payer w
  taskforest_payments-Conserves (record_payment escrow_id amount escrow caller) w h =
      record_payment-Conserves ks env s.runtime escrow_id amount escrow caller w
  taskforest_payments-Conserves (verify_tee_attestation sysvar a) w h =
      verify_tee_attestation-Conserves ks env s.runtime sysvar a w
  taskforest_payments-Conserves (record_settlement a) w h =
      record_settlement-Conserves ks env s.runtime law s.blake3 a w h.0 h.1.0 h.1.1.0 h.1.1.1.0
        h.1.1.1.1.0
  taskforest_payments-Conserves (compress_settlement l paid escrow payer) w h =
      compress_settlement-Conserves ks env s.light l paid escrow payer w

  -- Over any list that names the instruction's accounts once each, the sum of the lamports after an
  -- instruction that succeeds is the sum before it. The transfers and the creation of accounts by
  -- the runtime are taken to do what is documented of them.
  pub execute-Conserves :
      (i : Instruction) (w : World) → AllOnce (participants i) → Conserves ks w (execute s env i w)
  unfolding execute
  execute-Conserves (task i) w h = taskforest-Conserves i w h
  execute-Conserves (payment i) w h = taskforest_payments-Conserves i w h
