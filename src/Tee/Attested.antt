-- ===== src/Tee/Attested.antt =====
-- What `handler_verify_bid_attestation` of programs/taskforest/src/instructions/tee.rs establishes
-- when it succeeds.
use taskforest_protocol.Prelude.{◌≡◌, true, ◌⊎◌, some, arith, ◌≤ℤ◌}
use taskforest_protocol.Errors.{
  Error, ok, task_forest, Ensures, Ensures-bind, Ensures-require, Ensures-map, Ensures-elim,
  TaskForestError, account_not_signer,
}
use taskforest_protocol.State.{Job, status_open, status_bidding, taskforest_id}
use taskforest_protocol.Chain.{World, Env, as_job, load, store, job_account}
use taskforest_protocol.Lifecycle.{job_at}
use taskforest_protocol.Signature.{Sysvar, is_allowed_validator, verify_attestation_signature}
use taskforest_protocol.Signature.Sound.{SignedBy, verify_attestation_signature-SignedBy}
use taskforest_protocol.Tee.{
  ParsedBidAttestationReport, parse_bid_attestation_report, VerifyBidAttestation,
  verify_bid_attestation,
}

-- An allowed validator has signed a report that names this job, its poster, this key and itself,
-- and that holds now.
pub record Attests (env : Env) (sysvar : Sysvar) (a : VerifyBidAttestation) (job : Job)
    (r : ParsedBidAttestationReport) : Type 0 where
  pub parsed : parse_bid_attestation_report a.attestation_report ≡ ok r
  pub right_job : r.job_id ≡ job.job_id
  pub right_poster : r.poster ≡ job.poster
  pub right_key : r.tee_pubkey ≡ a.tee_pubkey
  pub right_validator : r.validator ≡ a.validator
  pub allowed : is_allowed_validator a.validator ≡ true
  pub signed_report : SignedBy sysvar a.validator a.attestation_report
  pub validator_signs : env.signed a.validator ≡ true
  pub issued : r.issued_at ≤ℤ env.now
  pub not_expired : env.now ≤ℤ r.expires_at
  pub takes_bids : (job.status ≡ status_open) ⊎ (job.status ≡ status_bidding)

abbrev bad_signature : Error
bad_signature = task_forest TaskForestError.invalid_attestation_signature

-- What the handler checks after the report is parsed, and what it writes.
record Checked (env : Env) (sysvar : Sysvar) (a : VerifyBidAttestation) (w : World) (job : Job)
    (r : ParsedBidAttestationReport) (w' : World) : Type 0 where
  same_job : r.job_id ≡ job.job_id
  same_poster : r.poster ≡ job.poster
  same_key : r.tee_pubkey ≡ a.tee_pubkey
  same_validator : r.validator ≡ a.validator
  listed : is_allowed_validator a.validator ≡ true
  verified :
      verify_attestation_signature bad_signature sysvar a.validator a.attestation_report ≡ ok tt
  after_issue : r.issued_at ≤ℤ env.now
  before_expiry : env.now ≤ℤ r.expires_at
  in_bidding : (job.status ≡ status_open) ⊎ (job.status ≡ status_bidding)
  written :
      w'
      ≡ store a.job (job_account (record job { tee_pubkey = a.tee_pubkey; tee_verified = true })) w

Checked-Attests :
    (env : Env) (sysvar : Sysvar) (a : VerifyBidAttestation) (w w' : World) (job : Job)
    (r : ParsedBidAttestationReport)
    → env.signed a.validator ≡ true
    → parse_bid_attestation_report a.attestation_report ≡ ok r
    → Checked env sysvar a w job r w'
    → Attests env sysvar a job r
Checked-Attests env sysvar a w w' job r signs parsed c = record {
  parsed = parsed;
  right_job = c.same_job;
  right_poster = c.same_poster;
  right_key = c.same_key;
  right_validator = c.same_validator;
  allowed = c.listed;
  signed_report =
      Ensures-elim (λ u. SignedBy sysvar a.validator a.attestation_report) c.verified
        (verify_attestation_signature-SignedBy bad_signature sysvar a.validator
          a.attestation_report);
  validator_signs = signs;
  issued = c.after_issue;
  not_expired = c.before_expiry;
  takes_bids = c.in_bidding;
}

-- The job was there, some report attests it, and only its two fields for the enclave change.
abbrev pub MarksAttested : Env → Sysvar → VerifyBidAttestation → World → World → Type 0
MarksAttested env sysvar a w w' =
    (job : Job) × (r : ParsedBidAttestationReport) × (job_at w a.job ≡ some job)
    × Attests env sysvar a job r
    × (w'
        ≡ store a.job (job_account (record job { tee_pubkey = a.tee_pubkey; tee_verified = true }))
            w)

-- An attestation that is accepted marks a job that is open or in bidding, under a report that the
-- parser reads, that names this job, its poster, the key and the validator, that holds at this
-- moment, and that a call of the signature program just before this instruction holds together with
-- the key of that validator, an allowed one. Nothing but the key and the mark changes.
pub verify_bid_attestation-Attests :
    (env : Env) (sysvar : Sysvar) (a : VerifyBidAttestation) (w : World)
    → Ensures (MarksAttested env sysvar a w) (verify_bid_attestation env sysvar a w)
unfolding verify_bid_attestation
verify_bid_attestation-Attests env sysvar a w =
    Ensures-bind _ (load as_job taskforest_id a.job w) _ λ job loaded.
      Ensures-require _ (env.signed a.validator) account_not_signer _ λ signs.
        Ensures-require _ (env.signed a.payer) account_not_signer _ λ payer_signs.
          Ensures-bind _ (parse_bid_attestation_report a.attestation_report) _ λ r parsed.
            Ensures-map (Checked env sysvar a w job r) (MarksAttested env sysvar a w) _
              (λ w' c. (
                job,
                r,
                ground arith,
                Checked-Attests env sysvar a w w' job r signs parsed c,
                c.written,
              ))
              (ground arith)
