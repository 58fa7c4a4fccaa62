-- ===== src/Tee.antt =====
-- programs/taskforest/src/instructions/tee.rs: the attestation that bids are taken in an enclave.
pub mod Escrow
pub mod Invariant
pub mod Conserves
pub mod RoundTrip
pub mod Attested
pub mod Lifecycle
pub mod Bonds
pub mod Sound
pub mod Records
use taskforest_protocol.Prelude.{
  ℕ, Bool, true, false, ◌&&◌, ◌||◌, not, Option, none, some, List, [], ◌∷◌, ℤ, drop, length, leb_ℤ,
  ◌==◌,
}
use taskforest_protocol.Errors.{
  Error, Result, ok, ◌>>=◌, ◌>>◌, require, ok_or, task_forest, wrong_status, attestation_mismatch,
  attestation_expired, invalid_validator, TaskForestError,
}
use taskforest_protocol.Bytes.{read_number, to_i64, has_magic, has_byte}
use taskforest_protocol.Signature.{Sysvar, verify_attestation_signature, is_allowed_validator}
use taskforest_protocol.State.{taskforest_id, status_open, status_bidding}
use taskforest_protocol.Chain.{World, Env, job_account, as_job, signer, load, store}

-- TFBA
abbrev pub bid_attestation_magic : List ℕ
bid_attestation_magic = b'T' ∷ b'F' ∷ b'B' ∷ b'A' ∷ []

abbrev pub attestation_version : ℕ
attestation_version = 1

abbrev pub attestation_report_len : ℕ
attestation_report_len = 128

pub record ParsedBidAttestationReport : Type 0 where
  pub job_id : ℕ
  pub poster : ℕ
  pub validator : ℕ
  pub tee_pubkey : ℕ
  pub issued_at : ℤ
  pub expires_at : ℤ

abbrev invalid_report : Error
invalid_report = task_forest TaskForestError.invalid_attestation

unfoldable pub parse_bid_attestation_report : List ℕ → Result ParsedBidAttestationReport
parse_bid_attestation_report report = do
  require (length report == attestation_report_len) invalid_report
  require (has_magic bid_attestation_magic 4 report) invalid_report
  require (has_byte 4 attestation_version report) invalid_report
  job_id ← read_number invalid_report 8 report 8
  poster ← read_number invalid_report 32 report 16
  validator ← read_number invalid_report 32 report 48
  tee_pubkey ← read_number invalid_report 32 report 80
  issued_at ← read_number invalid_report 8 report 112
  expires_at ← read_number invalid_report 8 report 120
  ok (record {
    job_id = job_id;
    poster = poster;
    validator = validator;
    tee_pubkey = tee_pubkey;
    issued_at = to_i64 issued_at;
    expires_at = to_i64 expires_at;
  })

-- The arguments and the accounts of `verify_bid_attestation`.
pub record VerifyBidAttestation : Type 0 where
  pub attestation_report : List ℕ
  pub tee_pubkey : ℕ
  pub job : ℕ
  pub validator : ℕ
  pub payer : ℕ

unfoldable pub verify_bid_attestation : Env → Sysvar → VerifyBidAttestation → World → Result World
verify_bid_attestation env sysvar a w = do
  job ← load as_job taskforest_id a.job w
  signer env a.validator
  signer env a.payer
  report ← parse_bid_attestation_report a.attestation_report
  require (report.job_id == job.job_id) (task_forest attestation_mismatch)
  require (report.poster == job.poster) (task_forest attestation_mismatch)
  require (report.tee_pubkey == a.tee_pubkey) (task_forest attestation_mismatch)
  require (not (length a.attestation_report == 0)) invalid_report
  require (is_allowed_validator a.validator) (task_forest invalid_validator)
  require (report.validator == a.validator) (task_forest attestation_mismatch)
  verify_attestation_signature (task_forest TaskForestError.invalid_attestation_signature) sysvar
      a.validator a.attestation_report
  require (leb_ℤ report.issued_at env.now && leb_ℤ env.now report.expires_at)
      (task_forest attestation_expired)
  require (job.status == status_open || job.status == status_bidding) (task_forest wrong_status)
  ok (store a.job (job_account (record job { tee_pubkey = a.tee_pubkey; tee_verified = true })) w)
