-- ===== src/Records.antt =====
-- How an instruction may change the accounts other than jobs, whichever instruction it is: what is
-- written once stays, a dispute is resolved once, a vault is cleared for good, and an escrow goes
-- from its deposit through the session to its settlement.
use taskforest_protocol.Prelude.{ℕ, ◌≤◌, ◌≡◌, Bool, true, false, not, ◌⊎◌, ◌==◌, if◌then◌else◌}
use taskforest_protocol.Errors.{Result, Ensures}
use taskforest_protocol.Words.{u32_max}
use taskforest_protocol.State.{
  DisputeRecord, CredentialVault, EscrowStatus, active, delegated, settled, EscrowWrapper,
}
use taskforest_protocol.Chain.{
  World, Content, vacant, job_account, dispute_account, vote_account, archive_account, ttd_account,
  vault_account, escrow_account, record_account, foreign,
}
use taskforest_protocol.Escrow.{is_ours}

-- The data at an address that one of the two programs owns.
abbrev pub record_of : World → ℕ → Content
record_of w k = if is_ours (w.owner k) then w.content k else vacant

pub record DisputeEvolves (d d' : DisputeRecord) : Type 0 where
  pub same_job : d'.job ≡ d.job
  pub same_challenger : d'.challenger ≡ d.challenger
  pub same_stake : d'.challenger_stake ≡ d.challenger_stake
  pub same_thread : d'.disputed_thread ≡ d.disputed_thread
  pub same_evidence : d'.evidence_uri ≡ d.evidence_uri
  pub same_receipts :
      (d'.challenger_receipt_hash ≡ d.challenger_receipt_hash)
      × (d'.original_receipt_hash ≡ d.original_receipt_hash)
  pub same_opening : d'.opened_at ≡ d.opened_at
  pub final_status : (d.status == 0) ≡ false → d'.status ≡ d.status
  pub final_time : (d.status == 0) ≡ false → d'.resolved_at ≡ d.resolved_at

pub record VaultEvolves (v v' : CredentialVault) : Type 0 where
  pub same_poster : v'.poster ≡ v.poster
  pub same_job : v'.job ≡ v.job
  pub cleared_for_good : v.is_active ≡ false → v'.is_active ≡ false
  pub same_or_cleared :
      (v'.encrypted_cred_hash ≡ v.encrypted_cred_hash) ⊎ (v'.encrypted_cred_hash ≡ 0)

abbrev pub is_active : EscrowStatus → Bool
is_active active = true
is_active delegated = false
is_active settled = false

abbrev pub is_settled : EscrowStatus → Bool
is_settled active = false
is_settled delegated = false
is_settled settled = true

abbrev pub is_delegated : EscrowStatus → Bool
is_delegated active = false
is_delegated delegated = true
is_delegated settled = false

-- Active, then delegated, then settled; the session may be left out.
abbrev pub escrow_may_become : EscrowStatus → EscrowStatus → Bool
escrow_may_become active t = true
escrow_may_become delegated t = not (is_active t)
escrow_may_become settled t = is_settled t

pub record EscrowEvolves (e e' : EscrowWrapper) : Type 0 where
  pub same_id : e'.escrow_id ≡ e.escrow_id
  pub same_job : e'.job_pubkey ≡ e.job_pubkey
  pub same_poster : e'.poster ≡ e.poster
  pub same_agent : e'.agent ≡ e.agent
  pub same_deposit : e'.deposited ≡ e.deposited
  pub same_session : e'.mpp_session_id ≡ e.mpp_session_id
  pub edge : escrow_may_become e.status e'.status ≡ true
  pub same_validator : is_active e.status ≡ false → e'.validator ≡ e.validator
  pub same_key : is_active e.status ≡ false → e'.tee_pubkey ≡ e.tee_pubkey
  pub paid_grows : e.total_paid ≤ e'.total_paid
  pub requests_grow :
      e.request_count ≤ u32_max
      → (e.request_count ≤ e'.request_count) × (e'.request_count ≤ u32_max)
  pub paid_is_final : is_settled e.status ≡ true → e'.total_paid ≡ e.total_paid

-- Jobs are followed in Lifecycle.
abbrev pub RecordFollows : Content → Content → Type 0
RecordFollows vacant c' = Unit
RecordFollows (job_account j) c' = Unit
RecordFollows (dispute_account d) (dispute_account d') = DisputeEvolves d d'
RecordFollows (vote_account v) (vote_account v') = v' ≡ v
RecordFollows (archive_account a) (archive_account a') = a' ≡ a
RecordFollows (ttd_account t) (ttd_account t') = t' ≡ t
RecordFollows (vault_account v) (vault_account v') = VaultEvolves v v'
RecordFollows (escrow_account e) (escrow_account e') = EscrowEvolves e e'
RecordFollows (record_account r) (record_account r') = r' ≡ r
RecordFollows foreign foreign = Unit
RecordFollows c c' = ⊥

-- What one instruction may do to an escrow besides: it opens it active and unpaid, pays only during
-- the session, and does not pay and change the status at once.
abbrev pub EscrowSteps : Content → Content → Type 0
EscrowSteps vacant (escrow_account e') = (e'.status ≡ active) × (e'.total_paid ≡ 0)
EscrowSteps (escrow_account e) (escrow_account e') =
    (is_delegated e.status ≡ false → e'.total_paid ≡ e.total_paid)
    × ((e'.total_paid ≡ e.total_paid) ⊎ (e'.status ≡ e.status))
EscrowSteps c (escrow_account e') = ⊥
EscrowSteps c c' = Unit

-- One instruction.
abbrev pub RecordSteps : Content → Content → Type 0
RecordSteps c c' = RecordFollows c c' × EscrowSteps c c'

abbrev pub RecordsFollow : ℕ → World → Result World → Type 0
RecordsFollow k w = Ensures λ w'. RecordSteps (record_of w k) (record_of w' k)
