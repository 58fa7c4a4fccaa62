-- ===== src/Accounts.antt =====
-- What holds of every account that the programs have written, whatever its kind: it stands at the
-- address that its own fields derive, with the bump of that address, and its fields are in range.
-- The seeds are those of the `#[account(init, seeds = ...)]` attributes of both programs.
use taskforest_protocol.Prelude.{ℕ, ◌≤◌, ◌≡◌, true, false, ◌⊎◌, List, length}
use taskforest_protocol.Errors.{Result, Ensures}
use taskforest_protocol.State.{EscrowWrapper, taskforest_id, payments_id, max_uri_len}
use taskforest_protocol.Chain.{
  World, Content, Runtime, vacant, job_account, dispute_account, vote_account, archive_account,
  ttd_account, vault_account, escrow_account, record_account, foreign,
}
use taskforest_protocol.Signature.{is_allowed_validator}
use taskforest_protocol.Records.{record_of, is_active, is_delegated}
use taskforest_protocol.Job.{job_seeds}
use taskforest_protocol.Settlement.{archive_seeds}
use taskforest_protocol.Dispute.{dispute_seeds, vote_seeds}
use taskforest_protocol.Registry.{ttd_seeds, vault_seeds}
use taskforest_protocol.Payments.{escrow_seeds, settlement_seeds}

-- The address of these seeds, and its bump.
abbrev pub StandsAt : Runtime → ℕ → ℕ → List (List ℕ) → ℕ → Type 0
StandsAt rt key program seeds bump =
    (key ≡ rt.find_address seeds program) × (bump ≡ rt.find_bump seeds program)

pub record EscrowIsSound (e : EscrowWrapper) : Type 0 where
  pub within : e.total_paid ≤ e.deposited
  pub not_paid_yet : is_active e.status ≡ true → (e.total_paid ≡ 0) × (e.request_count ≡ 0)
  pub not_verified_yet : is_active e.status ≡ true → e.tee_verified ≡ false
  pub verified : is_delegated e.status ≡ true → e.tee_verified ≡ true
  pub allowed : is_delegated e.status ≡ true → is_allowed_validator e.validator ≡ true

-- By the program that owns the account, its address and its data.
abbrev pub SoundAt : Runtime → ℕ → ℕ → Content → Type 0
SoundAt rt owner k vacant = Unit
SoundAt rt owner k (job_account j) =
    (owner ≡ taskforest_id) × StandsAt rt k taskforest_id (job_seeds j.poster j.job_id) j.bump
SoundAt rt owner k (dispute_account d) =
    (owner ≡ taskforest_id)
    × StandsAt rt k taskforest_id (dispute_seeds d.job d.disputed_thread) d.bump
    × (d.status ≤ 2)
SoundAt rt owner k (vote_account v) =
    (owner ≡ taskforest_id)
    × StandsAt rt k taskforest_id (vote_seeds v.dispute v.verifier) v.bump
    × ((v.verdict ≡ 1) ⊎ (v.verdict ≡ 2))
SoundAt rt owner k (archive_account a) =
    (owner ≡ taskforest_id)
    × StandsAt rt k taskforest_id (archive_seeds a.job) a.bump
    × (a.verdict ≤ 1)
SoundAt rt owner k (ttd_account t) =
    (owner ≡ taskforest_id)
    × StandsAt rt k taskforest_id (ttd_seeds t.creator t.ttd_hash) t.bump
    × (length t.ttd_uri ≤ max_uri_len)
SoundAt rt owner k (vault_account v) =
    (owner ≡ taskforest_id)
    × StandsAt rt k taskforest_id (vault_seeds v.poster v.job) v.bump
    × (v.is_active ≡ false → v.encrypted_cred_hash ≡ 0)
SoundAt rt owner k (escrow_account e) =
    (owner ≡ payments_id)
    × (k ≡ rt.find_address (escrow_seeds e.escrow_id) payments_id)
    × EscrowIsSound e
SoundAt rt owner k (record_account r) =
    (owner ≡ payments_id)
    × (k ≡ rt.find_address (settlement_seeds r.escrow_id) payments_id)
    × (r.total_paid ≤ r.total_deposited)
SoundAt rt owner k foreign = ⊥

abbrev pub AccountIsSound : Runtime → ℕ → World → Type 0
AccountIsSound rt k w = SoundAt rt (w.owner k) k (record_of w k)

abbrev pub StaysSound : Runtime → ℕ → Result World → Type 0
StaysSound rt k = Ensures (AccountIsSound rt k)
