-- ===== src/Program/Once.antt =====
-- What can happen only once: accounts are determined by their seeds, so an escrow is settled once
-- and a verifier votes once on a dispute, however the programs run on.
use taskforest_protocol.Prelude.{ℕ, ◌≡◌, false, Option, none, some, List, arith, sym, ◌∙◌}
use taskforest_protocol.Errors.{is_ok}
use taskforest_protocol.State.{VerifierVote, SettlementRecord, taskforest_id, payments_id}
use taskforest_protocol.Chain.{
  World, Env, Runtime, IsLawful, Content, vacant, job_account, dispute_account, vote_account,
  archive_account, ttd_account, vault_account, escrow_account, record_account, foreign,
}
use taskforest_protocol.Records.{record_of}
use taskforest_protocol.Accounts.{SoundAt}
use taskforest_protocol.Job.{job_seeds}
use taskforest_protocol.Settlement.{archive_seeds}
use taskforest_protocol.Dispute.{dispute_seeds, vote_seeds}
use taskforest_protocol.Registry.{ttd_seeds, vault_seeds}
use taskforest_protocol.Payments.{escrow_seeds, settlement_seeds, RecordSettlement}
use taskforest_protocol.Payments.Once.{record_settlement_refused}
use taskforest_protocol.Dispute.Once.{cast_vote_refused}
use taskforest_protocol.Program.{
  Services, task, payment, cast_vote, record_settlement, execute, taskforest, taskforest_payments,
}
use taskforest_protocol.Program.Steps.{Reach, here, next}
use taskforest_protocol.Program.Reached.{IsFresh, Reach-IsSound, Reach-RecordFollows}

-- The program and the seeds that an account's address comes from.
abbrev pub derivation : Content → Option (ℕ × List (List ℕ))
derivation vacant = none
derivation (job_account j) = some (taskforest_id, job_seeds j.poster j.job_id)
derivation (dispute_account d) = some (taskforest_id, dispute_seeds d.job d.disputed_thread)
derivation (vote_account v) = some (taskforest_id, vote_seeds v.dispute v.verifier)
derivation (archive_account a) = some (taskforest_id, archive_seeds a.job)
derivation (ttd_account t) = some (taskforest_id, ttd_seeds t.creator t.ttd_hash)
derivation (vault_account v) = some (taskforest_id, vault_seeds v.poster v.job)
derivation (escrow_account e) = some (payments_id, escrow_seeds e.escrow_id)
derivation (record_account r) = some (payments_id, settlement_seeds r.escrow_id)
derivation foreign = none

SoundAt-derived :
    (rt : Runtime) (owner k : ℕ) (c : Content) (program : ℕ) (seeds : List (List ℕ))
    → SoundAt rt owner k c
    → derivation c ≡ some (program, seeds)
    → k ≡ rt.find_address seeds program
SoundAt-derived rt owner k c program seeds h e = ground arith

module _ (s : Services) (law : IsLawful s.runtime) {w w' : World} (fresh : IsFresh w)
    (r : Reach s w w') where
  -- In every world that is reached from one without accounts of the programs, by instructions of
  -- both and steps of others, under a lawful runtime and fair signatures, two accounts whose
  -- addresses come from the same program and seeds are one account: there is one job for a poster
  -- and an id, one dispute for a job and a thread, one vote for a dispute and a verifier, one
  -- archive for a job, one task type for a creator and a hash, one vault for a poster and a job,
  -- one escrow and one settlement record for an id.
  pub Reach-one_account :
      (k k' program : ℕ) (seeds : List (List ℕ))
      → derivation (record_of w' k) ≡ some (program, seeds)
      → derivation (record_of w' k') ≡ some (program, seeds)
      → k ≡ k'
  Reach-one_account k k' program seeds h h' =
      SoundAt-derived s.runtime (w'.owner k) k (record_of w' k) program seeds
        (Reach-IsSound s law fresh r k) h
      ∙ sym (
          SoundAt-derived s.runtime (w'.owner k') k' (record_of w' k') program seeds
            (Reach-IsSound s law fresh r k') h')

Reach-trans : {s : Services} {u v w : World} → Reach s u v → Reach s v w → Reach s u w
Reach-trans r here = r
Reach-trans r (next q st) = next (Reach-trans r q) st

-- Two stretches of one run: to a world where something is written, and on from it.
module _ (s : Services) (law : IsLawful s.runtime) {w u v : World} (fresh : IsFresh w)
    (before : Reach s w u) (after : Reach s u v) where
  -- From a world without accounts of the programs, by instructions of both and steps of others,
  -- under a lawful runtime and fair signatures: once an escrow has a settlement record, no
  -- settlement of that escrow succeeds in any later world, whatever accounts it names and whoever
  -- signs.
  pub Reach-settled_once :
      (env : Env) (a : RecordSettlement) (k : ℕ) (r : SettlementRecord)
      → record_of u k ≡ record_account r
      → r.escrow_id ≡ a.escrow_id
      → is_ok (execute s env (payment (record_settlement a)) v) ≡ false
  unfolding execute taskforest_payments
  Reach-settled_once env a k r h e =
      record_settlement_refused s.runtime s.blake3 env a k v r
        (Reach-IsSound s law fresh (Reach-trans before after) k)
        (ground (arith, Reach-RecordFollows s k after)) e

  -- From a world without accounts of the programs, by instructions of both and steps of others,
  -- under a lawful runtime and fair signatures: once a verifier has voted on a dispute, no second
  -- vote of that verifier on it succeeds in any later world, whatever its verdict.
  pub Reach-voted_once :
      (env : Env) (verdict dispute vote verifier k : ℕ) (x : VerifierVote)
      → record_of u k ≡ vote_account x
      → x.dispute ≡ dispute
      → x.verifier ≡ verifier
      → is_ok (execute s env (task (cast_vote verdict dispute vote verifier)) v) ≡ false
  unfolding execute taskforest
  Reach-voted_once env verdict dispute vote verifier k x h e e' =
      cast_vote_refused s.runtime env verdict dispute vote verifier k v x
        (Reach-IsSound s law fresh (Reach-trans before after) k)
        (ground (arith, Reach-RecordFollows s k after)) e e'
