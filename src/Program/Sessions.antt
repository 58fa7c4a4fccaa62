-- ===== src/Program/Sessions.antt =====
-- The escrows of the payments program run as Session says.
use taskforest_protocol.Prelude.{ℕ, ◌-◌, ◌≤◌, ◌≡◌, none, some, arith, refl, true, false, ◌⊎◌, ap}
use taskforest_protocol.Errors.{Ensures-elim}
use taskforest_protocol.State.{EscrowStatus, EscrowWrapper, active, delegated, settled}
use taskforest_protocol.Chain.{
  World, Content, Runtime, IsLawful, vacant, job_account, dispute_account, vote_account,
  archive_account, ttd_account, vault_account, escrow_account, record_account, foreign,
}
use taskforest_protocol.Records.{
  record_of, EscrowSteps, RecordSteps, is_delegated, escrow_may_become,
}
use taskforest_protocol.Session.{
  SessionStep, rest, opens, starts, pays, closes, session_of, phase_of,
}
use taskforest_protocol.Accounts.{SoundAt, AccountIsSound}
use taskforest_protocol.Program.{Services}
use taskforest_protocol.Program.Records.{execute-RecordsFollow}
use taskforest_protocol.Program.Steps.{Step, Reach, call, outside, here, next}
use taskforest_protocol.Program.Reached.{IsFresh, Reach-IsSound, Outside-record_of}

-- One step of an escrow, by what becomes of its status.
escrow-SessionStep :
    (s s' : EscrowStatus) (deposit deposit' paid paid' : ℕ)
    → deposit' ≡ deposit
    → escrow_may_become s s' ≡ true
    → paid ≤ paid'
    → paid' ≤ deposit'
    → (is_delegated s ≡ false → paid' ≡ paid)
    → (paid' ≡ paid) ⊎ (s' ≡ s)
    → SessionStep
        (some (record { deposit = deposit; paid = paid; phase = phase_of s }))
        (some (record { deposit = deposit'; paid = paid'; phase = phase_of s' }))
escrow-SessionStep active active d d' p p' e edge up within idle one =
    let same : p' ≡ p = idle refl in rw (e, same) rest
escrow-SessionStep active delegated d d' p p' e edge up within idle one = starts refl (ground arith)
escrow-SessionStep active settled d d' p p' e edge up within idle one = closes (ground arith)
escrow-SessionStep delegated active d d' p p' e edge up within idle one = absurd (ground arith)
escrow-SessionStep delegated delegated d d' p p' e edge up within idle one =
    pays (p' - p) refl (omega arith) (ground arith)
escrow-SessionStep delegated settled d d' p p' e edge up within idle one = closes (ground arith)
escrow-SessionStep settled active d d' p p' e edge up within idle one = absurd (ground arith)
escrow-SessionStep settled delegated d d' p p' e edge up within idle one = absurd (ground arith)
escrow-SessionStep settled settled d d' p p' e edge up within idle one = closes (ground arith)

-- An escrow opens where nothing was, and nothing else becomes one.
opening-SessionStep :
    (c : Content) (e' : EscrowWrapper)
    → session_of c ≡ none
    → EscrowSteps c (escrow_account e')
    → SessionStep none (session_of (escrow_account e'))
opening-SessionStep vacant e' n h = opens h.1 (ap phase_of h.0)
opening-SessionStep (job_account j) e' n h = absurd h
opening-SessionStep (dispute_account d) e' n h = absurd h
opening-SessionStep (vote_account v) e' n h = absurd h
opening-SessionStep (archive_account a) e' n h = absurd h
opening-SessionStep (ttd_account t) e' n h = absurd h
opening-SessionStep (vault_account v) e' n h = absurd h
opening-SessionStep (escrow_account e) e' n h = absurd (ground arith)
opening-SessionStep (record_account r) e' n h = absurd h
opening-SessionStep foreign e' n h = absurd h

other-SessionStep :
    (c c' : Content) → session_of c ≡ none → EscrowSteps c c' → SessionStep none (session_of c')
other-SessionStep c vacant n h = rest
other-SessionStep c (job_account j) n h = rest
other-SessionStep c (dispute_account d) n h = rest
other-SessionStep c (vote_account v) n h = rest
other-SessionStep c (archive_account a) n h = rest
other-SessionStep c (ttd_account t) n h = rest
other-SessionStep c (vault_account v) n h = rest
other-SessionStep c (escrow_account e') n h = opening-SessionStep c e' n h
other-SessionStep c (record_account r) n h = rest
other-SessionStep c foreign n h = rest

module _ (rt : Runtime) (owner key : ℕ) where
  record-SessionStep :
      (c c' : Content)
      → RecordSteps c c'
      → SoundAt rt owner key c'
      → SessionStep (session_of c) (session_of c')
  record-SessionStep vacant c' h sound = other-SessionStep vacant c' refl h.1
  record-SessionStep (job_account j) c' h sound = other-SessionStep (job_account j) c' refl h.1
  record-SessionStep (dispute_account d) c' h sound =
      other-SessionStep (dispute_account d) c' refl h.1
  record-SessionStep (vote_account v) c' h sound = other-SessionStep (vote_account v) c' refl h.1
  record-SessionStep (archive_account a) c' h sound =
      other-SessionStep (archive_account a) c' refl h.1
  record-SessionStep (ttd_account t) c' h sound = other-SessionStep (ttd_account t) c' refl h.1
  record-SessionStep (vault_account v) c' h sound = other-SessionStep (vault_account v) c' refl h.1
  record-SessionStep (escrow_account e) vacant h sound = absurd h.0
  record-SessionStep (escrow_account e) (job_account j) h sound = absurd h.0
  record-SessionStep (escrow_account e) (dispute_account d) h sound = absurd h.0
  record-SessionStep (escrow_account e) (vote_account v) h sound = absurd h.0
  record-SessionStep (escrow_account e) (archive_account a) h sound = absurd h.0
  record-SessionStep (escrow_account e) (ttd_account t) h sound = absurd h.0
  record-SessionStep (escrow_account e) (vault_account v) h sound = absurd h.0
  record-SessionStep (escrow_account e) (escrow_account e') h sound =
      escrow-SessionStep e.status e'.status e.deposited e'.deposited e.total_paid e'.total_paid
        h.0.same_deposit h.0.edge h.0.paid_grows sound.2.within h.1.0 h.1.1
  record-SessionStep (escrow_account e) (record_account r) h sound = absurd h.0
  record-SessionStep (escrow_account e) foreign h sound = absurd h.0
  record-SessionStep (record_account r) c' h sound =
      other-SessionStep (record_account r) c' refl h.1
  record-SessionStep foreign c' h sound = other-SessionStep foreign c' refl h.1

module _ (s : Services) (law : IsLawful s.runtime) (k : ℕ) where
  Step-SessionStep :
      {w w' : World}
      → Step s w w'
      → AccountIsSound s.runtime k w'
      → SessionStep (session_of (record_of w k)) (session_of (record_of w' k))
  Step-SessionStep (call {w} {w'} env i fair e) sound =
      record-SessionStep s.runtime (w'.owner k) k (record_of w k) (record_of w' k)
        (Ensures-elim (λ u. RecordSteps (record_of w k) (record_of u k)) e
          (execute-RecordsFollow k s env i w))
        sound
  Step-SessionStep (outside {w} o) sound = rw (Outside-record_of k o) rest

  -- Each step of a run, seen at this address, is a step of Session.
  pub Refines : {w w' : World} → Reach s w w' → Type 0
  Refines here = Unit
  Refines (next {u} {v} r st) =
      Refines r × SessionStep (session_of (record_of u k)) (session_of (record_of v k))

  -- Refinement of the abstract session. On every run from a world without accounts of the programs,
  -- by instructions of both and steps of others, under a lawful runtime and fair signatures, each
  -- single step, seen at any address, is one step of Session: the session there opens unpaid and
  -- waiting, starts from waiting only, pays only while it runs and never above the deposit, closes,
  -- or rests. So none of the steps changes the deposit, starts again or reopens a session that is
  -- closed, or takes back what was paid.
  pub Reach-Refines : {w w' : World} → IsFresh w → (r : Reach s w w') → Refines r
  unfolding Refines
  Reach-Refines h here = tt
  Reach-Refines h (next r st) =
      (Reach-Refines h r, Step-SessionStep st (Reach-IsSound s law h (next r st) k))
