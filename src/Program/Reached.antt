-- ===== src/Program/Reached.antt =====
-- What holds of the accounts other than jobs in every world that the steps reach, and along the way
-- from one such world to another.
use taskforest_protocol.Prelude.{ℕ, ◌≡◌, arith}
use taskforest_protocol.Errors.{Ensures-elim}
use taskforest_protocol.Chain.{
  World, Runtime, IsLawful, Content, vacant, job_account, dispute_account, vote_account,
  archive_account, ttd_account, vault_account, escrow_account, record_account, foreign,
}
use taskforest_protocol.Records.{record_of, RecordFollows, RecordSteps}
use taskforest_protocol.Accounts.{AccountIsSound}
use taskforest_protocol.Bonds.{BondIsHeld}
use taskforest_protocol.Program.{Services}
use taskforest_protocol.Program.Records.{execute-RecordsFollow}
use taskforest_protocol.Program.Sound.{execute-StaysSound}
use taskforest_protocol.Program.Bonds.{execute-Holds}
use taskforest_protocol.Program.Steps.{Outside, Step, Reach, call, outside, here, next}

RecordFollows-refl : (c : Content) → RecordFollows c c
RecordFollows-refl c = ground arith

RecordFollows-trans : (a b c : Content) → RecordFollows a b → RecordFollows b c → RecordFollows a c
RecordFollows-trans vacant b c h g = tt
RecordFollows-trans (job_account j) b c h g = tt
RecordFollows-trans (dispute_account d) b c h g = ground arith
RecordFollows-trans (vote_account v) b c h g = ground arith
RecordFollows-trans (archive_account v) b c h g = ground arith
RecordFollows-trans (ttd_account v) b c h g = ground arith
RecordFollows-trans (vault_account v) b c h g = ground arith
RecordFollows-trans (escrow_account v) b c h g = ground arith
RecordFollows-trans (record_account v) b c h g = ground arith
RecordFollows-trans foreign b c h g = ground arith

pub Outside-record_of : (k : ℕ) {w w' : World} → Outside w w' → record_of w' k ≡ record_of w k
Outside-record_of k o = ground (arith, o.same_content k, o.same_owner k, o.handed_empty k)

-- Every account is sound and holds what it must.
abbrev pub AccountsAreSound : Services → World → Type 0
AccountsAreSound s w = (k : ℕ) → AccountIsSound s.runtime k w × BondIsHeld s.runtime k w

Outside-sound :
    (rt : Runtime) (k : ℕ) {w w' : World}
    → Outside w w'
    → AccountIsSound rt k w
    → AccountIsSound rt k w'
Outside-sound rt k {w} {w'} o h = ground (arith, o.same_content k, o.same_owner k, o.handed_empty k)

Outside-held :
    (rt : Runtime) (k : ℕ) {w w' : World} → Outside w w' → BondIsHeld rt k w → BondIsHeld rt k w'
Outside-held rt k {w} {w'} o h =
    ground (arith, o.same_content k, o.same_owner k, o.handed_empty k, o.no_loss k)

module _ (s : Services) (law : IsLawful s.runtime) where
  Step-AccountsAreSound :
      {w w' : World} → Step s w w' → AccountsAreSound s w → AccountsAreSound s w'
  Step-AccountsAreSound (call {w} {w'} env i fair e) h k = (
    Ensures-elim (AccountIsSound s.runtime k) e (execute-StaysSound k s env i w (h k).0),
    Ensures-elim (BondIsHeld s.runtime k) e (execute-Holds k s env law i w (h k).1 fair),
  )
  Step-AccountsAreSound (outside o) h k =
      (Outside-sound s.runtime k o (h k).0, Outside-held s.runtime k o (h k).1)

  pub Reach-AccountsAreSound :
      {w w' : World} → AccountsAreSound s w → Reach s w w' → AccountsAreSound s w'
  Reach-AccountsAreSound h here = h
  Reach-AccountsAreSound h (next r st) = Step-AccountsAreSound st (Reach-AccountsAreSound h r)

-- Neither program owns data yet.
abbrev pub IsFresh : World → Type 0
IsFresh w = (k : ℕ) → record_of w k ≡ vacant

IsFresh-AccountsAreSound : (s : Services) (w : World) → IsFresh w → AccountsAreSound s w
IsFresh-AccountsAreSound s w h k = rw (h k) (tt, tt)

module _ (s : Services) (law : IsLawful s.runtime) where
  -- In every world that is reached from one without accounts of the programs, by instructions of
  -- both and steps of others, under a lawful runtime and fair signatures, each account stands at
  -- the address that its own fields derive, with the bump of that address where it stores one, and
  -- belongs to the program of its kind; the status of a dispute is one of three, a vote's verdict
  -- one of two, an archive's 0 or 1, a cleared vault is empty, a registered URI fits; a settlement
  -- record pays no more than was deposited; and an escrow has paid no more than its deposit,
  -- nothing before its session, which runs only with a verified key of an allowed validator.
  pub Reach-IsSound :
      {w w' : World} → IsFresh w → Reach s w w' → (k : ℕ) → AccountIsSound s.runtime k w'
  Reach-IsSound {w} h r k = (Reach-AccountsAreSound s law (IsFresh-AccountsAreSound s w h) r k).0

  -- In every world that is reached from one without accounts of the programs, by instructions of
  -- both and steps of others, under a lawful runtime and fair signatures, the account of a dispute
  -- holds its rent-exempt balance, and on top of it the challenger's stake while it is open; and
  -- the account of an escrow that is not settled holds its rent-exempt balance and the deposit.
  pub Reach-IsHeld : {w w' : World} → IsFresh w → Reach s w w' → (k : ℕ) → BondIsHeld s.runtime k w'
  Reach-IsHeld {w} h r k = (Reach-AccountsAreSound s law (IsFresh-AccountsAreSound s w h) r k).1

module _ (s : Services) (k : ℕ) where
  Step-RecordFollows : {w w' : World} → Step s w w' → RecordFollows (record_of w k) (record_of w' k)
  Step-RecordFollows (call {w} {w'} env i fair e) =
      (Ensures-elim (λ u. RecordSteps (record_of w k) (record_of u k)) e
        (execute-RecordsFollow k s env i w)).0
  Step-RecordFollows (outside {w} o) =
      rw (Outside-record_of k o) (RecordFollows-refl (record_of w k))

  -- Along any run, of instructions of both programs under fair signatures and steps of others, at
  -- any address: a vote, an archive, a registered task type and a settlement record stay as they
  -- are for good; a dispute keeps its terms, and its outcome once it is resolved; a vault keeps its
  -- owner and job, and stays cleared; an escrow keeps its terms and its deposit, goes from active
  -- through delegated to settled, keeps its validator and key once it is no longer active and the
  -- sum paid once it is settled, and that sum never falls.
  pub Reach-RecordFollows :
      {w w' : World} → Reach s w w' → RecordFollows (record_of w k) (record_of w' k)
  Reach-RecordFollows {w} here = RecordFollows-refl (record_of w k)
  Reach-RecordFollows {w} {w'} (next {u} r st) =
      RecordFollows-trans (record_of w k) (record_of u k) (record_of w' k) (Reach-RecordFollows r)
        (Step-RecordFollows st)
