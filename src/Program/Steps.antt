-- ===== src/Program/Steps.antt =====
-- The steps of the chain that the programs run on: a transaction of one instruction that succeeds,
-- or what other programs do meanwhile; and what holds in every world that such steps reach.
use taskforest_protocol.Prelude.{ℕ, ◌≤◌, ◌≡◌, true, false, none, some, arith}
use taskforest_protocol.Errors.{ok, Ensures-elim}
use taskforest_protocol.State.{Job}
use taskforest_protocol.Chain.{World, Env, IsLawful, vacant}
use taskforest_protocol.Lifecycle.{job_at}
use taskforest_protocol.Invariant.{JobIsValid, ValidAt}
use taskforest_protocol.Escrow.{JobIsFunded, FundedAt, SignsFairly, is_ours}
use taskforest_protocol.Program.{Services, Instruction, execute}
use taskforest_protocol.Program.Invariant.{execute-Validates}
use taskforest_protocol.Program.Escrow.{execute-Funds}

-- What the runtime lets other programs do: an account of the two programs keeps its data and its
-- owner and loses no lamports, and an account that is handed to one of them has no data. Which
-- accounts are away may change: the delegation program hands one back with the data that it has, or
-- the next call runs on the other layer.
pub record Outside (w w' : World) : Type 0 where
  pub same_content : (k : ℕ) → is_ours (w.owner k) ≡ true → w'.content k ≡ w.content k
  pub same_owner : (k : ℕ) → is_ours (w.owner k) ≡ true → w'.owner k ≡ w.owner k
  pub no_loss : (k : ℕ) → is_ours (w.owner k) ≡ true → w.lamports k ≤ w'.lamports k
  pub handed_empty :
      (k : ℕ) → is_ours (w.owner k) ≡ false → is_ours (w'.owner k) ≡ true → w'.content k ≡ vacant

pub data Step (s : Services) : World → World → Type 0 where
  call :
      {w w' : World} (env : Env) (i : Instruction)
      → SignsFairly s.runtime env w
      → execute s env i w ≡ ok w'
      → Step s w w'
  outside : {w w' : World} → Outside w w' → Step s w w'

pub data Reach (s : Services) (w : World) : World → Type 0 where
  here : Reach s w w
  next : {u v : World} → Reach s w u → Step s u v → Reach s w v

Outside-job_at : (k : ℕ) {w w' : World} → Outside w w' → job_at w' k ≡ job_at w k
Outside-job_at k o = ground (arith, o.same_content k, o.same_owner k, o.handed_empty k)

-- Every job account is valid and holds what it must.
abbrev pub JobsAreSound : Services → World → Type 0
JobsAreSound s w = (k : ℕ) → ValidAt (job_at w k) × JobIsFunded s.runtime k w

Outside-funded :
    (s : Services) (k : ℕ) {w w' : World}
    → Outside w w'
    → JobIsFunded s.runtime k w
    → JobIsFunded s.runtime k w'
Outside-funded s k {w} {w'} o h =
    ground (arith, o.same_content k, o.same_owner k, o.handed_empty k, o.no_loss k)

module _ (s : Services) (law : IsLawful s.runtime) where
  Step-JobsAreSound : {w w' : World} → Step s w w' → JobsAreSound s w → JobsAreSound s w'
  Step-JobsAreSound (call {w} {w'} env i fair e) h k = (
    Ensures-elim (λ u. ValidAt (job_at u k)) e (execute-Validates k s env i w (λ q. (h q).0)),
    Ensures-elim (JobIsFunded s.runtime k) e (execute-Funds k s env law i w (h k).1 fair),
  )
  Step-JobsAreSound (outside o) h k =
      (rw (Outside-job_at k o) (h k).0, Outside-funded s k o (h k).1)

  Reach-JobsAreSound : {w w' : World} → JobsAreSound s w → Reach s w w' → JobsAreSound s w'
  Reach-JobsAreSound h here = h
  Reach-JobsAreSound h (next r st) = Step-JobsAreSound st (Reach-JobsAreSound h r)

-- Before the first job.
abbrev pub IsGenesis : World → Type 0
IsGenesis w = (k : ℕ) → job_at w k ≡ none

IsGenesis-JobsAreSound : (s : Services) (w : World) → IsGenesis w → JobsAreSound s w
IsGenesis-JobsAreSound s w h k = ground (arith, h k)

module _ (s : Services) (law : IsLawful s.runtime) where
  -- In every world that is reached from one without jobs, by instructions of both programs and
  -- steps of others, under a lawful runtime and fair signatures, each job account is valid: its
  -- status is one of the seven, its reward is positive, its verification mode is known, an open job
  -- has no bid and a job in bidding has one, a best bid is at least a tenth of the reward, a
  -- claimed stake that is not 0 is the best bid, of its bidder, in an attested enclave, a staked
  -- job has a stake, a job that waits for its proof has none, and a dispute window ends a day after
  -- the submission of a job with a verification level.
  pub Reach-IsValid :
      {w w' : World}
      → IsGenesis w
      → Reach s w w'
      → (k : ℕ) (j : Job) → job_at w' k ≡ some j
      → JobIsValid j
  Reach-IsValid {w} h r k j e =
      rw e at (Reach-JobsAreSound s law (IsGenesis-JobsAreSound s w h) r k).0

  -- In every world that is reached from one without jobs, by instructions of both programs and
  -- steps of others, under a lawful runtime and fair signatures, each job account holds its
  -- rent-exempt balance; on top of it the whole reward as long as the job is open, in bidding or
  -- claimed, and also while it is staked or submitted and no sub-job has drawn on it; and on top of
  -- both the worker's stake while it is staked without sub-jobs.
  pub Reach-IsFunded :
      {w w' : World}
      → IsGenesis w
      → Reach s w w'
      → (k : ℕ) (j : Job) → job_at w' k ≡ some j
      → FundedAt s.runtime (some j) (w'.lamports k)
  Reach-IsFunded {w} h r k j e =
      rw e at (Reach-JobsAreSound s law (IsGenesis-JobsAreSound s w h) r k).1
