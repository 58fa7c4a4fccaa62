-- ===== src/Chain.antt =====
-- What the handlers act on: accounts with lamports, an owning program and contents; the services of
-- the runtime that the programs call, as an interface; and the account checks that the
-- `#[account(...)]` attributes of the sources declare. The children have the arithmetic of
-- lamports.
pub mod Ledger
pub mod Keeps
pub mod Payout
pub mod Floors
use taskforest_protocol.Prelude.{
  ℕ, ◌+◌, ◌-◌, ◌≤◌, ◌≡◌, Bool, true, false, Option, none, some, List, ℤ, leb, ltb, ◌==◌, ◌&&◌, not,
  min, if◌then◌else◌,
}
use taskforest_protocol.Errors.{
  Result, ok, err, ◌>>=◌, ◌>>◌, require, ok_or, panicked, call_failed, account_not_signer,
  account_not_initialized, account_owned_by_wrong_program, account_in_use, constraint_seeds,
}
use taskforest_protocol.Words.{u64_max}
use taskforest_protocol.State.{
  Job, DisputeRecord, VerifierVote, SettlementArchive, TaskTypeDefinition, CredentialVault,
  EscrowWrapper, SettlementRecord, Leaf,
}

-- The data of an account, by its discriminator; `foreign` is any other data.
pub data Content : Type 0 where
  vacant : Content
  job_account : Job → Content
  dispute_account : DisputeRecord → Content
  vote_account : VerifierVote → Content
  archive_account : SettlementArchive → Content
  ttd_account : TaskTypeDefinition → Content
  vault_account : CredentialVault → Content
  escrow_account : EscrowWrapper → Content
  record_account : SettlementRecord → Content
  foreign : Content

abbrev pub Lamports : Type 0
Lamports = ℕ → ℕ

-- Every account by its address, as the layer sees it that a call runs on: the base layer, or the
-- rollup. A delegated account is away from the base layer, where the delegation program has it, until
-- it is handed back; it keeps the program that it comes from as `owner`, which is its owner on the
-- rollup. The leaves of the compressed state are by their addresses.
pub record World : Type 0 where
  pub lamports : Lamports
  pub owner : ℕ → ℕ
  pub away : ℕ → Bool
  pub content : ℕ → Content
  pub leaves : ℕ → Option Leaf

abbrev pub update {ℓ} : {A : Type ℓ} → ℕ → A → (ℕ → A) → ℕ → A
update k v f q = if q == k then v else f q

-- What the programs take from the runtime, the system program and the rollup: the rent-exempt
-- balance of an account of a size, a transfer of lamports, the creation of an account (payer,
-- address, size), the address and bump derived from seeds, the address of seeds with a given bump,
-- and whether the rollup accepts a delegation (account, validator) or a commit (payer, account).
pub record Runtime : Type 0 where
  pub minimum_balance : ℕ → ℕ
  pub transfer : ℕ → ℕ → ℕ → Lamports → Option Lamports
  pub create_account : ℕ → ℕ → ℕ → Lamports → Option Lamports
  pub find_address : List (List ℕ) → ℕ → ℕ
  pub find_bump : List (List ℕ) → ℕ → ℕ
  pub address_with_bump : List (List ℕ) → ℕ → ℕ → ℕ
  pub delegate : ℕ → Option ℕ → Bool
  pub commit_and_undelegate : ℕ → ℕ → Bool

-- What an instruction sees of its transaction: who signed, and the clock.
pub record Env : Type 0 where
  pub signed : ℕ → Bool
  pub now : ℤ

-- `Signer<'info>`
abbrev pub signer : Env → ℕ → Result (Unit {0})
signer env key = require (env.signed key) account_not_signer

-- `Account<'info, T>`: the account belongs to the program, is not in the hands of the delegation
-- program, and holds a T.
abbrev pub load : {A : Type 0} → (Content → Option A) → ℕ → ℕ → World → Result A
load read program key w = do
  require (w.owner key == program && not (w.away key)) account_owned_by_wrong_program
  ok_or (read (w.content key)) account_not_initialized

abbrev pub as_job : Content → Option Job
as_job (job_account j) = some j
as_job _ = none

abbrev pub as_dispute : Content → Option DisputeRecord
as_dispute (dispute_account d) = some d
as_dispute _ = none

abbrev pub as_vote : Content → Option VerifierVote
as_vote (vote_account v) = some v
as_vote _ = none

abbrev pub as_vault : Content → Option CredentialVault
as_vault (vault_account v) = some v
as_vault _ = none

abbrev pub as_escrow : Content → Option EscrowWrapper
as_escrow (escrow_account e) = some e
as_escrow _ = none

abbrev pub as_record : Content → Option SettlementRecord
as_record (record_account r) = some r
as_record _ = none

abbrev pub is_vacant : Content → Bool
is_vacant vacant = true
is_vacant _ = false

-- The account is handed to the delegation program.
abbrev pub hand_over : ℕ → World → World
hand_over key w = record w { away = update key true w.away }

-- The write of an account back to its address when the instruction ends.
abbrev pub store : ℕ → Content → World → World
store key c w = record w { content = update key c w.content }

-- `#[account(init, payer, space, seeds, bump)]`: the address is the derived one, it is unused, and
-- the system program creates it for the program.
unfoldable pub init_account : Runtime → ℕ → List (List ℕ) → ℕ → ℕ → ℕ → World → Result World
init_account rt program seeds size payer key w = do
  require (key == rt.find_address seeds program) constraint_seeds
  require (is_vacant (w.content key)) account_in_use
  l ← ok_or (rt.create_account payer key size w.lamports) call_failed
  ok (record w { lamports = l; owner = update key program w.owner })

-- `system_program::transfer`
unfoldable pub system_transfer : Runtime → ℕ → ℕ → ℕ → World → Result World
system_transfer rt from to n w = do
  l ← ok_or (rt.transfer from to n w.lamports) call_failed
  ok (record w { lamports = l })

-- `**a.try_borrow_mut_lamports()? -= n`
unfoldable pub sub_lamports : ℕ → ℕ → World → Result World
sub_lamports key n w = do
  require (leb n (w.lamports key)) panicked
  ok (record w { lamports = update key (w.lamports key - n) w.lamports })

-- `**a.try_borrow_mut_lamports()? += n`
unfoldable pub add_lamports : ℕ → ℕ → World → Result World
add_lamports key n w = do
  require (leb (w.lamports key + n) u64_max) panicked
  ok (record w { lamports = update key (w.lamports key + n) w.lamports })

-- `if n > 0 { **from -= n; **to += n; }`
unfoldable pub move_lamports : ℕ → ℕ → ℕ → World → Result World
unfolding sub_lamports add_lamports
move_lamports from to n w =
    if ltb 0 n then (sub_lamports from n w >>= λ v. add_lamports to n v) else ok w

-- What an account of this size holds above its rent-exempt balance.
unfoldable pub available : Runtime → ℕ → ℕ → World → ℕ
available rt size key w = w.lamports key - rt.minimum_balance size

-- The payout block that the handlers repeat: the amount asked for, but at most what the account
-- holds above its rent-exempt balance, moves to the payee.
unfoldable pub pay_out : Runtime → ℕ → ℕ → ℕ → ℕ → World → Result World
unfolding available move_lamports
pay_out rt size from to amount w = move_lamports from to (min amount (available rt size from w)) w

-- The lamports after a movement of n from one address to another.
abbrev pub moved : ℕ → ℕ → ℕ → Lamports → Lamports
moved from to n l = update to (update from (l from - n) l to + n) (update from (l from - n) l)

-- What is documented of the two calls that move lamports: a transfer takes the amount from a payer
-- that has it; a created account gets from its payer what makes it rent-exempt.
pub record IsLawful (rt : Runtime) : Type 0 where
  pub transfer_moves :
      (from to n : ℕ) (l l' : Lamports)
      → rt.transfer from to n l ≡ some l'
      → (n ≤ l from) × (l' ≡ moved from to n l)
  pub create_moves :
      (payer key size : ℕ) (l l' : Lamports)
      → rt.create_account payer key size l ≡ some l'
      → (n : ℕ) × (n ≤ l payer) × (l' ≡ moved payer key n l) × (rt.minimum_balance size ≤ l' key)
