-- ===== src/State/Constants.antt =====
-- programs/taskforest/src/constants.rs and the constants of programs/taskforest-payments/src. The
-- keys written in base 58 in the source are the numbers of their 32 little-endian bytes.
use taskforest_protocol.Prelude.{ℕ, ℤ, pos, List, [], ◌∷◌}

-- `declare_id!` of the two programs
abbrev pub taskforest_id : ℕ
taskforest_id = 0x589a377fc3f02cc5f178da807381a3e5f9a78d2afa6cff0892c0a04847bb30da

abbrev pub payments_id : ℕ
payments_id = 0xd841ba24d4f31f4519b9f94d5ca56627823861c52abb70d1a708fc20aa77ea36

abbrev pub devnet_tee_validator : ℕ
devnet_tee_validator = 0xd65f584ef5927b169593b4ed41e2c310207df1a5febdf046d3812f940d1f2af3

abbrev pub mainnet_tee_validator : ℕ
mainnet_tee_validator = 0x741f8c6f1281c6c497e69b7319bc3f8f2b0741f858c90b682e739e851a473d05

abbrev pub localnet_tee_validator : ℕ
localnet_tee_validator = 0xf9e52edc881791e5c6ba3aa8522ba256956ada2d30a8f92a499dcf3b1647f160

-- The seeds of the derived addresses, as bytes.
abbrev pub job_seed : List ℕ
job_seed = b'j' ∷ b'o' ∷ b'b' ∷ []

abbrev pub archive_seed : List ℕ
archive_seed = b'a' ∷ b'r' ∷ b'c' ∷ b'h' ∷ b'i' ∷ b'v' ∷ b'e' ∷ []

abbrev pub ttd_seed : List ℕ
ttd_seed = b't' ∷ b't' ∷ b'd' ∷ []

abbrev pub vault_seed : List ℕ
vault_seed = b'v' ∷ b'a' ∷ b'u' ∷ b'l' ∷ b't' ∷ []

abbrev pub dispute_seed : List ℕ
dispute_seed = b'd' ∷ b'i' ∷ b's' ∷ b'p' ∷ b'u' ∷ b't' ∷ b'e' ∷ []

abbrev pub vote_seed : List ℕ
vote_seed = b'v' ∷ b'o' ∷ b't' ∷ b'e' ∷ []

abbrev pub escrow_seed : List ℕ
escrow_seed = b'e' ∷ b's' ∷ b'c' ∷ b'r' ∷ b'o' ∷ b'w' ∷ []

abbrev pub settlement_seed : List ℕ
settlement_seed = b's' ∷ b'e' ∷ b't' ∷ b't' ∷ b'l' ∷ b'e' ∷ b'm' ∷ b'e' ∷ b'n' ∷ b't' ∷ []

abbrev pub panel_quorum : ℕ
panel_quorum = 3

-- The status byte of a job.
abbrev pub status_open : ℕ
status_open = 0

abbrev pub status_bidding : ℕ
status_bidding = 1

-- winner selected, needs lock_stake
abbrev pub status_claimed : ℕ
status_claimed = 2

-- proof submitted, awaiting settlement
abbrev pub status_submitted : ℕ
status_submitted = 3

-- settled PASS
abbrev pub status_done : ℕ
status_done = 4

-- settled FAIL or expired
abbrev pub status_failed : ℕ
status_failed = 5

-- stake locked, ready for proof
abbrev pub status_staked : ℕ
status_staked = 6

abbrev pub verification_judge : ℕ
verification_judge = 2

abbrev pub review_period_secs : ℤ
review_period_secs = pos 3600

abbrev pub dispute_window_secs : ℤ
dispute_window_secs = pos 86400
