-- ===== src/Tests/Setup.antt =====
-- A runtime, a compression service and a hash that behave as documented, small enough to run, and a
-- world with a few funded wallets.
use taskforest_protocol.Prelude.{
  ℕ, ◌+◌, ◌-◌, ◌*◌, ◌≤◌, ◌≡◌, ap, true, false, Option, none, some, List, [], ◌∷◌, ◌++◌, length,
  arith, pos, leb, ltb, ◌==◌, ◌||◌, ◌^◌, ◌%◌, if◌then◌else◌,
}
use taskforest_protocol.Words.{from_le_bytes, to_le_bytes, u16_max}
use taskforest_protocol.Signature.{Sysvar, SignedInstruction, ed25519_program_id}
use taskforest_protocol.State.{Job, taskforest_id, status_submitted, localnet_tee_validator}
use taskforest_protocol.Job.{JobTerms, new_job}
use taskforest_protocol.Chain.{
  job_account, Lamports, World, Runtime, IsLawful, Env, vacant, moved, update,
}
use taskforest_protocol.Program.{Services}

abbrev pub pay : ℕ → ℕ → ℕ → Lamports → Option Lamports
pay from to n l = if leb n (l from) then some (moved from to n l) else none

-- The payer makes the account rent-exempt, at a hundred above its size.
abbrev pub create : ℕ → ℕ → ℕ → Lamports → Option Lamports
create payer key size l = if payer == key then none else pay payer key (size + 100 - l key) l

-- An address that names its seeds: no wallet below and no validator has it.
abbrev pub mix : List ℕ → ℕ → ℕ
mix [] acc = acc
mix (b ∷ bs) acc = mix bs (acc * 257 + b + 1)

abbrev pub mix_all : List (List ℕ) → ℕ → ℕ
mix_all [] acc = acc
mix_all (s ∷ ss) acc = mix_all ss (mix s (acc * 257))

abbrev pub address_of : List (List ℕ) → ℕ → ℕ
address_of seeds program = 10 + mix_all seeds program % 2 ^ 255

abbrev pub demo_runtime : Runtime
demo_runtime = record {
  minimum_balance = λ size. size + 100;
  transfer = pay;
  create_account = create;
  find_address = address_of;
  find_bump = λ seeds program. 255;
  address_with_bump = λ seeds bump program. address_of seeds program;
  delegate = λ key validator. true;
  commit_and_undelegate = λ payer key. true;
}

abbrev pub demo_services : Services
demo_services = record {
  runtime = demo_runtime;
  light = record {
    tree_pubkey = λ info. some info;
    derive_address = λ seeds tree program. address_of seeds (tree + program);
    create_leaf = λ proof address leaf ls. elim (ls address) [
      | none ↦ some (update address (some leaf) ls)
      | some _ ↦ none
    ];
  };
  blake3 = from_le_bytes;
}

pay_moves :
    (from to n : ℕ) (l l' : Lamports)
    → pay from to n l ≡ some l'
    → (n ≤ l from) × (l' ≡ moved from to n l)
pay_moves from to n l l' h = ground arith

create_moves :
    (payer key size : ℕ) (l l' : Lamports)
    → create payer key size l ≡ some l'
    → (n : ℕ) × (n ≤ l payer) × (l' ≡ moved payer key n l) × (size + 100 ≤ l' key)
create_moves payer key size l l' h =
    let paid : pay payer key (size + 100 - l key) l ≡ some l' = ground arith in
    let (enough, m) = pay_moves payer key (size + 100 - l key) l l' paid in
    (size + 100 - l key, enough, m, ground (arith, ap (λ (f : ℕ → ℕ). f key) m))

pub demo_runtime-IsLawful : IsLawful demo_runtime
demo_runtime-IsLawful = record { transfer_moves = pay_moves; create_moves = create_moves }

-- Wallets 1 to 9 hold a million each.
abbrev pub empty_world : World
empty_world = record {
  lamports = λ k. if ltb k 10 then 1000000 else 0;
  owner = λ k. 0;
  away = λ k. false;
  content = λ k. vacant;
  leaves = λ k. none;
}

-- The wallets and a validator sign.
abbrev pub at_time : ℕ → Env
at_time t = record { signed = λ k. ltb k 10 || k == localnet_tee_validator; now = pos t }

pub wallets_sign :
    (t : ℕ) (seeds : List (List ℕ)) (program : ℕ)
    → (at_time t).signed (address_of seeds program) ≡ false
wallets_sign t seeds program = ground arith

abbrev pub demo_terms : JobTerms
demo_terms = record {
  job_id = 7;
  reward_lamports = 5000;
  deadline = pos 100;
  spec_hash = 11;
  ttd_hash = 12;
  privacy_level = 0;
  encryption_pubkey = 0;
  assignment_mode = 0;
  verification_level = 1;
  verification_mode = 0;
}

-- A job of wallet 1 at address 50, submitted by wallet 2 at time 20 with a stake of 800.
abbrev pub demo_job : Job
demo_job = record (new_job demo_terms 1 255) {
  status = status_submitted;
  claimer = 2;
  claimer_stake = 800;
  best_bid_stake = 800;
  best_bidder = 2;
  bid_count = 1;
  proof_hash = 99;
  submitted_at = pos 20;
  dispute_window_end = pos 86420;
  tee_verified = true;
}

-- The wallets, and this job at address 50, which holds its reward and stake.
abbrev pub world_with : Job → World
world_with job = record empty_world {
  lamports = update 50 7000 empty_world.lamports;
  owner = update 50 taskforest_id empty_world.owner;
  content = update 50 (job_account job) empty_world.content;
}

-- A call of the signature program: its header, the key, a signature of zeros, the report; and a
-- transaction whose second instruction comes after it.
abbrev signature_call : ℕ → List ℕ → SignedInstruction
signature_call validator report = record {
  program_id = ed25519_program_id;
  bytes =
      1
      ∷ 0
      ∷ (to_le_bytes 2 48
          ++ (to_le_bytes 2 u16_max
              ++ (to_le_bytes 2 16
                  ++ (to_le_bytes 2 u16_max
                      ++ (to_le_bytes 2 112
                          ++ (to_le_bytes 2 (length report)
                              ++ (to_le_bytes 2 u16_max
                                  ++ (to_le_bytes 32 validator
                                      ++ (to_le_bytes 64 0 ++ report)))))))));
}

abbrev pub signed_before : ℕ → List ℕ → Sysvar
signed_before validator report = record {
  current_index = some 1;
  instruction_at = λ i. if i == 0 then some (signature_call validator report) else none;
}
