-- ===== src/Tests/Delegated.antt =====
-- The job of the runs is delegated before it is assigned, and the escrow before its session.
use taskforest_protocol.Prelude.{◌≡◌, refl, none}
use taskforest_protocol.Errors.{ok}
use taskforest_protocol.Words.{to_le_bytes, from_le_bytes}
use taskforest_protocol.Chain.{World, hand_over, init_account, system_transfer}
use taskforest_protocol.Lifecycle.{job_at}
use taskforest_protocol.Job
use taskforest_protocol.Job.{job_seeds}
use taskforest_protocol.Registry
use taskforest_protocol.Registry.{delegate_job}
use taskforest_protocol.Registry.Delegated.{IsLocked, delegate_job_locks}
use taskforest_protocol.Payments
use taskforest_protocol.Payments.{delegate_to_per, escrow_seeds}
use taskforest_protocol.Payments.Delegated.{EscrowIsLocked, delegate_to_per_locks}
use taskforest_protocol.Program.{execute}
use taskforest_protocol.Tests.Setup.{demo_runtime, at_time}
use taskforest_protocol.Tests.Calls.{job_key, escrow_key, posted_world, funded_world}

abbrev delegated_world : World
delegated_world = hand_over job_key posted_world

delegate_job_succeeds :
    delegate_job demo_runtime (at_time 11) none 1 job_key posted_world ≡ ok delegated_world
unfolding execute Job.initialize_job Registry.delegate_job init_account system_transfer job_seeds
    to_le_bytes
delegate_job_succeeds = refl

delegate_job_locks_example :
    (job_at delegated_world job_key ≡ job_at posted_world job_key)
    × (delegated_world.lamports job_key ≡ posted_world.lamports job_key)
    × IsLocked demo_runtime job_key delegated_world
delegate_job_locks_example =
    delegate_job_locks demo_runtime (at_time 11) none 1 job_key posted_world delegated_world
      delegate_job_succeeds

abbrev private_world : World
private_world = hand_over escrow_key funded_world

delegate_to_per_succeeds :
    delegate_to_per demo_runtime (at_time 13) none 4 escrow_key 1 funded_world ≡ ok private_world
unfolding execute Job.initialize_job Job.auto_assign_job Payments.create_escrow_wrapper
    Payments.delegate_to_per init_account system_transfer job_seeds escrow_seeds to_le_bytes
delegate_to_per_succeeds = refl

delegate_to_per_locks_example :
    (private_world.content escrow_key ≡ funded_world.content escrow_key)
    × (private_world.lamports escrow_key ≡ funded_world.lamports escrow_key)
    × EscrowIsLocked demo_runtime from_le_bytes escrow_key private_world
delegate_to_per_locks_example =
    delegate_to_per_locks demo_runtime from_le_bytes (at_time 13) none 4 escrow_key 1 funded_world
      private_world delegate_to_per_succeeds
