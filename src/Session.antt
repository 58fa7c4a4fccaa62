-- ===== src/Session.antt =====
-- What the payments program promises of an escrow, apart from accounts, keys and signatures: a
-- deposit that waits, a session that pays out of it a piece at a time and never more than it, and
-- an end. programs/taskforest-payments/src/instructions/payment.rs is measured against it.
use taskforest_protocol.Prelude.{ℕ, ◌+◌, ◌≤◌, ◌≡◌, Option, none, some}
use taskforest_protocol.State.{EscrowStatus, active, delegated, settled}
use taskforest_protocol.Chain.{Content, escrow_account}

pub data Phase : Type 0 where
  waiting : Phase
  running : Phase
  closed : Phase

pub record Session : Type 0 where
  pub deposit : ℕ
  pub paid : ℕ
  pub phase : Phase

pub data SessionStep : Option Session → Option Session → Type 0 where
  rest : {s : Option Session} → SessionStep s s
  opens : {s' : Session} → s'.paid ≡ 0 → s'.phase ≡ waiting → SessionStep none (some s')
  starts :
      {s s' : Session}
      → s.phase ≡ waiting
      → s' ≡ record s { phase = running }
      → SessionStep (some s) (some s')
  pays :
      {s s' : Session} (amount : ℕ)
      → s.phase ≡ running
      → s.paid + amount ≤ s.deposit
      → s' ≡ record s { paid = s.paid + amount }
      → SessionStep (some s) (some s')
  closes : {s s' : Session} → s' ≡ record s { phase = closed } → SessionStep (some s) (some s')

abbrev pub phase_of : EscrowStatus → Phase
phase_of active = waiting
phase_of delegated = running
phase_of settled = closed

-- What an account looks like from here.
abbrev pub session_of : Content → Option Session
session_of (escrow_account e) =
    some (record { deposit = e.deposited; paid = e.total_paid; phase = phase_of e.status })
session_of c = none
