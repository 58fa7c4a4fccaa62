-- ===== src/Payments/Budget.antt =====
-- The budget of a session: when `handler_record_payment` of
-- programs/taskforest-payments/src/instructions/payment.rs takes a payment.
use taskforest_protocol.Prelude.{
  false, ℕ, ◌+◌, ◌≤◌, ◌<◌, ◌≡◌, true, ◌⊎◌, some, arith, leb, if◌then◌else◌,
}
use taskforest_protocol.Errors.{ok, err, payments, budget_exceeded}
use taskforest_protocol.Words.{u32_max, u64_max, saturating_sum}
use taskforest_protocol.State.{EscrowWrapper, delegated, payments_id}
use taskforest_protocol.Chain.{World, Runtime, Env, escrow_account, as_escrow, store}
use taskforest_protocol.Payments.{escrow_seeds, record_payment}

-- A payment of a positive amount on a delegated escrow, at its own address, by its agent or its
-- validator, who signs.
pub record PaysFairly (rt : Runtime) (env : Env) (w : World) (escrow : EscrowWrapper)
    (key caller amount : ℕ) : Type 0 where
  pub owned : w.owner key ≡ payments_id
  pub at_hand : w.away key ≡ false
  pub loaded : as_escrow (w.content key) ≡ some escrow
  pub own_address : key ≡ rt.find_address (escrow_seeds escrow.escrow_id) payments_id
  pub in_session : escrow.status ≡ delegated
  pub signs : env.signed caller ≡ true
  pub party : (caller ≡ escrow.agent) ⊎ (caller ≡ escrow.validator)
  pub positive : 0 < amount

-- A positive payment on an escrow in session at its own address, not delegated away, by its agent
-- or validator, who signs, is taken exactly when the sum paid stays within the deposit, a u64: then
-- the sum grows by the amount, the count of requests by one, up to its greatest value, and nothing
-- else changes; otherwise the budget is exceeded.
pub record_payment_in_budget :
    (rt : Runtime) (env : Env) (w : World) (escrow : EscrowWrapper) (key caller amount : ℕ)
    → PaysFairly rt env w escrow key caller amount
    → escrow.deposited ≤ u64_max
    → record_payment rt env escrow.escrow_id amount key caller w ≡ (
        if leb (escrow.total_paid + amount) escrow.deposited
        then ok (
            store key
              (escrow_account (record escrow {
                total_paid = escrow.total_paid + amount;
                request_count = saturating_sum u32_max escrow.request_count 1;
              }))
              w)
        else err (payments budget_exceeded))
unfolding record_payment
record_payment_in_budget rt env w escrow key caller amount f width = ground arith
