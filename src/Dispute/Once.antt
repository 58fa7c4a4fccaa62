-- ===== src/Dispute/Once.antt =====
-- A second vote of a verifier on a dispute: `#[account(init)]` on the vote of `CastVote` in
-- programs/taskforest/src/instructions/dispute.rs refuses it.
use taskforest_protocol.Prelude.{ℕ, ◌≡◌, false, arith}
use taskforest_protocol.Errors.{is_ok}
use taskforest_protocol.State.{VerifierVote}
use taskforest_protocol.Chain.{World, Env, Runtime, vote_account}
use taskforest_protocol.Chain.Keeps.{init_account-fresh}
use taskforest_protocol.Records.{record_of}
use taskforest_protocol.Accounts.{AccountIsSound}
use taskforest_protocol.Dispute.{cast_vote}

pub cast_vote_refused :
    (rt : Runtime) (env : Env) (verdict dispute vote verifier k : ℕ) (w : World) (v : VerifierVote)
    → AccountIsSound rt k w
    → record_of w k ≡ vote_account v
    → v.dispute ≡ dispute
    → v.verifier ≡ verifier
    → is_ok (cast_vote rt env verdict dispute vote verifier w) ≡ false
unfolding cast_vote
cast_vote_refused rt env verdict dispute vote verifier k w v sound h e e' =
    grind (arith, init_account-fresh)
