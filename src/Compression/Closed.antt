-- ===== src/Compression/Closed.antt =====
-- What `handler_compress_finished_job` of programs/taskforest/src/instructions/compressed.rs leaves
-- of a job: its leaf, and its lamports with the poster.
use taskforest_protocol.Prelude.{
  false, ℕ, ◌+◌, ◌≤◌, ◌≡◌, ◌≢◌, true, none, some, Option, [], ◌∷◌, arith, refl,
}
use taskforest_protocol.Errors.{ok}
use taskforest_protocol.Words.{u64_max, to_le_bytes}
use taskforest_protocol.State.{Job, Leaf, job_leaf, taskforest_id}
use taskforest_protocol.Chain.{World, Env, update, vacant}
use taskforest_protocol.Lifecycle.{job_at, is_finished}
use taskforest_protocol.Compression.{
  Light, LightArgs, job_leaf_seed, finished_leaf, compress_finished_job,
}

-- The poster of a finished job signs, the service creates its leaf, and the poster's balance has
-- room.
pub record IsCompressible (light : Light) (env : Env) (l : LightArgs) (poster key : ℕ) (job : Job)
    (w : World) : Type 0 where
  pub loaded : job_at w key ≡ some job
  pub at_hand : w.away key ≡ false
  pub finished : is_finished job.status ≡ true
  pub right_poster : job.poster ≡ poster
  pub signs : env.signed poster ≡ true
  pub apart : key ≢ poster
  pub tree : ℕ
  pub right_tree : light.tree_pubkey l.address_tree_info ≡ some tree
  pub leaves : ℕ → Option Leaf
  pub creation :
      light.create_leaf l.proof
        (light.derive_address (job_leaf_seed ∷ to_le_bytes 32 key ∷ []) tree taskforest_id)
        (job_leaf (finished_leaf env job))
        w.leaves
      ≡ some leaves
  pub room : w.lamports poster + w.lamports key ≤ u64_max

-- A finished job that is not delegated away and whose poster signs, at an address other than the
-- poster's, is compressed whenever the compression service creates the leaf with the job's fields
-- and the time at the address derived for the job, and the poster's balance has room: the poster
-- gets every lamport of the job's account, whatever it holds, no other balance changes, the account
-- holds no job and no lamports, no other job changes, and the leaves are those of the service.
pub compress_finished_job_closes :
    (light : Light) (env : Env) (l : LightArgs) (poster key : ℕ) (job : Job) (w : World)
    (h : IsCompressible light env l poster key job w)
    → (w' : World) × (compress_finished_job light env l poster key w ≡ ok w')
      × (w'.lamports poster ≡ w.lamports poster + w.lamports key)
      × (w'.lamports key ≡ 0)
      × ((q : ℕ) → q ≢ key → q ≢ poster → w'.lamports q ≡ w.lamports q)
      × (job_at w' key ≡ none)
      × ((q : ℕ) → q ≢ key → job_at w' q ≡ job_at w q)
      × (w'.leaves ≡ h.leaves)
unfolding compress_finished_job
compress_finished_job_closes light env l poster key job w h =
    let w' : World = record w {
      lamports =
          update poster (update key 0 w.lamports poster + w.lamports key) (update key 0 w.lamports);
      owner = update key 0 w.owner;
      content = update key vacant w.content;
      leaves = h.leaves;
    } in
    (
      w',
      ground (
        arith, h.loaded, h.at_hand, h.finished, h.right_poster, h.signs, h.apart, h.right_tree,
        h.creation, h.room,
      ),
      ground (arith, h.apart),
      ground (arith, h.apart),
      λ q hk hp. ground arith,
      ground arith,
      λ q hk. ground arith,
      refl,
    )
