-- ===== src/State.antt =====
-- The accounts of the taskforest program (programs/taskforest/src/state) and of the payments
-- program (programs/taskforest-payments/src/state), field by field, and the constants of both.
-- `Pubkey` and `[u8; 32]` are numbers (see Words), `i64` is ℤ.
mod JobAccount
mod Records
mod Payments
mod Compressed
mod Constants
pub use JobAccount.*
pub use Records.*
pub use Payments.*
pub use Compressed.*
pub use Constants.*
