-- ===== src/Calls.antt =====
-- Calls that are made one after the other on a state: where one fails, the changes of those before it
-- stay, as between the transactions that a handler of the daemon makes.
mod Monad
pub mod Moves
pub mod Steps
unfoldable pub use Monad.*
