-- ===== src/Hub/Steps.antt =====
-- What the operations of internal/hub preserve, in terms of the steps that they share.
mod Core
mod Shared
mod Endings
mod Rows
pub use Core.*
pub use Shared.*
pub use Endings.*
pub use Rows.*
