-- ===== src/Proto.antt =====
-- The protobuf messages of dependencies/hologram-protos/src/proto/firm_wallet, as the generated
-- Rust structs hold them. A message field that is absent reads as its default value, so such a
-- field is the message itself, except `balance_limit`, whose presence the service tests.
mod Accounts
mod Requests
mod Events
pub use Accounts.*
pub use Requests.*
pub use Events.*
