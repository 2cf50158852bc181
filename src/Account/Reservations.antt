-- ===== src/Account/Reservations.antt =====
-- Reserved money: the total of an account, what reserve and release do to it, and that a release
-- undoes a reserve.
mod Sums
pub mod Totals
pub mod Undo
