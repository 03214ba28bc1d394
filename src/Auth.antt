-- ===== src/Auth.antt =====
-- internal/radius/auth.go: authentication.
pub mod Effective
pub mod Priority
pub mod Decision
pub mod Admission
pub mod Accepted
pub mod Vouchers
pub mod Lifetime
pub mod Counters
pub mod Reply
