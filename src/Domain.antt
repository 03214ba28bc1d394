-- ===== src/Domain.antt =====
-- internal/domain/domain.go: the data that the components share.
pub mod Pppoe
pub mod Voucher
pub mod User
pub mod Session
