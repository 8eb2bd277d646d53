-- ===== src/Security.antt =====
-- Package security of go-susi (go-susi/security).
pub mod Tests
pub mod Limits
pub mod Context
pub mod Crypt
