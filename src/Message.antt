-- ===== src/Message.antt =====
-- Package message of go-susi (go-susi/message).
pub mod Address
pub mod JobQueries
pub mod Triggers
pub mod Registration
pub mod Dispatch
pub mod ForeignUpdates
pub mod Tests
