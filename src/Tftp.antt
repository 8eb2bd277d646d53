-- ===== src/Tftp.antt =====
-- Package tftp of go-susi : the read-only TFTP server, go-susi/tftp/server.go, and the client,
-- go-susi/tftp/get.go.
pub mod Tests
pub mod Ack
pub mod Request
pub mod Transfer
pub mod Get
