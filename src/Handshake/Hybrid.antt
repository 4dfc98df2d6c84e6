-- ===== src/Handshake/Hybrid.antt =====
-- The hybrid profile of the binary handshake across the connection: what each side's run has done,
-- and the two runs together.
pub mod ServerSide
pub mod Served
pub mod ClientSide
pub mod Connected
pub mod Frames
pub mod Agreement
