-- ===== src/First.antt =====
-- The first framework (c/): a server and a client that perform the handshake in lines of JSON.
pub mod Table
pub mod Server
pub mod Client
pub mod Lines
pub mod ClientRun
pub mod ServerRun
pub mod Served
pub mod Messages
pub mod Agreement
pub mod Parts
pub mod Costs
pub mod Weights
pub mod Trained
pub mod Track
pub mod Averages
