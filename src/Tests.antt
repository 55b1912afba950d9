-- ===== src/Tests.antt =====
-- Runs of the models on concrete inputs, and one use of each theorem that has hypotheses. `Codes` is
-- a small stand-in for the encodings of Go's library.
pub mod Busy
pub mod Authentication
pub mod Scenarios
pub mod Codes
pub mod Tokens
pub mod Routes
pub mod Errors
pub mod Pools
pub mod Streams
pub mod Gateways
pub mod Access
pub mod Discovery
pub mod Configs
