-- ===== src/Api.antt =====
-- The HTTP handlers of api/.
pub mod Message
pub mod Problem
pub mod Accounts
pub mod Authenticate
pub mod ApiKeys
pub mod Clients
pub mod Public
pub mod Mount
pub mod Login
