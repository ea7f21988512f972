-- ===== src/Store.antt =====
-- The repositories of internal/*: one module for each, over the tables of `Db`.
pub mod Tenants
pub mod Accounts
pub mod Resets
pub mod Sessions
pub mod Attempts
pub mod Codes
pub mod ApiKeys
pub mod SigningKeys
pub mod SocialLogins
pub mod AuthRequests
pub mod OidcTokens
pub mod BrowserSessions
pub mod Clients
