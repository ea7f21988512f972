-- ===== src/Lib.antt =====
-- A model of `an`, an authentication service in Go: accounts, password and code logons, sessions with
-- rotating refresh tokens, api keys, social logons, and an OpenID Connect provider on the same accounts.
--
-- The parts, and the files that model them:
--   * Rows, World: the tables of postgres (internal/db/migrations) as lists of rows, the keys that the
--     process holds, and the environment. Every piece of code outside the repository (crypto/rand,
--     crypto/sha256, bcrypt, uuid, the JWT library, the clock, the failures of the driver) is a field of
--     `Env`, a function of the number of calls made so far where its answer may change.
--   * Error: the error types of internal/*/*_errors.go. Table: SELECT, UPDATE and DELETE on lists.
--   * Exec: what a Go function does, as a function from an environment and a world to a value or an
--     error and a world; transactions are those of internal/utils/tx_manager.go. Exec/Rules, Exec/Makes,
--     Exec/Yields and Exec/Preserves hold the rules by which the proofs go, and Table/Unique
--     what holds of a table with a key.
--   * Utils: internal/utils (crypto.go, validation.go, tenant.go).
--   * Store: one module for each repository, its statements written out with their constraints.
--     Store/Attempts/Refines and Store/Sessions/Refines have the maps that two of the tables stand for.
--   * Accounts: internal/accounts/accounts.go. Its session revokers are a parameter, filled by Service,
--     as cmd/an/main.go does: the sessions of the api and, with the provider enabled, what
--     internal/oidc/revoker.go ends.
--   * Authn, LogonCode: internal/authn. They read accounts, count failures and keep sessions.
--   * Tokens: internal/tokens, the issue and the check of JWTs and the JSON web key set. ApiKeys:
--     internal/apikeys. Social: internal/social, with the validator of Google's tokens.
--   * Gateway: api/auth/auth.go, the gate in front of the handlers.
--   * Oidc: internal/oidc, the storage and the clients of the provider, and what it answers to the library.
--   * Api: the handlers of api/, over the request that they are given. Api/Problem has what they share, and
--     Api/Mount and Api/Login the paths, the cookies and the pages of the provider (api/oidc).
--   * Service: the wiring and the janitor of cmd/an/main.go. Service/Invariant has calls of the accounts,
--     the logons, the sessions and the sweep in any order, and the keys of the tables that they write.
--     AppConfig: cmd/an/config.go, and what main.go makes of the configuration.
--   * Tests: the theorems at concrete inputs.
--
-- Where a handler calls a service, the service returns an error as a value, and the handler makes a problem of
-- it; a page answers in the same way. The gate hands the tenant of a key to the handler in a context.
--
-- Numbers are natural, but for the integers that the configuration reads: a time is a number of
-- nanoseconds since an epoch, and the times of the database are not rounded to its precision. Uuids and
-- emails are compared as texts. A text that no column of type uuid takes fails the statements that write a
-- session or an authorization request. A call of the driver that fails has no effect. No operation needs
-- fuel: all recursion is on lists, texts and numbers. What net/url, net/http, html/template and the OpenID
-- library give is a parameter of the handler that asks for it.
--
-- Not modelled: the HTTP server and the registration of its routes, the rate limiters, the decoding of
-- bodies (a request is the record that binding gives, or the text of its error), the logs, the migrations,
-- and the construction of the provider of the OpenID library. The durations of the configuration are those of
-- `Config`; the seconds of `AppConfig` are not carried over to it. Requests run one after another, but for the
-- statements on sessions, whose interleavings are sequences of statements.
pub mod Prelude
pub mod Table
pub mod Error
pub mod Rows
pub mod World
pub mod Exec
pub mod Utils
pub mod Store
pub mod Accounts
pub mod Tokens
pub mod Authn
pub mod LogonCode
pub mod Oidc
pub mod ApiKeys
pub mod Gateway
pub mod Social
pub mod Service
pub mod AppConfig
pub mod Api
pub mod Tests
