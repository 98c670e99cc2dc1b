-- ===== src/Lib.antt =====
-- Verification of the services under app/: the OAuth 2.0 / OpenID Connect authorization server,
-- app/auth; the task API, app/api; the database migrator, app/migrator; and what the servers do with
-- their configuration when they start.
--
-- A request reaches a handler of app/auth/route or app/api/route through the router and its middleware;
-- the handler reads its parameters, calls services, and maps their results and errors to a response.
-- The server's authorization service (app/auth/service/authorization_service.go, revoke.go, dto.go)
-- answers three kinds of requests: /authorize issues a single-use authorization code for a logged-in
-- user; the token endpoint exchanges a code, or a refresh token, for tokens; the revocation endpoint
-- revokes the family of a refresh token. Beside it stand the services for logging in with a browser
-- session, for consent, introspection and userinfo, and for the administration of clients and users.
-- They work on the aggregates of app/auth/domain through the repositories of app/auth/infra/postgres,
-- whose statements are those of sqlcgen/*.sql.go; the sessions are in memory (app/auth/infra/memory).
-- The task API serves a table of tasks with unique titles. The migrator creates a database, runs its
-- migrations, and provisions the role with which a service connects.
--
-- Files and what they model:
--   Prelude, Prelude/*: tests on numbers, lists, results, sets of texts; shared lemmas.
--   GoText, GoText/*: strings.Fields, Join, Split, TrimSpace, TrimSuffix, Cut and CutPrefix; hex and
--     base64url.
--   Action, Action/Keeps, Action/Atomic: Go methods as functions of their surroundings and a store;
--     invariants; transactions.
--   Http, Http/*: requests, responses, cookies and headers as the handlers see them, a handler as an
--     `Action` whose error is an early response; Answers and Reverts are rules for what a handler can
--     answer and for errors that leave the state as it was.
--   Auth/Errors, Auth/Platform: the sentinel errors; SHA-256, bcrypt and url.Parse as parameters.
--   Auth/AuthCode, Auth/AuthCode/*: app/auth/domain/authcode.
--   Auth/RefreshToken, Auth/RefreshToken/*: app/auth/domain/refreshtoken.
--   Auth/Client, Auth/User, Auth/Claims: app/auth/domain/client, user and token/claims.go.
--   Auth/Db, Auth/Db/*: the tables (sqlcgen/models.go) and SQL statements on a table with a key.
--   Auth/AuthCodes, Auth/RefreshTokens, Auth/Directory: the repositories, method by method; their
--     Statements children are the SQL statements.
--   Auth/Service/*: one use case per file: Authorize (ValidateAuthorize, Authorize), CodeGrant
--     (authorizationCodeGrant), RefreshGrant (refreshTokenGrant), Revoke (Revoke); Auth/Service has
--     the dispatch, Token.
--   Auth/Sessions, Auth/Sessions/*: app/auth/infra/memory/idp_session_store.go.
--   Auth/Service/Login, Consent, UserInfo, Admin, with children of theorems: authentication_service.go,
--     consent_service.go, introspection_service.go and userinfo_service.go, admin_service.go with the
--     writers of app/auth/infra/postgres.
--   Auth/Service/Discovery: discovery_service.go. Auth/Registration: NewConfidential (client.go), New
--     (user.go), and ListAll of the repositories of clients and users.
--   Auth/KeyRing, Auth/KeyRing/*: app/auth/infra/jwt: key_ring.go, signer.go, verifier.go, jwk.go, and
--     the checks of file_loader.go.
--   Auth/Route, Auth/Route/*: app/auth/route: Errors (response.go), Cookies (session_cookie.go), Tokens
--     (token_, revoke_, introspect_ and userinfo_handler.go, client_auth.go), Authorize
--     (authorize_handler.go), Browser (login_, consent_ and logout_handler.go), Admin
--     (admin_handler.go), Router (router.go, security_headers.go, discovery_handler.go).
--   Startup, Startup/*: app/api/infra/postgres/db.go, which app/auth has alike; Settings: cmd/api/env.go
--     and cmd/authz/env.go; Demo: the demo client and user and the purge of cmd/authz/main.go.
--   Task, Task/*: app/api/domain/task: task.go; status.go and priority.go (Values), page.go (Paging),
--     title.go (Titles), id.go (Id), errors.go (Errors); Lifecycle is about sequences of a task's
--     methods; Task/Store: the repository of app/api/infra/postgres; Task/Service:
--     app/api/service/task_service.go and the DuplicateChecker; Task/Jwt:
--     app/api/infra/jwt/verifier.go, whose cache of keys is its state; Task/Route: app/api/route.
--   Migrator/Values: app/migrator/domain/migration. Migrator/Quoting: quoteIdentifier, quoteLiteral.
--   Migrator/Server: Postgres as the answers to the calls of a run, which are kept as its state.
--   Migrator/Databases, Roles: app/migrator/infra/postgres/database.go and role.go.
--   Migrator/Config: app/migrator/cmd/migrator/env.go. Migrator/Service: Migrate, Runner.Run and run.
--   Auth/Tests/*, Auth/KeyRing/Tests, Task/Tests, Task/*/Tests, Startup/Tests, Migrator/Tests: the theorems applied at concrete inputs.
--
-- How code is modelled. A method is an `Action`: it takes an `Env`, which answers the n-th reading of
-- the clock, of rand.Read and of the database's availability as it likes, and a `World`, the number of
-- readings so far and the tables; it returns a value or an error and the new world. A statement is one
-- atomic step with its own now(); a transaction runs alone, shares the now() of its begin, and rolls
-- back after an error. A request of the service is a sequence of such steps; where interleaving
-- matters (Auth/RefreshTokens/SingleUse) the calls of the repository are put in any order.
-- Texts are Unicode texts; a value object that wraps a string (Code, ClientID, RedirectURI, FamilyID)
-- is the text. Times are microseconds since year 1, the precision of the database; `Unix()` is exact.
-- A wrapped error is its sentinel, since callers only ask errors.Is. jsonb columns are the lists that
-- they encode. A Go set is the list of its members. Loops go over lists, but
-- for the five attempts to set a role's password, which count down; nothing runs on fuel. A method of
-- the session store holds the store's lock, so it is one step; a cancelled request is a reading of
-- `outage`. The pools for reading and for writing are taken as one database.
--
-- A Go map is an association list with one entry for each key; its order, which Go leaves open, is
-- seen only in the list of the public keys, whose active key comes first in any case.
-- A response is its status, headers, cookies and body, the body as the value that is encoded or the
-- location of a redirect; a write to a ResponseWriter after the response is not modelled, since no
-- handler makes one. A pool of connections is a handle that no earlier call has got. The count and the
-- page of a task listing are two statements; what other requests write in between is an argument of
-- the listing, and the routes serve one with nothing in between. A deferred Close of the migrator is a
-- call like the others, made however the method ends.
--
-- Parameters: what Task/Jwt's `Libraries` and Auth/KeyRing's `Crypto` list (RSA, PEM, SHA-256, JSON,
-- base64 decoding, the GET of the key set), token.Signer (`sign`) and token.Verifier (`verify`) where a
-- service takes them, bcrypt, net/url and fmt.Sscanf (`Web`), the choice of a pattern by http.ServeMux
-- (`Mux`), the decoding of request bodies (`Decoders`, `Formats`, a request's `form`), os.Getenv, the
-- pgx driver (`Driver`), time.ParseDuration, the database's collation, what goose does with a directory
-- of migrations, and Postgres' answers to the migrator. No law of theirs is assumed, but for `Reports`
-- in Migrator/Databases/Laws, which says what the answers to CREATE DATABASE mean, and `IsCrypto` in
-- Auth/KeyRing/RoundTrip, which says of one token that decoding undoes encoding and that its signature
-- verifies.
--
-- Not modelled: the wiring of the processes in the main functions, their signals, timeouts and HTTP
-- servers; the signing key that is drawn at random without a key file, with its thumbprint; HTML
-- templates, logging, and the text of a DSN. The contract tests of the repositories are test code. The
-- TypeScript, Terraform and documentation parts of the repository are outside of this library.
pub mod Prelude
pub mod GoText
pub mod Action
pub mod Http
pub mod Auth
pub mod Task
pub mod Migrator
pub mod Startup
