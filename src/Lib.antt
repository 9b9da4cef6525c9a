-- ===== src/Lib.antt =====
-- Verification of core-go, the Go library that the GraphQL services of SourceHut share.
--
-- A service sets the values of a context (config, database, user), lets auth/middleware.go
-- authenticate each request, and guards its resolvers with the directives of server/directives.go.
-- Models name their columns for the queries by database/sq.go and database/ql.go, which run in
-- transactions of database/middleware.go. Input is validated with valid/valid.go. A service asks
-- another one by client/graphql.go with an internal request, which auth/middleware.go receives
-- there. A webhook is created with the authentication of webhooks/config.go and runs later in a
-- context that `WebhookAuth` of auth/middleware.go makes.
--
-- Files and what they model:
--   Base, Errors      shared: Boolean tests, texts, maps, integers, results; the errors by message
--   Codec             base64 (with and without padding) and hexadecimal of Go's library
--   Config            config/middleware.go and `GetOrigin` of config/config.go
--   Config.Load       `LoadConfig` of config/config.go
--   Crypto            crypto/crypto.go
--   Client            client/graphql.go (`Execute`)
--   Database.Tx       database/middleware.go (`WithTx`)
--   Database.Fields   database/sq.go (`ModelFields`)
--   Database.Columns  database/ql.go, and `Select`, `SelectAll` and `ScanAll` of database/sq.go
--   Auth.Bearer, Auth.Grants
--                     auth/bearer.go: tokens, and `DecodeGrants`, `Has`, `Encode`
--   Auth.Types, Auth.Env, Auth.Http
--                     the types of package auth, what it asks of the world, and handlers by what
--                     they do
--   Auth.Lookup       auth/middleware.go: `authForUsername`, `authForOAuthClient`,
--                     `FetchMetaProfile`, `LookupUser`, `LookupTokenRevocation`
--   Auth.Cookie, Auth.Internal, Auth.Oauth2, Auth.Legacy, Auth.Webhook, Auth.Middleware
--                     auth/middleware.go: `cookieAuth`, `internalAuth`, `OAuth2`, `LegacyOAuth`,
--                     `WebhookAuth`, `Middleware`
--   Auth.Oauth2.Threads
--                     the threads of `OAuth2` step by step, as a step function and the states that
--                     it reaches in any interleaving
--   Server.Directives server/directives.go
--   Server.Assembly, Server.Handler, Server.Run
--                     server/server.go: putting a server together, what a request goes through,
--                     and `Run`
--   Server.Recover    server/email.go
--   Valid             valid/valid.go
--   Webhooks.Config   webhooks/config.go
--   Webhooks.Context  webhooks/context.go (`Exec`)
--   Webhooks.Batch    the loop, the transaction and the enqueueing that both schedulers run
--   Webhooks.Queue    webhooks/queue.go up to the enqueueing of the tasks
--   Webhooks.Delivery `deliverPayload` of webhooks/queue.go and webhooks/legacy.go
--   Webhooks.Legacy   webhooks/legacy.go: `fetchSubscriptions`, and in its child Schedule
--                     `Schedule` and `queueStage2`
--   Webhooks.Firing   a webhook from its scheduling to the request that is sent
--   Model             model/cursor.go and model/filter.go
--   Email.Send        email/send.go
--   Email.Header      the header of go-message: its operations and what is assumed of them
--   Email.Queue       email/worker.go
--   Values            webhooks/middleware.go, redis/middleware.go and s3/middleware.go
--   Token             cmd/token/main.go
--   Tests             a small instance, and the theorems applied to it
--
-- A text is the list of its bytes. A call that can fail comes to a `Go` result: a value, an error
-- or a panic. An HTTP handler comes to the responses that it writes and the calls of the next
-- handler, in order (Auth.Http). A transaction works on a copy of what the database holds. The two
-- goroutines of `OAuth2` end in either order, which is an argument; that this is enough is shown
-- by their interleavings in Auth.Oauth2.Threads, where each thread is cut at its calls, its atomic
-- additions and wg.Done(). A function that changes an object returns the changed one. No
-- definition runs on fuel: each loop goes through a list. A timestamp is an int64, and its time
-- wraps as that of time.Unix does. A server is the list of its router's calls and of the queues
-- that it started, and a request goes through the middlewares in the order of that list.
--
-- Parameters, because their code is not the repository's: ed25519, HMAC, fernet, SHA-512, BARE,
-- encoding/json, net, the HTTP and SMTP clients, strings.ToLower beyond ASCII, the quoting of
-- identifiers, the GraphQL executor, chi's real-ip, go-message, the sockets, the rows that queries
-- give and the answers of the database to a transaction. What is assumed of the ciphers is the
-- record `Documented` of Crypto.Laws, and of headers the record `IsHeader` of Email.Header, where
-- keys are the same in whatever case and texts are encoded. The clock is one time during a
-- request.
--
-- Not modelled: the retries and threads of the task queue (dowork), the metrics and the deadline of
-- requests, the page of api-meta.json, the connection that `ForContext` of package database opens,
-- and what is logged.
pub mod Base
pub mod Errors
pub mod Config
pub mod Codec
pub mod Crypto
pub mod Database
pub mod Client
pub mod Auth
pub mod Server
pub mod Valid
pub mod Webhooks
pub mod Model
pub mod Email
pub mod Tests
pub mod Token
pub mod Values
