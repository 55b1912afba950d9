-- ===== src/Lib.antt =====
-- The session-affine gRPC gateway and its two helper services, modelled from their Go code.
--
-- A request runs through the parts of MyGateway in this order. `TransparentProxy.Handler`
-- (MyGateway/service/transparent.go) asks the route matcher for a route, runs the header chain with
-- the auth processor, which asks the token validator, takes a connection from the resolver, which
-- takes it from a static cluster or from the pool of a dynamic one, opens a stream on it, forwards
-- the messages, and on a failure reports the backend to the pool and may go on with another one. An
-- interceptor maps the error that the handler returns to a gRPC status. MyAuth issues the tokens, and
-- the instances of a pool come from MyDiscoverer, where they register.
--
-- The files, and the code they model:
--   Prelude, Text    shared names, Go's maps, results and integers, and Go's `strings`
--   Domain           MyGateway/domain: the configuration and its validation
--   RouteMatcher     MyGateway/service/route_matcher_generic.go
--   Token            MyGateway/auth/token.go, MyGateway/service/validator.go
--   Headers          MyGateway/helpers: headers.go, header_chain.go, configurable_auth_processor.go
--   GrpcError        MyGateway/service/grpc_error.go
--   Pool             MyGateway/service/connection_pool.go
--   Resolver         MyGateway/service/connection_resolver_generic.go
--   Proxy            MyGateway/service/transparent.go
--   Auth             MyAuth/service, MyAuth/adapters/redis/user_store.go, MyAuth/handlers/grpc.go
--                    Auth.Jwt is MyAuth/service/jwt.go, Auth.Settings is MyAuth/cmd/config.go
--   Config           MyGateway/cmd/config.go
--   Gateway          MyGateway/cmd/main.go, MyGateway/helpers/pointer.go, and the constructors; Traffic
--                    and Access have what holds of the parts together
--   Discoverer       MyDiscoverer/service, MyDiscoverer/adapters/myredis/cache.go, MyDiscoverer/handlers;
--                    Client is MyGateway/adapters/discoverer.go, Settings has MyDiscoverer/cmd/config.go
--                    and MyDiscoverer/adapters/myredis/config.go
--   Scenarios        IntegrationTests/scenario: scenario_shared.go, login_errors.go, sticky_session.go,
--                    gateway_error_unauthenticated.go, basic_workflow.go, session_transfer.go,
--                    no_instances_available.go, myservice_authentication_errors.go
--   Tests            concrete runs, and each theorem with hypotheses used once
-- A file X has what is proved about it under X/. A definition has the name of the Go function in
-- snake case; a parameter that Go mutates is passed on and returned.
--
-- State and concurrency. Every method of the pool holds its mutex from start to end, so a pool is a
-- record and each method a function on it; any interleaving of callers and of the refresh timer is a
-- list of calls (`Pool.Op`, `Pool.run`). The handlers of all requests share one resolver; what they,
-- the timers and the end of the program do to it is a list of its calls (`Resolver.Runs.Call`), and
-- the traffic of a gateway mixes whole requests with such calls (`Gateway.Traffic.Event`). Go's maps
-- are association lists with unique keys, in whose order the loops over a map go. Connections and
-- streams are numbers in the order in which they were made, and logs in the records hold what was
-- closed, cancelled, unregistered or reported.
-- The handler runs in an environment (`Proxy.Env`) that says how each call of the network ends and in
-- which order the two forwarding goroutines report. A scenario of the integration tests is a program
-- over a client (`Scenarios.Client`), whose calls pass on a state of their own; some theorems put the
-- models of MyAuth and of the gateway behind the client.
--
-- Bounds and fuel. `Proxy.replay` runs on `retry_count` as fuel: each transfer to another backend
-- counts one up, and the handler gives up on the transfer that reaches the count. The other loops run
-- over a list or count down. `Config.Numbers` has the 64 bits of `strconv.Atoi` and of a duration, the
-- one of an interval and the one of an instance's time to live in Redis, and the 32 bits of the index
-- that `SubscribeStream` counts; elsewhere Go's `int` is a natural number or `ℤ` without a bound, for
-- counters and indices that stay below the length of a list or the number of calls, and for ports
-- that are only passed on. The retry count is a natural number, since LoadConfig refuses a count
-- below 1.
--
-- Parameters. HMAC, base64, JSON and RFC 3339 times are `Token.Codecs`; `status.FromError` of gRPC is
-- a function with its documented behaviour in `GrpcError.Table.StatusLibrary`; dialling, the answers
-- of HTTP and of Redis, whether echo's error unwraps, the YAML reader, making a path absolute,
-- `time.ParseDuration` and `redis.ParseURL` are arguments. What the discoverer service relies on
-- in Redis is `Discoverer.Registration.KeepsWrites`; KEYS reads a pattern, so it speaks of a prefix in
-- which nothing is special in a pattern.
--
-- Not modelled: logging, timers and contexts beyond "the client is gone", the bytes of the messages,
-- headers and trailers that the proxy passes on unread, what the `main` functions do besides loading
-- and wiring (the one of MyDiscoverer is left out whole), MyAuth/adapters/redis/config.go, which is
-- the same code as the one of MyDiscoverer, the checks for nil, the C# service, generated code, and of
-- the integration tests the driver, the docker commands, the clients' connections, waiting and
-- printing, and the scenarios of files that are not named above.
pub mod Prelude
pub mod Text
pub mod GrpcError
pub mod Token
pub mod Domain
pub mod RouteMatcher
pub mod Headers
pub mod Resolver
pub mod Proxy
pub mod Pool
pub mod Auth
pub mod Config
pub mod Gateway
pub mod Discoverer
pub mod Scenarios
pub mod Tests
