-- ===== src/Lib.antt =====
-- A model of caddy-bifrost, the Caddy plugin that runs the two ends of a Bifrost tunnel, and proofs
-- about it.
--
-- The program. A Caddy process on the public side runs the app with a server runtime: connectors
-- dial in, and traffic for an endpoint goes through the connector's session. A Caddy process on the
-- private side runs the app with a client runtime, which dials the connector listener. Traffic
-- enters in two ways: through the reverse proxy's transport, where the upstream host names the
-- endpoint, and through the listener wrapper, which reads the server name of a TLS ClientHello,
-- resolves it to an endpoint and proxies the raw bytes, or hands the connection on to Caddy.
-- Reloads overlap: the app of the new configuration starts before that of the old one stops, so
-- client runtimes are shared by leases that a registry counts.
--
-- The files, and the code that each is about.
-- * Leases (client_runtime.go): `clientRuntimeLease`, `clientRuntimeRegistry` and their operations;
--   pointers to client runtimes are places in a store. Leases/System makes every critical section
--   one step, so that the steps of several calls interleave. A start that makes a runtime
--   normalises the lease's configuration once more, which changes some addresses, so a runtime is
--   followed by the identity it was made for, not by its configuration. Leases/Fingerprint is the name that
--   the log has for a runtime.
-- * Runtime/Client (internal/runtime/client.go): `NewClient`, `Start`, `Stop`, as the leases see
--   them, and `handleStream`; Runtime/Client/Life has the steps of the goroutine, and what they do to
--   the flags that the leases see.
-- * Runtime/Making (internal/runtime/server.go): `NewServer` with its options, and in
--   Runtime/Making/Starting the first part of `Start`, which opens the listener and makes the tunnel
--   server; Runtime/Tls is `caddyTLSConfig`.
-- * Runtime/Resolver (internal/runtime/server.go): the static resolver and `ResolvePassthrough`.
-- * Runtime/Server (internal/runtime/server.go): the life of a server runtime, the steps of `Start`
--   and of `Stop` against those of the goroutine that `Start` launches. `Start` is called once, as
--   Caddy does; `Stop` may be called before it, during it and after it.
-- * Caddyfile (internal/caddyfile/app.go, caddyfile.go, listener.go): the parsers of the blocks, on
--   any cursor over tokens. Caddyfile/Tree and Caddyfile/Schema say what written lines mean without
--   a cursor; Caddyfile/Cursor states what Caddy documents of its cursor, and compares the two.
--   Caddyfile/Written writes a server's configuration out, to be read back.
-- * App (app.go, passive_latency.go): `App.Provision` with the loaders of its modules. App/Life is
--   `App.Start` and `App.Stop`, and App/Life/Reload the reload of an app, start before stop.
-- * Listener (listener.go): `handleConnection`, `serverRuntime` and the loop of `Accept`;
--   Listener/Provision is `ListenerWrapper.Provision`, on the apps that all wrappers share.
-- * Passthrough (passthrough_observer.go, app.go): the lifecycle of a stream as a record of flags
--   and the calls on it; Passthrough/Stream is the goroutine that `handleConnection` starts, and
--   Passthrough/Proxy its call of the server runtime. Passthrough/Delivery lets the calls on one
--   lifecycle overlap: each marks under the lock and hands its observations on outside it.
-- * Routes (internal/config/routes.go): the route table.
-- * Config (internal/config/config.go): the configuration, its normal forms, checks, conversions.
-- * Runtime/Transport (internal/runtime/transport.go): the endpoint of an upstream address,
--   `dialContext`, `RoundTrip`.
-- * TransportModule (transport.go): the module that Caddy's reverse proxy uses.
-- * Runtime/Metrics (internal/runtime/metrics.go): the observer that counts; in
--   Runtime/Metrics/Registration its vectors are registered.
-- * PassiveLatency (passive_latency.go, internal/runtime/server.go): the bounded latency view.
-- * NetUtil (internal/netutil/netutil.go): the look at the ClientHello, `SplitAddress`; in its
--   children `DialAddress`, `ListenCaddy` and the goroutine of `CloseOnContext`, and the
--   two connections of the look at the ClientHello, read by read.
-- * Logging (internal/logging/slog.go): the handler that passes log records on to zap.
-- * Text, HostPort, GoMap: what the code uses of Go's strings, net and maps. Base: shared helpers.
-- * Tests and Leases/Tests: runs on small inputs.
--
-- Bounds. Only the loops of the Caddyfile parsers are bounded: each takes fuel and fails with an
-- error of its own, `out_of_fuel`, when it is used up. Each round reads a token, so more fuel than
-- there are tokens in front of the cursor is enough. All other loops are over lists. A run of the
-- registry, of a runtime, of a watch or of a stream under way is a sequence of steps of any length.
-- Numbers of the configuration are integers without a bound.
--
-- Parameters: the tunnel library, Caddy's context, its modules, its TLS app, its network addresses
-- and its cursor, the Prometheus registry, Go's dialler, SHA-256 and JSON encoding, Go's parsing of
-- numbers and of the ClientHello, and the part of Unicode's case table beyond ASCII.
--
-- Not modelled: the log lines, except those of the goroutines of the runtimes, the certificates
-- and handshakes of TLS themselves, the registration of the modules with Caddy, the encoding of the
-- app as JSON, and the test helpers.
pub mod Base
pub mod Text
pub mod GoMap
pub mod HostPort
pub mod Config
pub mod Routes
pub mod Runtime
pub mod Leases
pub mod Passthrough
pub mod PassiveLatency
pub mod NetUtil
pub mod Listener
pub mod Caddyfile
pub mod App
pub mod TransportModule
pub mod Logging
pub mod Tests
