-- ===== src/Runtime.antt =====
-- internal/runtime: the client and server runtimes, how a server is made and started, the resolver
-- of passthrough routes, the transport of the reverse proxy and the metrics observer.
pub mod Client
pub mod Resolver
pub mod Server
pub mod Tls
pub mod Making
pub mod Transport
pub mod Metrics
