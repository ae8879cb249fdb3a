-- ===== src/Tests.antt =====
-- Runs of the models on small inputs, and the theorems at these inputs.
mod Config
mod Spots
mod Caddyfile
mod Written
mod Serving
mod Streams
mod Delivering
mod Making
mod Watching
mod Running
mod Registering
mod Reloading
mod Routing
mod Observing
mod Logging
