-- ===== src/Tests.antt =====
-- Runs of the models at concrete inputs, and the theorems at concrete inputs.
mod Buffers
mod Headers
mod RoundTrips
mod Pipelines
mod Packets
mod Events
mod Calls
mod Services
mod Connections
mod Timers
mod Streams
mod Works
mod Pollers
mod Lists
mod Waiters
mod Statistics
