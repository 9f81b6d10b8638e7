-- ===== src/Service.antt =====
-- rpc/rpc_service_pool.h: the services of a server, and the statistics of their methods.
pub mod Stats
pub mod History
pub mod Pool
pub mod Lookup
