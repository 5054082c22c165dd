-- ===== src/Service.antt =====
-- src/immich_on_demand/service.py: the worker that carries the queued uploads to the server.
pub mod Checks
pub mod World
pub mod Albums
pub mod Upload
pub mod Delay
pub mod Paging
pub mod Refresh
