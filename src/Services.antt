-- ===== src/Services.antt =====
-- The services of the containers, written in Go: the vacuum job, the scheduler of jobs, the bridge
-- from Docker to the names of Consul, and the collector of metrics.
pub mod Checks
pub mod Parse
pub mod Vacuum
pub mod Dba
pub mod Dns
pub mod Collect
