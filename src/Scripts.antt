-- ===== src/Scripts.antt =====
-- The shell scripts of the containers: the start of a database server, and the watch over the master
-- of a cluster.
pub mod Shell
pub mod Start
pub mod Watch
