-- ===== src/Daemon.antt =====
-- src/abacusd.C: the threads between the network, the database and the handlers. Daemon.Peers is the
-- queue of messages, Daemon.Workers the pool of worker threads, and
-- Daemon.Timed the actions that wait for their time.
pub mod Peers
pub mod Occurrences
pub mod Once
pub mod Workers
pub mod Pool
pub mod Timed
pub mod Due
